-- ===== src/Controller/Election/Votes.antt =====
-- The votes that `readFromClient` of Controller/src/proxy1.c counts, and those among the messages.
use mathlib.Core.List.{append_assoc, append-nil}
use mathlib.Core.Path.{subst}
use web_q_final.Prelude.{
  ℕ, suc, ◌+◌, ◌<◌, ◌≤◌, ◌≡◌, ◌∙◌, ap, sym, refl, arith, List, [], ◌∷◌, ◌++◌, true, set, get_or,
  length, All, Bool-cases, inl, inr, get_or-set_ne, ℕ_discrete, replicate, get_or-replicate,
}
use web_q_final.Prelude.Int.{ℤ, pos, eqb_ℤ, eqb_ℤ_iff, int32, int32-eq, ◌+ℤ◌, pos_part}
use web_q_final.Cells.{change_values}
use web_q_final.Floats.{FloatOps}
use web_q_final.Net.{Net}
use web_q_final.Controller.{Control, share_out, peers}
use web_q_final.Controller.Inbox.Protocol.{
  Msg, capacity, hardness, heartbeat, positive, negative, change, tg_ack, ack, incoming, IsMsg,
  IsControl, apply, apply_all,
}
use web_q_final.Controller.Inbox.Keep.{apply-IsControl}
use web_q_final.Controller.Election.{Poll, await_votes, in_time}
use web_q_final.Controller.Election.Ballot.{
  ones, how_many, voted, ones-le-length, ones-set, ones-le, IsBallot, voted-append,
}

module _ {F : Type 0} (ops : FloatOps F) (net : Net) where
  -- Messages other than a positive response leave the ballot alone.
  kept :
      (ms : List Msg) (m : Msg) {s t : Control F}
      → IsBallot ms s
      → t.votes ≡ s.votes
      → t.votes_recv ≡ s.votes_recv
      → IsBallot (ms ++ (m ∷ [])) t
  kept ms m {s} {t} b v r = record {
    tallied = r ∙ b.tallied ∙ ap (λ vs. pos (ones vs)) (sym v);
    sincere = λ tg e.
        rw voted-append
          (ground (arith, b.sincere tg (ap (λ vs. get_or vs tg (pos 0)) (sym v) ∙ e)));
  }

  one_more : (k : ℕ) → k ≤ peers → change_values (pos k) (pos 1) ≡ pos (suc k)
  one_more k h =
      unfold change_values ◌+ℤ◌ in
      (ap int32 {y = pos (suc k)} (ground arith) ∙ int32-eq (pos (suc k)) (omega arith))

  new_vote :
      (ms : List Msg) (tg : ℕ) (s : Control F)
      → tg < peers
      → length s.votes ≡ peers
      → get_or s.votes tg (pos 0) ≡ pos 0
      → IsBallot ms s
      → IsBallot (ms ++ (positive tg ∷ [])) (record s {
        votes_recv = change_values s.votes_recv (pos 1);
        votes = set s.votes tg (pos 1);
      })
  new_vote ms tg s h size free b = record {
    tallied =
        rw (b.tallied, ones-set s.votes tg (omega arith) free)
          (one_more (ones s.votes) (omega (arith, ones-le-length s.votes)));
    sincere = λ t e. rw voted-append (elim (ℕ_discrete t tg) [
      | yes same ↦ ground arith
      | no other ↦ ground (
        arith,
        b.sincere t (sym (get_or-set_ne s.votes tg t (pos 1) (pos 0) (λ q. other (sym q))) ∙ e),
      )
    ]);
  }

  apply-IsBallot :
      (ms : List Msg) (m : Msg) (s : Control F)
      → IsMsg m
      → IsControl s
      → IsBallot ms s
      → IsBallot (ms ++ (m ∷ [])) (apply ops net m s)
  unfolding apply
  apply-IsBallot ms (capacity z) s h c b = kept ms _ b refl refl
  apply-IsBallot ms (hardness x y) s h c b = kept ms _ b refl refl
  apply-IsBallot ms heartbeat s h c b = kept ms _ b (ground arith) (ground arith)
  apply-IsBallot ms (positive tg) s h c b = elim (Bool-cases (eqb_ℤ s.id s.my_id)) [
    | inl mine ↦ rw mine (kept ms _ b refl refl)
    | inr backup ↦ rw backup (elim (Bool-cases (eqb_ℤ (get_or s.votes tg (pos 0)) (pos 0))) [
      | inl free ↦ rw free (new_vote ms tg s h c.ballots ((eqb_ℤ_iff _ _).0 free) b)
      | inr taken ↦ rw taken (kept ms _ b refl refl)
    ])
  ]
  apply-IsBallot ms (negative tg) s h c b = kept ms _ b refl refl
  apply-IsBallot ms (change n) s h c b = kept ms _ b refl refl
  apply-IsBallot ms (tg_ack tg) s h c b = kept ms _ b (ground arith) (ground arith)
  apply-IsBallot ms (ack n) s h c b = kept ms _ b (ground arith) (ground arith)
  apply-IsBallot ms (incoming tg x) s h c b =
      kept ms _ b (unfold share_out in ground arith) (unfold share_out in ground arith)

  pub apply_all-IsBallot :
      (ms ns : List Msg) (s : Control F)
      → All IsMsg ns
      → IsControl s
      → IsBallot ms s
      → IsBallot (ms ++ ns) (apply_all ops net ns s) × IsControl (apply_all ops net ns s)
  unfolding apply_all
  apply_all-IsBallot ms [] s h c b = (rw append-nil b, c)
  apply_all-IsBallot ms (n ∷ ns) s h c b =
      let rest =
        apply_all-IsBallot (ms ++ (n ∷ [])) ns (apply ops net n s) h.1
          (apply-IsControl ops net n s c) (apply-IsBallot ms n s h.0 c b) in
      (
        subst (λ g. IsBallot g (apply_all ops net ns (apply ops net n s)))
            (append_assoc ms (n ∷ []) ns) rest.0,
        rest.1,
      )

  pub apply_all-IsControl :
      (ns : List Msg) (s : Control F)
      → All IsMsg ns
      → IsControl s
      → IsControl (apply_all ops net ns s)
  unfolding apply_all
  apply_all-IsControl [] s h c = c
  apply_all-IsControl (n ∷ ns) s h c =
      apply_all-IsControl ns (apply ops net n s) h.1 (apply-IsControl ops net n s c)

  -- The clock, and the messages that were read since the last poll.
  abbrev pub polls_of : List (ℤ × List Msg) → List (Poll F)
  polls_of [] = []
  polls_of ((t, ms) ∷ ps) = record { now = t; meanwhile = apply_all ops net ms } ∷ polls_of ps

  abbrev pub heard : List (ℤ × List Msg) → List Msg
  heard [] = []
  heard ((t, ms) ∷ ps) = ms ++ heard ps

  abbrev pub IsHeard : List (ℤ × List Msg) → Type 0
  IsHeard [] = Unit {0}
  IsHeard ((t, ms) ∷ ps) = All IsMsg ms × IsHeard ps

  more_heard : (ms ns : List Msg) {s : Control F} → IsBallot ms s → IsBallot (ms ++ ns) s
  more_heard ms ns b = record {
    tallied = b.tallied;
    sincere = λ tg e. rw voted-append (ground (arith, b.sincere tg e));
  }

  relabel :
      {ms ns : List Msg} {s t : Control F}
      → ms ≡ ns
      → t.votes ≡ s.votes
      → t.votes_recv ≡ s.votes_recv
      → IsBallot ms s
      → IsBallot ns t
  relabel e v r b = record {
    tallied = r ∙ b.tallied ∙ ap (λ vs. pos (ones vs)) (sym v);
    sincere = λ tg h.
        subst (λ l. voted tg l ≡ true) e
          (b.sincere tg (ap (λ vs. get_or vs tg (pos 0)) (sym v) ∙ h));
  }

  await_votes-IsBallot :
      (ms : List Msg) (ps : List (ℤ × List Msg)) (s : Control F)
      → IsHeard ps
      → IsControl s
      → IsBallot ms s
      → IsBallot (ms ++ heard ps) (await_votes ops net (polls_of ps) s).1
  unfolding await_votes
  await_votes-IsBallot ms [] s h c b = more_heard ms [] b
  await_votes-IsBallot ms ((t, ns) ∷ ps) s h c b =
      let s' = apply_all ops net ns s in
      let (b', c') = apply_all-IsBallot ms ns s h.0 c b in
      elim (Bool-cases (in_time ops net (pos 3) t s')) [
        | inl waiting ↦ elim (Bool-cases (eqb_ℤ s'.time_out (pos 2))) [
          | inl off ↦
              rw (waiting, off)
                (relabel (append_assoc ms ns (heard ps)) refl refl
                  (more_heard (ms ++ ns) (heard ps) b'))
          | inr on ↦
              rw (waiting, on)
                (relabel (append_assoc ms ns (heard ps)) refl refl
                  (await_votes-IsBallot (ms ++ ns) ps s' h.1 c' b'))
        ]
        | inr over ↦ rw over (
            relabel (append_assoc ms ns (heard ps)) refl refl (more_heard (ms ++ ns) (heard ps) b'))
      ]

  length-votes :
      (ps : List (ℤ × List Msg)) (s : Control F)
      → IsHeard ps
      → IsControl s
      → length (await_votes ops net (polls_of ps) s).1.votes ≡ peers
  unfolding await_votes
  length-votes [] s h c = c.ballots
  length-votes ((t, ns) ∷ ps) s h c =
      let s' = apply_all ops net ns s in
      let c' = (apply_all-IsControl ns s h.0 c) in
      elim (Bool-cases (in_time ops net (pos 3) t s')) [
        | inl waiting ↦ elim (Bool-cases (eqb_ℤ s'.time_out (pos 2))) [
          | inl off ↦ rw (waiting, off) c'.ballots
          | inr on ↦ rw (waiting, on) (length-votes ps s' h.1 c')
        ]
        | inr over ↦ rw over c'.ballots
      ]

  -- From a state with no votes, no vote is counted that is not among the messages.
  pub await_votes-sincere :
      (ps : List (ℤ × List Msg)) (s : Control F)
      → IsHeard ps
      → IsControl s
      → s.votes ≡ replicate peers (pos 0)
      → s.votes_recv ≡ pos 0
      → pos_part (await_votes ops net (polls_of ps) s).1.votes_recv
        ≤ how_many (λ tg. voted tg (heard ps)) peers 0
  await_votes-sincere ps s h c empty none =
      let final = await_votes-IsBallot [] ps s h c (record {
        tallied = none ∙ ap (λ vs. pos (ones vs)) (sym empty);
        sincere = λ tg e. absurd (no_vote tg (ap (λ vs. get_or vs tg (pos 0)) (sym empty) ∙ e));
      }) in
      omega (
        arith,
        ap pos_part final.tallied,
        bound (await_votes ops net (polls_of ps) s).1.votes (length-votes ps s h c) final.sincere,
      )
    where
      no_vote : (tg : ℕ) → get_or (replicate peers (pos 0)) tg (pos 0) ≡ pos 1 → ⊥
      no_vote tg e = cc (get_or-replicate peers tg (pos 0))

      bound :
          (vs : List ℤ)
          → length vs ≡ peers
          → ((tg : ℕ) → get_or vs tg (pos 0) ≡ pos 1 → voted tg (heard ps) ≡ true)
          → ones vs ≤ how_many (λ tg. voted tg (heard ps)) peers 0
      bound vs size sincere =
          subst (λ k. ones vs ≤ how_many (λ tg. voted tg (heard ps)) k 0) size
            (ones-le (λ tg. voted tg (heard ps)) vs 0
              (λ j e. ap (λ k. voted k (heard ps)) {x = 0 + j} {y = j} (omega arith) ∙ sincere j e))
