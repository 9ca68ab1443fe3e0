-- ===== src/Controller/Election/Count.antt =====
-- The votes of `readFromClient` of Controller/src/proxy1.c while the backup waits and nobody else takes
-- over.
use mathlib.Core.Path.{subst}
use mathlib.Core.List.{append_assoc, append-nil}
use web_q_final.Prelude.{
  ℕ, suc, ◌+◌, ◌<◌, ◌≤◌, ◌≡◌, ◌≢◌, ◌∙◌, ap, sym, refl, arith, List, [], ◌∷◌, ◌++◌, Bool, true,
  false, set, get_or, length, All, inl, inr, ◌⊎◌, get_or-set_ne, get_or-set_self, ℕ_discrete,
  replicate, get_or-replicate,
}
use web_q_final.Prelude.Int.{ℤ, pos}
use web_q_final.Floats.{FloatOps}
use web_q_final.Net.{Net}
use web_q_final.Controller.{Control, share_out, peers}
use web_q_final.Controller.Inbox.Protocol.{
  Msg, capacity, hardness, heartbeat, positive, negative, change, tg_ack, ack, incoming, IsMsg,
  IsControl, apply, apply_all,
}
use web_q_final.Controller.Election.Waiting.{IsCalm, IsWaiting, apply-IsWaiting}
use web_q_final.Controller.Election.Votes.{apply_all-IsBallot}
use web_q_final.Controller.Election.Ballot.{
  ones-le, how_many, voted-append, voted, says_yes, ones, IsBallot,
}

module _ {F : Type 0} where
  -- Votes are 0 or 1, and 1 for each TokenGen that said yes in `ms`.
  pub record IsFair (ms : List Msg) (s : Control F) : Type 0 where
    pub binary : (tg : ℕ) → get_or s.votes tg (pos 0) ≡ pos 0 ⊎ get_or s.votes tg (pos 0) ≡ pos 1
    pub complete : (tg : ℕ) → voted tg ms ≡ true → get_or s.votes tg (pos 0) ≡ pos 1

module _ {F : Type 0} (ops : FloatOps F) (net : Net) where
  same_votes :
      (ms : List Msg) (x : Msg) {s s' : Control F}
      → ((tg : ℕ) → says_yes tg x ≡ false)
      → s'.votes ≡ s.votes
      → IsFair ms s
      → IsFair (ms ++ (x ∷ [])) s'
  same_votes ms x other e v = record {
    binary = λ tg. rw e (v.binary tg);
    complete = λ tg y. rw e (v.complete tg (ground (arith, rw (voted-append) at y, other tg)));
  }

  there : (vs : List ℤ) (i : ℕ) → i < length vs → get_or (set vs i (pos 1)) i (pos 0) ≡ pos 1
  there vs i h = get_or-set_self vs i (pos 1) (pos 0) h

  older :
      (ms : List Msg) (tg u : ℕ)
      → u ≢ tg
      → voted u (ms ++ (positive tg ∷ [])) ≡ true
      → voted u ms ≡ true
  older ms tg u other y = ground (arith, rw (voted-append) at y, other)

  apply-IsFair :
      {t m : ℤ} {k : ℕ} (ms : List Msg) (x : Msg) (s : Control F)
      → IsMsg x
      → IsCalm x
      → IsWaiting t m k s
      → IsFair ms s
      → IsFair (ms ++ (x ∷ [])) (apply ops net x s)
  unfolding apply share_out
  apply-IsFair ms (change n) s b h w v = absurd h
  apply-IsFair ms heartbeat s b h w v = absurd h
  apply-IsFair ms (capacity z) s b h w v = same_votes ms (capacity z) (λ _. refl) refl v
  apply-IsFair ms (hardness p q) s b h w v = same_votes ms (hardness p q) (λ _. refl) refl v
  apply-IsFair ms (negative tg) s b h w v = same_votes ms (negative tg) (λ _. refl) refl v
  apply-IsFair ms (tg_ack tg) s b h w v = same_votes ms (tg_ack tg) (λ _. refl) (rw w.backup refl) v
  apply-IsFair ms (ack n) s b h w v = same_votes ms (ack n) (λ _. refl) (rw w.backup refl) v
  apply-IsFair ms (incoming tg z) s b h w v =
      same_votes ms (incoming tg z) (λ _. refl) (rw w.backup refl) v
  apply-IsFair ms (positive tg) s b h w v = rw w.backup (elim (v.binary tg) [
    | inl free ↦ rw free (record {
      binary = λ u. elim (ℕ_discrete u tg) [
        | yes same ↦ inr (rw same (there s.votes tg (omega (arith, b, w.shape.ballots))))
        | no other ↦
            rw (get_or-set_ne s.votes tg u (pos 1) (pos 0) (λ e. other (sym e))) (v.binary u)
      ];
      complete = λ u y. elim (ℕ_discrete u tg) [
        | yes same ↦ rw same (there s.votes tg (omega (arith, b, w.shape.ballots)))
        | no other ↦
            get_or-set_ne s.votes tg u (pos 1) (pos 0) (λ e. other (sym e))
            ∙ v.complete u (older ms tg u other y)
      ];
    })
    | inr taken ↦ rw taken (record {
      binary = v.binary;
      complete = λ u y. elim (ℕ_discrete u tg) [
        | yes same ↦ rw same taken
        | no other ↦ v.complete u (older ms tg u other y)
      ];
    })
  ])

  apply_all-IsFair :
      {t m : ℤ} {k : ℕ} (ms ns : List Msg) (s : Control F)
      → All IsMsg ns
      → All IsCalm ns
      → IsWaiting t m k s
      → IsFair ms s
      → IsFair (ms ++ ns) (apply_all ops net ns s)
  unfolding apply_all
  apply_all-IsFair ms [] s b h w v = rw append-nil v
  apply_all-IsFair ms (x ∷ ns) s b h w v =
      subst (λ g. IsFair g (apply_all ops net ns (apply ops net x s))) (append_assoc ms (x ∷ []) ns)
        (apply_all-IsFair (ms ++ (x ∷ [])) ns (apply ops net x s) b.1 h.1
          (apply-IsWaiting ops net x s h.0 w) (apply-IsFair ms x s b.0 h.0 w v))

-- Entries that are 1 where the test passes are at least as many as pass it.
how_many-le :
    (p : ℕ → Bool) (vs : List ℤ) (i : ℕ)
    → ((j : ℕ) → p (i + j) ≡ true → get_or vs j (pos 0) ≡ pos 1)
    → how_many p (length vs) i ≤ ones vs
how_many-le p [] i h = omega arith
how_many-le p (v ∷ vs) i h = ground (
  arith,
  h 0,
  ap p {x = i + 0} {y = i} (omega arith),
  how_many-le p vs (i + 1) (λ j e. h (suc j) (ap p (omega arith) ∙ e)),
)

module _ {F : Type 0} (ops : FloatOps F) (net : Net) where
  -- From no votes, `votesRecv` comes to the number of the TokenGens that said yes.
  pub apply_all-exact :
      {t m : ℤ} {k : ℕ} (ms : List Msg) (s : Control F)
      → All IsMsg ms
      → All IsCalm ms
      → IsWaiting t m k s
      → s.votes ≡ replicate peers (pos 0)
      → s.votes_recv ≡ pos 0
      → (apply_all ops net ms s).votes_recv ≡ pos (how_many (λ tg. voted tg ms) peers 0)
  apply_all-exact ms s h q w empty none =
      tally.0.tallied
      ∙ ap pos (exact (apply_all ops net ms s).votes tally.1.ballots tally.0.sincere fair.complete)
    where
      no_vote : (tg : ℕ) → get_or s.votes tg (pos 0) ≡ pos 0
      no_vote tg = rw empty (get_or-replicate peers tg (pos 0))

      tally : IsBallot ms (apply_all ops net ms s) × IsControl (apply_all ops net ms s)
      tally = apply_all-IsBallot ops net [] ms s h w.shape (record {
        tallied = none ∙ ap (λ vs. pos (ones vs)) (sym empty);
        sincere = λ tg e. absurd (ground (arith, no_vote tg, e));
      })

      fair : IsFair ms (apply_all ops net ms s)
      fair =
          apply_all-IsFair ops net [] ms s h q w
            (record { binary = λ tg. inl (no_vote tg); complete = λ tg e. ground (arith, e) })

      exact :
          (vs : List ℤ)
          → length vs ≡ peers
          → ((tg : ℕ) → get_or vs tg (pos 0) ≡ pos 1 → voted tg ms ≡ true)
          → ((tg : ℕ) → voted tg ms ≡ true → get_or vs tg (pos 0) ≡ pos 1)
          → ones vs ≡ how_many (λ tg. voted tg ms) peers 0
      exact vs size sincere complete = omega (
        arith,
        subst (λ k. ones vs ≤ how_many (λ tg. voted tg ms) k 0) size
            (ones-le (λ tg. voted tg ms) vs 0
              (λ j e. ap (λ k. voted k ms) {x = 0 + j} {y = j} (omega arith) ∙ sincere j e)),
        subst (λ k. how_many (λ tg. voted tg ms) k 0 ≤ ones vs) size
            (how_many-le (λ tg. voted tg ms) vs 0
              (λ j e. complete j (ap (λ k. voted k ms) {x = j} {y = 0 + j} (omega arith) ∙ e))),
      )
