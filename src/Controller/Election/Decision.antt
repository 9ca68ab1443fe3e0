-- ===== src/Controller/Election/Decision.antt =====
-- How `timeout` of Controller/src/proxy1.c begins and ends.
use mathlib.Core.List.{append_assoc, append-nil}
use mathlib.Core.Path.{ap₂}
use web_q_final.Prelude.{
  ℕ, zero, suc, ◌+◌, ◌<◌, ◌≤◌, ◌≡◌, ◌∙◌, ap, refl, arith, List, [], ◌∷◌, ◌++◌, false, set, get_or,
  length, length-set, inl, inr, replicate, dec_lt, ℕ_discrete, ◌⊎◌, get_or-set_ne,
  get_elem?-eq-get_or,
}
use web_q_final.Prelude.Int.{ℤ, pos, negsuc, leb_ℤ, pos_part}
use web_q_final.Floats.{FloatOps}
use web_q_final.Machine.{done, ◌>>=◌}
use web_q_final.Net.{Net, Effect, started, x_sender}
use web_q_final.Controller.{Control, peers, share_out}
use web_q_final.Controller.Duty.{for_proxies}
use web_q_final.Controller.Inbox.Protocol.{
  Msg, capacity, heartbeat, positive, tg_ack, ack, incoming, IsControl, apply, apply_all,
}
use web_q_final.Controller.Election.{
  Poll, Wait, expired, cancelled, pending, begin_election, clear_vote, ask, await_votes, decide,
  timeout, close,
}
use web_q_final.Controller.Election.Votes.{polls_of, heard, IsHeard, await_votes-sincere}
use web_q_final.Controller.Election.Ballot.{how_many, voted}

-- The votes with `k` entries from `i` on put to 0.
abbrev cleared : ℕ → ℕ → List ℤ → List ℤ
cleared zero i vs = vs
cleared (suc k) i vs = cleared k (i + 1) (set vs i (pos 0))

-- The threads that ask `k` TokenGens from `i` on.
abbrev pub asked : ℕ → ℕ → List (List ℕ) → List Effect
asked zero i ips = []
asked (suc k) i ips = started (x_sender (get_or ips i [])) ∷ asked k (i + 1) ips

get_or-cleared :
    (k i j : ℕ) (vs : List ℤ)
    → (j < i + k → get_or vs j (pos 0) ≡ pos 0 ⊎ i ≤ j)
    → (i + k ≤ j → get_or vs j (pos 0) ≡ pos 0)
    → get_or (cleared k i vs) j (pos 0) ≡ pos 0
get_or-cleared zero i j vs f g = elim (dec_lt j (i + 0)) [
  | yes below ↦ elim (f below) [ inl e ↦ e | inr h ↦ absurd (omega arith) ]
  | no above ↦ g (omega arith)
]
get_or-cleared (suc k) i j vs f g = get_or-cleared k (i + 1) j (set vs i (pos 0)) fresh older
  where
    fresh : j < i + 1 + k → get_or (set vs i (pos 0)) j (pos 0) ≡ pos 0 ⊎ i + 1 ≤ j
    fresh h = elim (ℕ_discrete i j) [
      | yes same ↦ inl (rw same (zero_there vs j))
      | no other ↦ elim (f (omega arith)) [
        | inl e ↦ inl (get_or-set_ne vs i j (pos 0) (pos 0) other ∙ e)
        | inr h' ↦ inr (omega arith)
      ]
    ]
      where
        zero_there : (us : List ℤ) (m : ℕ) → get_or (set us m (pos 0)) m (pos 0) ≡ pos 0
        zero_there [] m = refl
        zero_there (u ∷ us) zero = refl
        zero_there (u ∷ us) (suc m) = zero_there us m

    older : i + 1 + k ≤ j → get_or (set vs i (pos 0)) j (pos 0) ≡ pos 0
    older h = get_or-set_ne vs i j (pos 0) (pos 0) (λ e. absurd (omega arith)) ∙ g (omega arith)

all_zero :
    (vs : List ℤ) → ((j : ℕ) → get_or vs j (pos 0) ≡ pos 0) → vs ≡ replicate (length vs) (pos 0)
all_zero [] h = refl
all_zero (v ∷ vs) h = ap₂ ◌∷◌ (h 0) (all_zero vs (λ j. h (suc j)))

length-cleared : (k i : ℕ) (vs : List ℤ) → length (cleared k i vs) ≡ length vs
length-cleared zero i vs = refl
length-cleared (suc k) i vs = length-cleared k (i + 1) (set vs i (pos 0)) ∙ length-set vs i (pos 0)

module _ {F : Type 0} (ops : FloatOps F) (net : Net) where
  clear_all :
      (k i : ℕ) (s : Control F)
      → k + i ≤ length s.votes
      → for_proxies k i (clear_vote ops net) s ≡ done (tt, record s { votes = cleared k i s.votes })
  unfolding for_proxies
  clear_all zero i s h = refl
  clear_all (suc k) i s h =
      rw (get_elem?-eq-get_or s.votes i (pos 0) (omega arith), ◌>>=◌)
        (clear_all k (i + 1) (record s { votes = set s.votes i (pos 0) })
          (omega (arith, length-set s.votes i (pos 0))))

  ask_all :
      (k i : ℕ) (s : Control F)
      → k + i ≤ length s.ip_array
      → for_proxies k i (ask ops net) s
        ≡ done (tt, record s { trace = s.trace ++ asked k i s.ip_array })
  unfolding for_proxies
  ask_all zero i s h = rw append-nil refl
  ask_all (suc k) i s h =
      rw (get_elem?-eq-get_or s.ip_array i [] (omega arith), ◌>>=◌)
        (ask_all k (i + 1)
            (record s { trace = s.trace ++ (started (x_sender (get_or s.ip_array i [])) ∷ []) })
            (omega arith)
          ∙ ap (λ (t : List Effect). done (tt, record s { trace = t })) (append_assoc s.trace _ _))

  -- The state in which a backup waits for votes.
  abbrev pub begun : Control F → Control F
  begun s = record s {
    time_out = pos 1;
    id = negsuc 0;
    votes_recv = pos 0;
    votes = cleared (pos_part s.no_of_proxy) 0 s.votes;
    trace = s.trace ++ asked (pos_part s.no_of_proxy) 0 s.ip_array;
    start_time = net.now;
  }

  pub begin_election-begun :
      (s : Control F)
      → IsControl s
      → pos_part s.no_of_proxy ≤ length s.ip_array
      → begin_election ops net s ≡ done (tt, begun s)
  unfolding begin_election
  begin_election-begun s c h =
      rw
        (
          clear_all (pos_part s.no_of_proxy) 0
              (record s { time_out = pos 1; id = negsuc 0; votes_recv = pos 0 })
              (omega (arith, c.few, c.ballots)),
          ◌>>=◌,
        )
        (rw
          (
            ask_all (pos_part s.no_of_proxy) 0
                (record s {
                  time_out = pos 1;
                  id = negsuc 0;
                  votes_recv = pos 0;
                  votes = cleared (pos_part s.no_of_proxy) 0 s.votes;
                })
                (omega arith),
            ◌>>=◌,
          )
          refl)

  close-minority :
      (rounds : List (Control F → Control F)) (r : Wait × Control F)
      → leb_ℤ r.1.majority r.1.votes_recv ≡ false
      → close ops net rounds r.0 r.1 ≡ done r
  unfolding decide
  close-minority rounds (expired, s) e = rw (e, ◌>>=◌) refl
  close-minority rounds (cancelled, s) e = refl
  close-minority rounds (pending, s) e = refl

  majority-apply : (m : Msg) (s : Control F) → (apply ops net m s).majority ≡ s.majority
  unfolding apply share_out
  majority-apply (capacity z) s = refl
  majority-apply heartbeat s = ground arith
  majority-apply (positive tg) s = ground arith
  majority-apply (tg_ack tg) s = ground arith
  majority-apply (ack n) s = ground arith
  majority-apply (incoming tg x) s = ground arith
  majority-apply _ s = refl

  majority-apply_all :
      (ms : List Msg) (s : Control F) → (apply_all ops net ms s).majority ≡ s.majority
  unfolding apply_all
  majority-apply_all [] s = refl
  majority-apply_all (m ∷ ms) s = majority-apply_all ms (apply ops net m s) ∙ majority-apply m s

  majority-await :
      (ps : List (ℤ × List Msg)) (s : Control F)
      → (await_votes ops net (polls_of ops net ps) s).1.majority ≡ s.majority
  unfolding await_votes
  majority-await [] s = refl
  majority-await ((t, ms) ∷ ps) s =
      ground (arith, majority-await ps (apply_all ops net ms s), majority-apply_all ms s)

  pub begun-IsControl : (s : Control F) → IsControl s → IsControl (begun s)
  begun-IsControl s c = record {
    mine = c.mine;
    unsigned = c.unsigned;
    few = c.few;
    hard = c.hard;
    socs = c.socs;
    ballots = length-cleared (pos_part s.no_of_proxy) 0 s.votes ∙ c.ballots;
    flags = c.flags;
    rates = c.rates;
    pair = c.pair;
  }

  -- No vote is stored when the wait begins.
  pub begun-no_votes :
      (s : Control F)
      → IsControl s
      → ((j : ℕ) → pos_part s.no_of_proxy ≤ j → get_or s.votes j (pos 0) ≡ pos 0)
      → (begun s).votes ≡ replicate peers (pos 0)
  begun-no_votes s c above =
      all_zero _ (λ j.
        get_or-cleared (pos_part s.no_of_proxy) 0 j s.votes (λ b. inr (omega arith))
          (λ b. above j (omega arith)))
      ∙ ap (λ k. replicate k (pos 0)) (begun-IsControl s c).ballots

  -- Without enough votes at the end of the wait, that is how `timeout` ends.
  pub timeout-outvoted :
      (polls : List (Poll F)) (rounds : List (Control F → Control F)) (s : Control F)
      → IsControl s
      → pos_part s.no_of_proxy ≤ length s.ip_array
      → leb_ℤ
          (await_votes ops net polls (begun s)).1.majority
          (await_votes ops net polls (begun s)).1.votes_recv
        ≡ false
      → timeout ops net polls rounds s ≡ done (await_votes ops net polls (begun s))
  unfolding timeout
  timeout-outvoted polls rounds s c enough e =
      rw (begin_election-begun s c enough, ◌>>=◌)
        (close-minority rounds (await_votes ops net polls (begun s)) e)

  pub outvoted :
      (ps : List (ℤ × List Msg)) (s : Control F)
      → IsHeard ops net ps
      → IsControl s
      → ((j : ℕ) → pos_part s.no_of_proxy ≤ j → get_or s.votes j (pos 0) ≡ pos 0)
      → how_many (λ tg. voted tg (heard ops net ps)) peers 0 < pos_part s.majority
      → leb_ℤ
          (await_votes ops net (polls_of ops net ps) (begun s)).1.majority
          (await_votes ops net (polls_of ops net ps) (begun s)).1.votes_recv
        ≡ false
  outvoted ps s h c above few = rw (majority-await ps (begun s)) (
      minority s.majority _ (
        omega (
          arith,
          await_votes-sincere ops net ps (begun s) h shaped (begun-no_votes s c above) refl,
        )))
    where
      shaped : IsControl (begun s)
      shaped = begun-IsControl s c

      minority : (m v : ℤ) → pos_part v < pos_part m → leb_ℤ m v ≡ false
      minority m v b = ground arith
