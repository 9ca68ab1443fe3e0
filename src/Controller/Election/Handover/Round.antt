-- ===== src/Controller/Election/Handover/Round.antt =====
-- One round of the loop of `switch_controller` of Controller/src/proxy1.c.
use mathlib.Core.List.{append_assoc, append-nil}
use web_q_final.Prelude.{
  not, ℕ, zero, suc, ◌+◌, ◌≤◌, ◌≡◌, ◌∙◌, ap, refl, arith, List, [], ◌∷◌, ◌++◌, true, ◌==◌,
  if◌then◌else◌, set, get_or, length, Bool-cases, inl, inr, get_elem?-eq-get_or,
}
use web_q_final.Controller.Election.Handover.{IsLeader, flagged}
use web_q_final.Controller.Election.Handover.Every.{every}
use web_q_final.Prelude.Int.{ℤ, pos, eqb_ℤ}
use web_q_final.Floats.{FloatOps}
use web_q_final.Machine.{done, pure, ◌>>=◌}
use web_q_final.Net.{Net, Effect, sent, IsUp}
use web_q_final.Wire.{bytes_of_int}
use web_q_final.Controller.{Control}
use web_q_final.Controller.Duty.{for_proxies, tell_again, pending_flags, resend_rounds}
use web_q_final.Controller.Inbox.Decode.{send_id-up}

-- The message `t` to a TokenGen whose flag is set, and those to `k` TokenGens from `i` on.
abbrev again : ℕ → List ℤ → List (List ℕ) → ℤ → ℤ → List Effect
again i fs ips port me =
    if eqb_ℤ (get_or fs i (pos 0)) (pos 1)
    then sent (get_or ips i []) port (b't' ∷ bytes_of_int me) ∷ []
    else []

abbrev told_again : ℕ → ℕ → List ℤ → List (List ℕ) → ℤ → ℤ → List Effect
told_again zero i fs ips port me = []
told_again (suc k) i fs ips port me = again i fs ips port me ++ told_again k (i + 1) fs ips port me

module _ {F : Type 0} where
  abbrev pub all_told_again : ℕ → Control F → Control F
  all_told_again k s = record s {
    trace = s.trace ++ told_again k 0 s.flag_tg s.ip_array s.port s.my_id;
  }

  pub told-IsLeader : (k : ℕ) (s : Control F) → IsLeader k s → IsLeader k (all_told_again k s)
  told-IsLeader k s v = record {
    shape = record {
      mine = v.shape.mine;
      unsigned = v.shape.unsigned;
      few = v.shape.few;
      hard = v.shape.hard;
      socs = v.shape.socs;
      ballots = v.shape.ballots;
      flags = v.shape.flags;
      rates = v.shape.rates;
      pair = v.shape.pair;
    };
    leads = v.leads;
    tokens = v.tokens;
    known = v.known;
  }

module _ {F : Type 0} (ops : FloatOps F) (net : Net) where
  -- None of the first `k` flags is set if none is counted.
  pub pending_flags-every :
      (k : ℕ) (fs : List ℤ)
      → (pending_flags ops net k fs == 0) ≡ every k (λ tg. not (flagged fs tg))
  pending_flags-every zero fs = refl
  pending_flags-every (suc k) [] = pending_flags-every_nil k
    where
      pending_flags-every_nil : (k : ℕ) → true ≡ every k (λ tg. not (flagged [] tg))
      pending_flags-every_nil zero = refl
      pending_flags-every_nil (suc k) = pending_flags-every_nil k
  pending_flags-every (suc k) (f ∷ fs) = elim (Bool-cases (eqb_ℤ f (pos 1))) [
    | inl set ↦ rw set (ground arith)
    | inr clear ↦ rw clear (pending_flags-every k fs)
  ]

  module _ (up : IsUp net) where
    tell_one_again :
        (i : ℕ) (s : Control F)
        → suc i ≤ length s.flag_tg
        → suc i ≤ length s.ip_array
        → tell_again ops net i s
          ≡ done (tt, record s { trace = s.trace ++ again i s.flag_tg s.ip_array s.port s.my_id })
    tell_one_again i s h a =
        rw (get_elem?-eq-get_or s.flag_tg i (pos 0) h, ◌>>=◌)
          (elim (Bool-cases (eqb_ℤ (get_or s.flag_tg i (pos 0)) (pos 1))) [
            | inl set ↦
                rw (set, get_elem?-eq-get_or s.ip_array i [] a, ◌>>=◌)
                  (send_id-up ops net up (get_or s.ip_array i []) b't' s)
            | inr clear ↦ rw (clear, append-nil) refl
          ])

    tell_all_again :
        (k i : ℕ) (s : Control F)
        → k + i ≤ length s.flag_tg
        → k + i ≤ length s.ip_array
        → for_proxies k i (tell_again ops net) s
          ≡ done (
            tt,
            record s { trace = s.trace ++ told_again k i s.flag_tg s.ip_array s.port s.my_id },
          )
    unfolding for_proxies
    tell_all_again zero i s h a = rw append-nil refl
    tell_all_again (suc k) i s h a =
        rw (tell_one_again i s (omega arith) (omega arith), ◌>>=◌)
          (tell_all_again k (i + 1) _ (omega arith) (omega arith)
            ∙ ap (λ (t : List Effect). done (tt, record s { trace = t }))
                (append_assoc s.trace _ _))

    -- A round tells those again whose flag is set, and ends the loop if there are none.
    pub resend_rounds-round :
        (f : Control F → Control F) (later : List (Control F → Control F)) (k : ℕ)
        (s s' : Control F)
        → f s ≡ s'
        → IsLeader k s'
        → resend_rounds ops net (f ∷ later) s
          ≡ (if pending_flags ops net k s'.flag_tg == 0
                then pure true
                else resend_rounds ops net later)
              (all_told_again k s')
    unfolding resend_rounds
    resend_rounds-round f later k s s' e v =
        rw (e, ◌>>=◌)
          (rw
            (
              v.tokens,
              tell_all_again k 0 s' (omega (arith, v.shape.few, v.tokens, v.shape.flags))
                  (omega (arith, v.known)),
              ◌>>=◌,
            )
            (rw (e, v.tokens) refl))
