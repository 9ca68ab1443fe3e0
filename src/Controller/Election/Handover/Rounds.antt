-- ===== src/Controller/Election/Handover/Rounds.antt =====
-- The loop of `switch_controller` of Controller/src/proxy1.c, with the acknowledgements that come.

use web_q_final.Controller.Election.Handover.Every.{every, every_cong, every_mono}
use web_q_final.Prelude.{
  zero, suc, ◌+◌, ◌≤◌, ◌∙◌, ◌||◌, sym, not, set, length, length-set, get_or-set_ne, get_or-set_self,
  ℕ_discrete, ℕ, ◌<◌, ◌≡◌, refl, arith, List, [], ◌∷◌, ◌++◌, Bool, true, false, ◌==◌, get_or, All,
  map, Bool-cases, inl, inr,
}
use web_q_final.Controller.Election.Handover.{
  IsLeader, IsQuiet, acked_in, flagged, apply_all-quiet, flagged-apply_all,
}
use web_q_final.Prelude.Int.{ℤ, pos}
use web_q_final.Floats.{FloatOps}
use web_q_final.Machine.{done, ◌>>=◌}
use web_q_final.Net.{Net, IsUp}
use web_q_final.Controller.{Control}
use web_q_final.Controller.Duty.{pending_flags, resend_rounds, switch_controller}
use web_q_final.Controller.Inbox.Protocol.{tell_other, Msg, IsMsg, apply_all}
use web_q_final.Controller.Inbox.Decode.{to_other-up}
use web_q_final.Controller.Election.Heard.{received, received-apply}
use web_q_final.Controller.Election.Takeover.{raised, tell_all, flags_raised, told}
use web_q_final.Controller.Election.Handover.Round.{
  all_told_again, told-IsLeader, pending_flags-every, resend_rounds-round,
}

module _ {F : Type 0} (ops : FloatOps F) (net : Net) (up : IsUp net) where
  -- Each TokenGen whose flag is set acknowledges in these rounds.
  abbrev answered : List (List Msg) → ℕ → Control F → Bool
  answered mss k s = every k (λ tg. not (flagged s.flag_tg tg) || acked_in tg mss)

  -- The loop ends in these rounds if they all do, with this controller in charge.
  abbrev IsOver : List (List Msg) → ℕ → Control F → Type 0
  IsOver mss k s =
      (s' : Control F) × (resend_rounds ops net (map (received ops net) mss) s
        ≡ done (answered mss k s, s'))
      × IsLeader k s'
      × ((pending_flags ops net k s'.flag_tg == 0) ≡ answered mss k s)

  -- The messages of a round are the difference that it makes.
  answered-round :
      (ms : List Msg) (mss : List (List Msg)) (k : ℕ) (s : Control F)
      → All IsMsg ms
      → All IsQuiet ms
      → IsLeader k s
      → answered mss k (apply_all ops net ms s) ≡ answered (ms ∷ mss) k s
  answered-round ms mss k s h q v =
      every_cong k _ _ (λ tg l. ground (arith, flagged-apply_all ops net ms s tg h q v))

  answered-nil :
      (k : ℕ) (s : Control F) → answered [] k s ≡ (pending_flags ops net k s.flag_tg == 0)
  answered-nil k s =
      every_cong k _ _ (λ tg l. ground arith) ∙ sym (pending_flags-every ops net k s.flag_tg)

  round-IsOver :
      (ms : List Msg) (mss : List (List Msg)) (k : ℕ) (s : Control F)
      → All IsMsg ms
      → All IsQuiet ms
      → IsLeader k s
      → ((pending_flags ops net k (apply_all ops net ms s).flag_tg == 0) ≡ false
          → IsOver mss k (all_told_again k (apply_all ops net ms s)))
      → IsOver (ms ∷ mss) k s
  round-IsOver ms mss k s h q v later =
      let s' = apply_all ops net ms s in
      let v' = apply_all-quiet ops net ms s h q v in
      rw
        (
          resend_rounds-round ops net up (received ops net ms) (map (received ops net) mss) k s s'
              (received-apply ops net up ms s h v.shape) v',
          sym (answered-round ms mss k s h q v),
        )
        (elim (Bool-cases (pending_flags ops net k s'.flag_tg == 0)) [
          | inl none ↦
              let all : answered mss k s' ≡ true =
                every_mono k (λ tg. not (flagged s'.flag_tg tg)) _ (λ tg e. ground (arith, e))
                  (sym (pending_flags-every ops net k s'.flag_tg) ∙ none) in
              (all_told_again k s', rw (none, all) refl, told-IsLeader k s' v', none ∙ sym all)
          | inr some ↦ rw some (later some)
        ])

  resend_rounds-IsOver :
      (ms : List Msg) (mss : List (List Msg)) (k : ℕ) (s : Control F)
      → All (All IsMsg) (ms ∷ mss)
      → All (All IsQuiet) (ms ∷ mss)
      → IsLeader k s
      → IsOver (ms ∷ mss) k s
  unfolding resend_rounds
  resend_rounds-IsOver ms [] k s (h, hs) (q, qs) v =
      let s' = apply_all ops net ms s in
      round-IsOver ms [] k s h q v (λ some. (
        all_told_again k s',
        rw (answered-nil k s', some) refl,
        told-IsLeader k s' (apply_all-quiet ops net ms s h q v),
        sym (answered-nil k s'),
      ))
  resend_rounds-IsOver ms (ms' ∷ mss) k s (h, hs) (q, qs) v =
      round-IsOver ms (ms' ∷ mss) k s h q v (λ some.
        resend_rounds-IsOver ms' mss k (all_told_again k (apply_all ops net ms s)) hs qs
          (told-IsLeader k _ (apply_all-quiet ops net ms s h q v)))

  -- Every TokenGen is told, and then the other controller.
  abbrev announced : ℕ → Control F → Control F
  announced k s = tell_other b't' (record s {
    flag = pos 1;
    flag_tg = raised k 0 s.flag_tg;
    trace = s.trace ++ told k 0 s.ip_array s.port s.my_id;
  })

  announced-IsLeader : (k : ℕ) (s : Control F) → IsLeader k s → IsLeader k (announced k s)
  announced-IsLeader k s v = record {
    shape = flags_raised s k (announced k s).trace v.shape;
    leads = v.leads;
    tokens = v.tokens;
    known = v.known;
  }

  raised-below :
      (k i tg : ℕ) (fs : List ℤ) → tg < i → get_or (raised k i fs) tg (pos 0) ≡ get_or fs tg (pos 0)
  raised-below zero i tg fs h = refl
  raised-below (suc k) i tg fs h =
      raised-below k (i + 1) tg (set fs i (pos 1)) (omega arith)
      ∙ get_or-set_ne fs i tg (pos 1) (pos 0) (λ e. absurd (omega arith))

  flagged-raised :
      (k i tg : ℕ) (fs : List ℤ)
      → i ≤ tg
      → tg < k + i
      → k + i ≤ length fs
      → get_or (raised k i fs) tg (pos 0) ≡ pos 1
  flagged-raised zero i tg fs h l n = absurd (omega arith)
  flagged-raised (suc k) i tg fs h l n = elim (ℕ_discrete i tg) [
    | yes same ↦ rw⁻¹ same (
        raised-below k (i + 1) i (set fs i (pos 1)) (omega arith)
        ∙ get_or-set_self fs i (pos 1) (pos 0) (omega arith))
    | no other ↦
        flagged-raised k (i + 1) tg (set fs i (pos 1)) (omega (arith, other)) (omega arith)
          (omega (arith, length-set fs i (pos 1)))
  ]

  -- With every system call successful, at a controller in charge of k TokenGens and in shape, with an
  -- address for each: let `readFromClient` read messages (with numbers in range, and no other takeover
  -- among them) in one or more rounds of the loop of `switch_controller`. The loop ends within these
  -- rounds if each TokenGen acknowledges in them, and still runs after them if one does not; this
  -- controller is still in charge then, and no flag of a TokenGen is set just if each has acknowledged.
  pub switch_controller-ends :
      (ms : List Msg) (mss : List (List Msg)) (k : ℕ) (s : Control F)
      → IsLeader k s
      → All (All IsMsg) (ms ∷ mss)
      → All (All IsQuiet) (ms ∷ mss)
      → (s' : Control F) × (switch_controller ops net (map (received ops net) (ms ∷ mss)) s
          ≡ done (every k (λ tg. acked_in tg (ms ∷ mss)), s'))
        × IsLeader k s'
        × ((pending_flags ops net k s'.flag_tg == 0) ≡ every k (λ tg. acked_in tg (ms ∷ mss)))
  unfolding switch_controller
  switch_controller-ends ms mss k s v h q =
      rw
        (
          v.tokens,
          tell_all ops net up k 0 s (omega (arith, v.shape.few, v.tokens, v.shape.flags))
              (omega (arith, v.known)),
          ◌>>=◌,
        )
        (rw
          (
            to_other-up ops net up b't' _
                (flags_raised s k (s.trace ++ told k 0 s.ip_array s.port s.my_id) v.shape),
            ◌>>=◌,
            sym everyone,
          )
          (resend_rounds-IsOver ms mss k (announced k s) h q (announced-IsLeader k s v)))
    where
      everyone : answered (ms ∷ mss) k (announced k s) ≡ every k (λ tg. acked_in tg (ms ∷ mss))
      everyone = every_cong k _ _ (λ tg l. ground (
        arith,
        flagged-raised k 0 tg s.flag_tg (omega arith) (omega arith)
            (omega (arith, v.shape.few, v.tokens, v.shape.flags)),
      ))
