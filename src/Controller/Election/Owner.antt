-- ===== src/Controller/Election/Owner.antt =====
-- `timeout` of Controller/src/proxy1.c, and the variables of Controller.Owner.
use web_q_final.Prelude.{
  ℕ, zero, suc, ◌+◌, arith, List, [], ◌∷◌, All, Bool-cases, inl, inr, ◌==◌, if◌then◌else◌,
}
use web_q_final.Prelude.Int.{ℤ, pos, negsuc, leb_ℤ, pos_part}
use web_q_final.Floats.{FloatOps}
use web_q_final.Machine.{M, pure}
use web_q_final.Net.{Net, session}
use web_q_final.Controller.{Control}
use web_q_final.Controller.Inbox.{send_id, to_other, write_id}
use web_q_final.Controller.Owner.{IsOwn, Keeps, Keeps-bind, to_other-Keeps, write_id-Keeps}
use web_q_final.Controller.Duty.{
  for_proxies, tell, tell_again, resend_rounds, switch_controller, pending_flags,
}
use web_q_final.Controller.Election.{
  Poll, Wait, expired, cancelled, pending, begin_election, await_votes, decide, close, timeout,
  clear_vote, ask,
}

module _ {F : Type 0} (z : ℤ) where
  Keeps-for_proxies :
      (k i : ℕ) (body : ℕ → M (Control F) (Unit {0}))
      → ((j : ℕ) → Keeps z (body j))
      → Keeps z (for_proxies k i body)
  unfolding for_proxies
  Keeps-for_proxies zero i body h s o = o
  Keeps-for_proxies (suc k) i body h s o =
      Keeps-bind z (body i) (λ _. for_proxies k (i + 1) body) (h i)
        (λ _. Keeps-for_proxies k (i + 1) body h) s o

  module _ (ops : FloatOps F) (net : Net) where
    tell-Keeps : (i : ℕ) → Keeps z (tell ops net i)
    unfolding send_id session
    tell-Keeps i s o = ground arith

    tell_again-Keeps : (i : ℕ) → Keeps z (tell_again ops net i)
    unfolding send_id session
    tell_again-Keeps i s o = ground arith

    -- What the other threads do in the meantime keeps them.
    abbrev pub AreOwn : List (Control F → Control F) → Type 0
    AreOwn fs = All (λ f. (s : Control F) → IsOwn z s → IsOwn z (f s)) fs

    resend_rounds-Keeps :
        (rounds : List (Control F → Control F))
        → AreOwn rounds
        → Keeps z (resend_rounds ops net rounds)
    unfolding resend_rounds
    resend_rounds-Keeps [] h s o = o
    resend_rounds-Keeps (f ∷ rounds) (h, hs) s o =
        Keeps-bind z (for_proxies (pos_part (f s).no_of_proxy) 0 (tell_again ops net)) _
          (Keeps-for_proxies (pos_part (f s).no_of_proxy) 0 (tell_again ops net) tell_again-Keeps)
          (λ _ t ot.
            elim (Bool-cases
              (pending_flags ops net (pos_part (f s).no_of_proxy) (f s).flag_tg == 0)) [
                | inl none_left ↦ rw none_left ot
                | inr some_left ↦ rw some_left (resend_rounds-Keeps rounds hs t ot)
              ])
          (f s) (h s o)

    switch_controller-Keeps :
        (rounds : List (Control F → Control F))
        → AreOwn rounds
        → Keeps z (switch_controller ops net rounds)
    unfolding switch_controller
    switch_controller-Keeps rounds h s o =
        Keeps-bind z (for_proxies (pos_part s.no_of_proxy) 0 (tell ops net)) _
          (Keeps-for_proxies (pos_part s.no_of_proxy) 0 (tell ops net) tell-Keeps)
          (λ _ t ot.
            Keeps-bind z (to_other ops net b't') (λ _. resend_rounds ops net rounds)
              (to_other-Keeps z ops net b't') (λ _. resend_rounds-Keeps rounds h)
              (record t { flag = pos 1 }) ot)
          s o

    clear_vote-Keeps : (i : ℕ) → Keeps z (clear_vote ops net i)
    clear_vote-Keeps i s o = ground arith

    ask-Keeps : (i : ℕ) → Keeps z (ask ops net i)
    ask-Keeps i s o = ground arith

    begin_election-Keeps : Keeps z (begin_election ops net)
    unfolding begin_election
    begin_election-Keeps s o =
        let n = pos_part s.no_of_proxy in
        Keeps-bind z (for_proxies n 0 (clear_vote ops net)) _
          (Keeps-for_proxies n 0 (clear_vote ops net) clear_vote-Keeps)
          (λ _ t ot.
            Keeps-bind z (for_proxies (pos_part t.no_of_proxy) 0 (ask ops net)) _
              (Keeps-for_proxies (pos_part t.no_of_proxy) 0 (ask ops net) ask-Keeps) (λ _ u ou. ou)
              t ot)
          (record s { time_out = pos 1; id = negsuc 0; votes_recv = pos 0 }) o

    await_votes-IsOwn :
        (polls : List (Poll F)) (s : Control F)
        → All (λ p. (t : Control F) → IsOwn z t → IsOwn z (p.meanwhile t)) polls
        → IsOwn z s
        → IsOwn z (await_votes ops net polls s).1
    unfolding await_votes
    await_votes-IsOwn [] s h o = o
    await_votes-IsOwn (p ∷ ps) s (h, hs) o =
        let later = await_votes-IsOwn ps (p.meanwhile s) hs (h s o) in ground (arith, h s o)

    decide-Keeps :
        (rounds : List (Control F → Control F)) → AreOwn rounds → Keeps z (decide ops net rounds)
    unfolding decide
    decide-Keeps rounds h s o = elim (Bool-cases (leb_ℤ s.majority s.votes_recv)) [
      | inl won ↦ rw won (
          Keeps-bind z (write_id ops net) (λ _. switch_controller ops net rounds)
            (write_id-Keeps z ops net) (λ _. switch_controller-Keeps rounds h)
            (record s { id = s.my_id }) o)
      | inr lost ↦ rw lost o
    ]

    close-Keeps :
        (rounds : List (Control F → Control F)) (w : Wait)
        → AreOwn rounds
        → Keeps z (close ops net rounds w)
    close-Keeps rounds expired h s o =
        Keeps-bind z (decide ops net rounds) (λ ended. pure (if ended then expired else pending))
          (decide-Keeps rounds h) (λ _ t ot. ot) s o
    close-Keeps rounds cancelled h s o = o
    close-Keeps rounds pending h s o = o

    -- An election leaves them alone, where the other threads do in the meantime.
    pub timeout-Keeps :
        (polls : List (Poll F)) (rounds : List (Control F → Control F))
        → All (λ p. (t : Control F) → IsOwn z t → IsOwn z (p.meanwhile t)) polls
        → AreOwn rounds
        → Keeps z (timeout ops net polls rounds)
    unfolding timeout
    timeout-Keeps polls rounds hp hr =
        Keeps-bind z (begin_election ops net) _ begin_election-Keeps (λ _ t ot.
          close-Keeps rounds (await_votes ops net polls t).0 hr (await_votes ops net polls t).1
            (await_votes-IsOwn polls t hp ot))
