-- ===== src/TokenGen/Watch/Race.antt =====
-- The thread of `timer_fn` of TokenGen/src/proxy1.c between the statements of `readFromClient` for a `t`:
-- both write `id`, and the handler reads it again.
use web_q_final.Prelude.{
  ℕ, zero, suc, ◌<◌, ◌≡◌, ◌∙◌, refl, ap, sym, arith, List, [], ◌∷◌, ◌++◌, true, false, Option, none,
  some, get_elem?-eq-get_or,
}
use web_q_final.Prelude.Int.{ℤ, pos, ltb_ℤ, ◌-ℤ◌}
use web_q_final.Cells.{set_value, change_time}
use web_q_final.Machine.{M, done, fault, pure, modify, get, nth, ◌>>=◌, ◌>>◌}
use web_q_final.Net.{Net, IsUp, started, queue_sender}
use web_q_final.Wire.{Conn, read_int}
use web_q_final.TokenGen.Link.{Link, write_id, send_response, on_controller}
use web_q_final.TokenGen.Link.Protocol.{IsLink, controller, apply}
use web_q_final.TokenGen.Link.Decode.{send_response-up, write_id-up}
use web_q_final.TokenGen.Watch.{polled, timeout}

abbrev pub sequence : List (M Link (Unit {0})) → M Link (Unit {0})
sequence [] = pure tt
sequence (m ∷ ms) = m >> sequence ms

-- The first `k` steps, then one of another thread, then the rest.
abbrev pub interrupted : ℕ → M Link (Unit {0}) → List (M Link (Unit {0})) → List (M Link (Unit {0}))
interrupted zero other ms = other ∷ ms
interrupted (suc k) other [] = other ∷ []
interrupted (suc k) other (m ∷ ms) = m ∷ interrupted k other ms

module _ (net : Net) where
  abbrev pub acknowledge : M Link (Unit {0})
  acknowledge = do l ← get; addr ← nth l.ip_controller l.id; send_response net addr b'y'

  -- The statements of the branch for `t`, each of which is whole to the other threads, after the read.
  unfoldable pub controller_steps : Option ℤ → List (M Link (Unit {0}))
  controller_steps none =
      modify (λ l. record l { flag = set_value l.flag (pos 1) })
      ∷ acknowledge
      ∷ modify (λ l. record l { trace = l.trace ++ (started (queue_sender (pos 0)) ∷ []) })
      ∷ []
  controller_steps (some x) =
      modify (λ l. record l { id = set_value l.id x })
      ∷ write_id net
      ∷ modify (λ l. record l { start_time = change_time l.start_time net.now })
      ∷ modify (λ l. record l { flag = set_value l.flag (pos 1) })
      ∷ acknowledge
      ∷ modify (λ l. record l { trace = l.trace ++ (started (queue_sender (pos 0)) ∷ []) })
      ∷ []

  -- One after the other they are the handler.
  steps-on_controller :
      (c : Conn) (l : Link)
      → (sequence (controller_steps (read_int c).0) >> pure (read_int c).1) l
        ≡ on_controller net c l
  unfolding controller_steps on_controller
  steps-on_controller c l = ground arith

  -- A test of `timer_fn`: what `time(NULL)` returns then, and at the next start.
  abbrev pub watch : ℤ → ℤ → M Link (Unit {0})
  watch now restart = modify (polled (record { meanwhile = λ l. l; now = now; restart = restart }))

  steps-apply :
      (n : ℕ) (l : Link)
      → IsUp net
      → IsLink l
      → n < 2
      → sequence (controller_steps (some (pos n))) l ≡ done (tt, apply net 0 (controller n) l)
  unfolding controller_steps apply
  steps-apply n l up v h =
      rw (write_id-up net up, ◌>>=◌)
        (rw (get_elem?-eq-get_or l.ip_controller n [] (omega (arith, v.pair)), ◌>>=◌)
          (rw (send_response-up net up, ◌>>=◌) refl))

  -- With every system call successful, for a `t` with the number 0 or 1, where the last message came at
  -- least three seconds before `timer_fn` reads the clock, and the handler reads it less than three
  -- seconds before. The handler runs its statements to their end, and leaves what the message says. But
  -- if the test of `timer_fn` falls between the statement that stores the number in `id` and the one
  -- that restarts the clock (before `writeID` or after it), the handler reads the address of controller
  -- -1, outside the array. If it comes after that statement, and before the number is read again, the
  -- handler does just what it does without it.
  pub controller_steps-race :
      (n : ℕ) (c c' : Conn) (l : Link) (now restart : ℤ)
      → IsUp net
      → IsLink l
      → n < 2
      → read_int c ≡ (some (pos n), c')
      → ltb_ℤ (now -ℤ l.start_time) (pos 3) ≡ false
      → ltb_ℤ (now -ℤ net.now) (pos 3) ≡ true
      → let steps = controller_steps (some (pos n)) in
        (on_controller net c l ≡ (sequence steps >> pure c') l)
        × (sequence steps l ≡ done (tt, apply net 0 (controller n) l))
        × (sequence (interrupted 1 (watch now restart) steps) l ≡ fault)
        × (sequence (interrupted 2 (watch now restart) steps) l ≡ fault)
        × (sequence (interrupted 3 (watch now restart) steps) l ≡ sequence steps l)
        × (sequence (interrupted 4 (watch now restart) steps) l ≡ sequence steps l)
  unfolding controller_steps polled timeout
  controller_steps-race n c c' l now restart up v h e late calm = (
    sym (steps-on_controller c l)
        ∙ ap (λ (r : Option ℤ × Conn). (sequence (controller_steps r.0) >> pure {S = Link} r.1) l)
            e,
    steps-apply n l up v h,
    rw (late, ◌>>=◌) (rw (write_id-up net up, ◌>>=◌) refl),
    rw (write_id-up net up, ◌>>=◌) (rw late refl),
    rw (write_id-up net up, ◌>>=◌) (rw calm refl),
    rw (write_id-up net up, ◌>>=◌) (rw calm refl),
  )
