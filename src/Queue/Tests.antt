-- ===== src/Queue/Tests.antt =====
-- Runs of the queue, and its theorems at concrete inputs.
use web_q_final.Prelude.{◌≡◌, refl, List, [], ◌∷◌, arith}
use web_q_final.Prelude.Int.{ℤ, pos, ◌+ℤ◌, ◌-ℤ◌, int32, int64}
use web_q_final.Queue.{Node, fresh, push_back, pending_requests}
use web_q_final.Queue.Valid.{IsValid}
use web_q_final.Queue.Window.{push_all, push_all-window, push_all-pending}

abbrev second : ℤ → ℤ → Node
second i o = record { in_count = i; out_count = o; fail_count = pos 0 }

abbrev history : List Node
history = second (pos 5) (pos 1) ∷ second (pos 7) (pos 2) ∷ second (pos 9) (pos 3) ∷ []

push_all-history : (push_all (fresh (pos 2)) history).tot_in ≡ pos 16
unfolding push_all push_back int32 ◌+ℤ◌ int64 ◌-ℤ◌
push_all-history = refl

push_all-window_example :
    ((push_all (fresh (pos 2)) history).nodes
      ≡ second (pos 7) (pos 2) ∷ second (pos 9) (pos 3) ∷ [])
    × IsValid (push_all (fresh (pos 2)) history)
push_all-window_example = push_all-window (omega arith) (omega arith) history

push_all-pending_example : pending_requests (push_all (fresh (pos 2)) history) ≡ pos 11
unfolding ◌+ℤ◌ ◌-ℤ◌
push_all-pending_example =
    push_all-pending (omega arith) (omega arith) history (omega arith) (omega arith)
