-- ===== src/TokenGen/Watch.antt =====
-- TokenGen/src/proxy1.c: the thread that gives up on a silent controller.
pub mod Recovery
pub mod Race
mod Tests
use web_q_final.Prelude.{List, [], ◌∷◌, if◌then◌else◌}
use web_q_final.Prelude.Int.{ℤ, pos, ◌-ℤ◌, ltb_ℤ}
use web_q_final.Cells.{set_value, change_time}
use web_q_final.TokenGen.Link.{Link, no_id}

-- The controller's number is kept in `prevId`.
unfoldable pub timeout : Link → Link
timeout l = record l { prev_id = set_value l.prev_id l.id; id = set_value l.id no_id }

-- One test of the inner loop: what the other threads have done since the last one, what `time(NULL)`
-- returns, and what it returns when the outer loop starts again.
pub record Poll : Type 0 where
  pub meanwhile : Link → Link
  pub now : ℤ
  pub restart : ℤ

unfoldable pub polled : Poll → Link → Link
unfolding timeout
polled p l =
    let l' = p.meanwhile l in
    if ltb_ℤ (p.now -ℤ l'.start_time) (pos 3)
    then l'
    else (let out = timeout l' in record out { start_time = change_time out.start_time p.restart })

abbrev poll_all : List Poll → Link → Link
poll_all [] l = l
poll_all (p ∷ ps) l = poll_all ps (polled p l)

-- `timer_fn`, whose loops do not end: its state after these tests.
unfoldable pub timer_fn : ℤ → List Poll → Link → Link
unfolding polled
timer_fn start ps l = poll_all ps (record l { start_time = change_time l.start_time start })
