-- ===== src/TokenGen/Book/Tests.antt =====
-- Runs of the table with LIMIT 3, and its theorems at concrete inputs.
use web_q_final.Prelude.{ℕ, ◌≤◌, ◌<◌, ◌≡◌, refl, arith}
use web_q_final.Prelude.Int.{pos, ◌-ℤ◌, int32}
use web_q_final.TokenGen.Book.{admit, tick, find_slot, has_room}
use web_q_final.TokenGen.Book.Line.{IsBook, first_room, join_at, advance}
use web_q_final.TokenGen.Book.Search.{admit_refines, admit_earliest}
use web_q_final.TokenGen.Book.Tick.{tick_refines}
use web_q_final.Samples.{book, line, book-IsBook}

admit_runs : (admit 3 (pos 2) (pos 1) book).0 ≡ 2
unfolding admit ◌-ℤ◌ int32 find_slot has_room
admit_runs = refl

admit_refines_example :
    ((admit 3 (pos 2) (pos 1) book).0 ≡ 2)
    × IsBook 3 (admit 3 (pos 2) (pos 1) book).1 (join_at 2 line)
unfolding first_room
admit_refines_example = admit_refines book-IsBook 2 (omega arith)

admit_earliest_example :
    let w = (admit 3 (pos 2) (pos 1) book).0 in
    (w ≤ 3) × (w < 3 → line w < 2) × ((j : ℕ) → j < w → 2 ≤ line j)
admit_earliest_example = admit_earliest book-IsBook 2 (omega arith)

tick_refines_example : IsBook 3 (tick 3 book) (advance 3 line)
tick_refines_example = tick_refines book-IsBook
