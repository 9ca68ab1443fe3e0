-- ===== src/TokenGen/Second/Tests.antt =====
-- Two seconds with LIMIT 3, and the theorem about them.
use web_q_final.Prelude.{◌≡◌, refl, List, [], ◌∷◌, ◌++◌, map, Bool, true, false}
use web_q_final.Prelude.Int.{ℤ, pos}
use web_q_final.Queue.{Node, fresh}
use web_q_final.Queue.Window.{push_all}
use web_q_final.TokenGen.Book.Line.{IsBook}
use web_q_final.TokenGen.Second.{Stats, LogLine}
use web_q_final.TokenGen.Second.History.{seconds, advance_by, seconds_refine}
use web_q_final.TokenGen.Second.Log.{timed_function, timed_function-lines}
use web_q_final.Samples.{ops, book, line, book-IsBook}

abbrev stats : Stats ℤ
stats = record {
  queue = fresh (pos 100);
  book = book;
  incoming = pos 0;
  outgoing = pos 0;
  failing = pos 0;
  numbytes = pos 8;
  tot_numbytes = pos 0;
  capacity = pos 720;
  share = pos 2;
  host_incoming_rate = pos 0;
  sum_peer_incoming_rate = pos 0;
  total_waiting_time = pos 0;
  log = [];
}

abbrev history : List Node
history =
    record { in_count = pos 5; out_count = pos 1; fail_count = pos 0 }
    ∷ record { in_count = pos 7; out_count = pos 0; fail_count = pos 1 }
    ∷ []

seconds_refine_example :
    ((seconds ops 3 history stats).queue ≡ push_all (fresh (pos 100)) history)
    × IsBook 3 (seconds ops 3 history stats).book (advance_by ops 3 2 line)
    × ((seconds ops 3 history stats).incoming ≡ pos 0)
    × ((seconds ops 3 history stats).outgoing ≡ pos 0)
seconds_refine_example = seconds_refine ops 3 history stats line book-IsBook refl refl

-- The log cannot be opened at first.
abbrev rounds : List (Bool × Bool)
rounds = (false, true) ∷ (true, true) ∷ (true, false) ∷ []

timed_function-lines_example :
    (new : List (LogLine ℤ)) × ((timed_function ops 3 rounds
        (record { log_ptr = false; debug = []; stats = stats })).stats.log
      ≡ [] ++ new)
    × (map (λ (l : LogLine ℤ). l.second) new ≡ 0 ∷ 1 ∷ [])
timed_function-lines_example =
    timed_function-lines ops 3 rounds (record { log_ptr = false; debug = []; stats = stats })
