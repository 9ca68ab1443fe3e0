-- ===== src/TokenGen/Second.antt =====
-- log_data of TokenGen/src/timer.h, which runs once a second.
pub mod History
pub mod Log
mod Tests
use web_q_final.Prelude.{ℕ, List, [], ◌∷◌, ◌++◌, Bool, if◌then◌else◌, get_or}
use web_q_final.Prelude.Int.{ℤ, pos, int32, ◌+ℤ◌}
use web_q_final.Cells.{change_values, change_float_values, get_array}
use web_q_final.Floats.{FloatOps}
use web_q_final.Queue.{Queue, push_back}
use web_q_final.TokenGen.Book.{Book, tick}

-- What a line of the log shows, after the time of day.
pub record LogLine (F : Type 0) : Type 0 where
  pub inc : ℤ
  pub host_wt : F
  pub peer_wt : F
  pub cap : ℤ
  pub exp_visitors : ℤ
  pub granted : ℤ
  pub second : ℕ

-- The variables that the logger reads and changes, and the log's lines.
pub record Stats (F : Type 0) : Type 0 where
  pub queue : Queue
  pub book : Book
  pub incoming : ℤ
  pub outgoing : ℤ
  pub failing : ℤ
  pub numbytes : ℤ
  pub tot_numbytes : ℤ
  pub capacity : ℤ
  pub share : ℤ
  pub host_incoming_rate : F
  pub sum_peer_incoming_rate : F
  pub total_waiting_time : F
  pub log : List (LogLine F)

module _ {F : Type 0} (ops : FloatOps F) (lim : ℕ) where
  abbrev line : Stats F → LogLine F
  line s = record {
    inc = s.incoming;
    host_wt = s.host_incoming_rate;
    peer_wt = s.sum_peer_incoming_rate;
    cap = s.capacity;
    exp_visitors = get_array (get_or s.book.visitor_count s.book.current_time (pos 0));
    granted = s.share;
    second = s.book.current_time;
  }

  -- `log_open`: the log is open, or `init_logger` opens it now. `mem`: `malloc` has a node.
  unfoldable pub log_data : Bool → Bool → Stats F → Stats F
  log_data log_open mem s = record s {
    queue =
        push_back mem s.queue
          (record { in_count = s.incoming; out_count = s.outgoing; fail_count = s.failing });
    log = if log_open then s.log ++ (line s ∷ []) else s.log;
    book = tick lim s.book;
    host_incoming_rate = ops.of_int s.incoming;
    tot_numbytes = int32 (s.tot_numbytes +ℤ s.numbytes);
    incoming = change_values s.incoming (pos 0);
    numbytes = change_values s.numbytes (pos 0);
    outgoing = change_values s.outgoing (pos 0);
    total_waiting_time =
        change_float_values ops s.total_waiting_time (ops.of_int (pos 0)) (ops.of_int (pos 0));
  }
