-- ===== src/Controller/Second.antt =====
-- log_data of Controller/src/timer.h, which runs once a second.
pub mod Log
use web_q_final.Prelude.{ℕ, ◌+◌, ◌%◌, List, [], ◌∷◌, ◌++◌, Bool, if◌then◌else◌}
use web_q_final.Prelude.Int.{ℤ, pos, int32, ◌+ℤ◌}
use web_q_final.Cells.{change_values, change_float_values}
use web_q_final.Floats.{FloatOps}

-- What a line of the log shows, after the time of day.
pub record LogLine (F : Type 0) : Type 0 where
  pub total_wt : F
  pub cap : ℤ
  pub second : ℕ

-- The variables that the logger reads and changes, and the log's lines.
pub record Stats (F : Type 0) : Type 0 where
  pub current_time : ℕ
  pub incoming : ℤ
  pub outgoing : ℤ
  pub numbytes : ℤ
  pub tot_numbytes : ℤ
  pub capacity : ℤ
  pub sum_incoming_rate : F
  pub total_waiting_time : F
  pub log : List (LogLine F)

module _ {F : Type 0} (ops : FloatOps F) (lim : ℕ) where
  abbrev line : Stats F → LogLine F
  line s = record { total_wt = s.sum_incoming_rate; cap = s.capacity; second = s.current_time }

  -- `log_open`: the log is open, or `init_logger` opens it now.
  unfoldable pub log_data : Bool → Stats F → Stats F
  log_data log_open s = record s {
    log = if log_open then s.log ++ (line s ∷ []) else s.log;
    current_time = (s.current_time + 1) % lim;
    tot_numbytes = int32 (s.tot_numbytes +ℤ s.numbytes);
    incoming = change_values s.incoming (pos 0);
    numbytes = change_values s.numbytes (pos 0);
    outgoing = change_values s.outgoing (pos 0);
    total_waiting_time =
        change_float_values ops s.total_waiting_time (ops.of_int (pos 0)) (ops.of_int (pos 0));
  }
