-- ===== src/TokenGen/Second/History.antt =====
-- Many seconds of log_data: the queue gets what each second counted, and the table moves on.
use web_q_final.Prelude.{ℕ, zero, suc, ◌≡◌, refl, List, [], ◌∷◌, true, length}
use web_q_final.Prelude.Int.{pos}
use web_q_final.Cells.{change_values}
use web_q_final.Floats.{FloatOps}
use web_q_final.Queue.{Node}
use web_q_final.Queue.Window.{push_all}
use web_q_final.TokenGen.Book.Line.{Line, IsBook, advance}
use web_q_final.TokenGen.Book.Tick.{tick_refines}
use web_q_final.TokenGen.Second.{Stats, log_data}

module _ {F : Type 0} (ops : FloatOps F) (lim : ℕ) where
  -- One second: the three counters have these values when the logger runs.
  abbrev pub second : Node → Stats F → Stats F
  second n s =
      log_data ops lim true true
        (record s { incoming = n.in_count; outgoing = n.out_count; failing = n.fail_count })

  abbrev pub seconds : List Node → Stats F → Stats F
  seconds [] s = s
  seconds (n ∷ ns) s = seconds ns (second n s)

  abbrev pub advance_by : ℕ → Line → Line
  advance_by zero line = line
  advance_by (suc k) line = advance_by k (advance lim line)

  -- Where the log is open and memory is granted, after any seconds, from a table that represents
  -- `line`: the queue is what pushing the counts of each second in order makes of it, the table
  -- represents `line` moved on by as many seconds, and `incoming` and `outgoing` are 0, if they were.
  pub seconds_refine :
      (ns : List Node) (s : Stats F) (line : Line)
      → IsBook lim s.book line
      → s.incoming ≡ pos 0
      → s.outgoing ≡ pos 0
      → ((seconds ns s).queue ≡ push_all s.queue ns)
        × IsBook lim (seconds ns s).book (advance_by (length ns) line)
        × ((seconds ns s).incoming ≡ pos 0)
        × ((seconds ns s).outgoing ≡ pos 0)
  unfolding log_data push_all change_values
  seconds_refine [] s line v z o = (refl, v, z, o)
  seconds_refine (n ∷ ns) s line v z o =
      seconds_refine ns (second n s) (advance lim line) (tick_refines v) refl refl
