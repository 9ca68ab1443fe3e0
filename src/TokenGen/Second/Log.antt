-- ===== src/TokenGen/Second/Log.antt =====
-- TokenGen/src/timer.h: the log file, and the loop of the thread that writes a line to it each second.
use mathlib.Core.List.{append_assoc, append-nil}
use web_q_final.Prelude.{
  ℕ, zero, suc, ◌+◌, ◌%◌, ◌≡◌, ◌∙◌, sym, refl, List, [], ◌∷◌, ◌++◌, Bool, true, false, map, drop,
  length, if◌then◌else◌,
}
use web_q_final.Prelude.Int.{ℤ}
use web_q_final.Floats.{FloatOps}
use web_q_final.Machine.{Outcome, done, fault}
use web_q_final.TokenGen.Book.{tick}
use web_q_final.Queue.{pending_requests}
use web_q_final.TokenGen.Second.{Stats, LogLine, log_data}

-- `log_ptr`: the pointer is not NULL. `debug`: the texts of `debug_printf`, beside the lines of
-- `log_data`.
pub record Logger (F : Type 0) : Type 0 where
  pub log_ptr : Bool
  pub debug : List (List ℕ)
  pub stats : Stats F

module _ {F : Type 0} where
  -- `ok`: `fopen` succeeds.
  unfoldable pub init_logger : Bool → Logger F → Logger F
  init_logger ok g = if g.log_ptr then g else record g { log_ptr = ok }

  unfoldable pub debug_printf : List ℕ → Logger F → Logger F
  debug_printf text g = if g.log_ptr then record g { debug = g.debug ++ (text ∷ []) } else g

  -- `fclose`; the pointer stays as it is.
  unfoldable pub free_logger : Logger F → Outcome (Logger F)
  free_logger g = if g.log_ptr then done g else fault

  unfoldable pub get_pending : Logger F → ℤ
  get_pending g = pending_requests g.stats.queue

module _ {F : Type 0} (ops : FloatOps F) (lim : ℕ) where
  -- `log_data`, which opens the log where it is not open yet. `mem`: `malloc` has a node.
  abbrev pub round : Bool → Bool → Logger F → Logger F
  round ok mem g =
      let g' = init_logger ok g in record g' { stats = log_data ops lim g'.log_ptr mem g'.stats }

  -- The loop of `timed_function`, with the answers of `fopen` and `malloc` in each round.
  unfoldable pub timed_function : List (Bool × Bool) → Logger F → Logger F
  unfolding init_logger
  timed_function [] g = g
  timed_function ((ok, mem) ∷ rs) g = timed_function rs (round ok mem g)

  abbrev pub seconds_from : ℕ → ℕ → List ℕ
  seconds_from t zero = []
  seconds_from t (suc n) = t ∷ seconds_from ((t + 1) % lim) n

  -- The rounds in which there is no log.
  abbrev pub missed : Bool → List (Bool × Bool) → ℕ
  missed true rs = 0
  missed false [] = 0
  missed false ((true, mem) ∷ rs) = 0
  missed false ((false, mem) ∷ rs) = suc (missed false rs)

  drop-nil : (k : ℕ) → drop {A = ℕ} k [] ≡ []
  drop-nil zero = refl
  drop-nil (suc k) = refl

  -- A second of the logger with the log open: its line has the number of the second.
  one_line :
      (mem : Bool) (s : Stats F)
      → (x : LogLine F) × ((log_data ops lim true mem s).log ≡ s.log ++ (x ∷ []))
        × (x.second ≡ s.book.current_time)
  unfolding log_data
  one_line mem s = (_, refl, refl)

  no_line : (mem : Bool) (s : Stats F) → (log_data ops lim false mem s).log ≡ s.log
  unfolding log_data
  no_line mem s = refl

  moved_on :
      (is_open mem : Bool) (s : Stats F)
      → (log_data ops lim is_open mem s).book.current_time ≡ (s.book.current_time + 1) % lim
  unfolding log_data tick
  moved_on is_open mem s = refl

  -- What the rounds add to the log: lines with these numbers.
  abbrev pub Adds : List (LogLine F) → List (LogLine F) → List ℕ → Type 0
  Adds old log ns =
      (new : List (LogLine F)) × (log ≡ old ++ new) × (map (λ (l : LogLine F). l.second) new ≡ ns)

  Adds-line :
      (mem : Bool) (s : Stats F) (log : List (LogLine F)) (n : ℕ)
      → Adds
          (log_data ops lim true mem s).log
          log
          (seconds_from (log_data ops lim true mem s).book.current_time n)
      → Adds s.log log (seconds_from s.book.current_time (suc n))
  Adds-line mem s log n (new, e, ns) =
      let (x, added, number) = one_line mem s in
      (x ∷ new, e ∙ rw (added, append_assoc) refl, rw (number, ns, moved_on true mem s) refl)

  lines :
      (rs : List (Bool × Bool)) (p : Bool) (d : List (List ℕ)) (s : Stats F)
      → Adds s.log
          (timed_function rs (record { log_ptr = p; debug = d; stats = s })).stats.log
          (drop (missed p rs) (seconds_from s.book.current_time (length rs)))
  unfolding timed_function
  lines [] p d s = ([], sym (append-nil s.log), sym (drop-nil (missed p [])))
  lines ((ok, mem) ∷ rs) true d s =
      Adds-line mem s _ (length rs) (lines rs true d (log_data ops lim true mem s))
  lines ((true, mem) ∷ rs) false d s =
      Adds-line mem s _ (length rs) (lines rs true d (log_data ops lim true mem s))
  lines ((false, mem) ∷ rs) false d s =
      let (new, e, ns) = lines rs false d (log_data ops lim false mem s) in
      (new, e ∙ rw (no_line mem s) refl, ns ∙ rw (moved_on false mem s) refl)

  -- Each round of `timed_function` from the first in which the log is open adds one line to it, and the
  -- lines are numbered by the seconds in turn, which count up to LIMIT and start again; a round
  -- without the log adds no line, and counts all the same. The lines that were logged before stay as
  -- they are.
  pub timed_function-lines :
      (rs : List (Bool × Bool)) (g : Logger F)
      → (new : List (LogLine F)) × ((timed_function rs g).stats.log ≡ g.stats.log ++ new)
        × (map (λ (l : LogLine F). l.second) new
            ≡ drop (missed g.log_ptr rs) (seconds_from g.stats.book.current_time (length rs)))
  timed_function-lines rs g = lines rs g.log_ptr g.debug g.stats
