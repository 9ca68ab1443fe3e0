-- ===== src/Controller/Second/Log.antt =====
-- Controller/src/timer.h: the log file, and the loop of the thread that writes a line to it each second.
use mathlib.Core.List.{append_assoc, append-nil, map-append}
use web_q_final.Prelude.{
  ℕ, zero, suc, ◌+◌, ◌%◌, ◌≡◌, ◌∙◌, refl, List, [], ◌∷◌, ◌++◌, Bool, true, false, map, drop, length,
  if◌then◌else◌,
}
use web_q_final.Floats.{FloatOps}
use web_q_final.Machine.{Outcome, done, fault}
use web_q_final.Controller.Second.{Stats, LogLine, log_data}

-- `log_ptr`: the pointer is not NULL. `debug`: the texts of `debug_printf`, beside the lines of
-- `log_data`.
pub record LogFile : Type 0 where
  pub log_ptr : Bool
  pub debug : List (List ℕ)

-- `ok`: `fopen` succeeds.
unfoldable pub init_logger : Bool → LogFile → LogFile
init_logger ok f = if f.log_ptr then f else record f { log_ptr = ok }

unfoldable pub debug_printf : List ℕ → LogFile → LogFile
debug_printf text f = if f.log_ptr then record f { debug = f.debug ++ (text ∷ []) } else f

-- `fclose`; the pointer stays as it is.
unfoldable pub free_logger : LogFile → Outcome LogFile
free_logger f = if f.log_ptr then done f else fault

module _ {F : Type 0} (ops : FloatOps F) (lim : ℕ) where
  -- `log_data`, which opens the log where it is not open yet.
  abbrev pub round : Bool → LogFile × Stats F → LogFile × Stats F
  round ok (f, s) = (init_logger ok f, log_data ops lim (init_logger ok f).log_ptr s)

  -- The loop of `timed_function`, with the answer of `fopen` in each round.
  unfoldable pub timed_function : List Bool → LogFile × Stats F → LogFile × Stats F
  unfolding init_logger
  timed_function [] g = g
  timed_function (ok ∷ rs) g = timed_function rs (round ok g)

  abbrev pub seconds_from : ℕ → ℕ → List ℕ
  seconds_from t zero = []
  seconds_from t (suc n) = t ∷ seconds_from ((t + 1) % lim) n

  -- The rounds in which there is no log.
  abbrev pub missed : Bool → List Bool → ℕ
  missed true rs = 0
  missed false [] = 0
  missed false (true ∷ rs) = 0
  missed false (false ∷ rs) = suc (missed false rs)

  abbrev pub seconds_of : List (LogLine F) → List ℕ
  seconds_of ls = map (λ (l : LogLine F). l.second) ls

  drop-nil : (k : ℕ) → drop {A = ℕ} k [] ≡ []
  drop-nil zero = refl
  drop-nil (suc k) = refl

  one_line :
      (s : Stats F)
      → seconds_of (log_data ops lim true s).log ≡ seconds_of s.log ++ (s.current_time ∷ [])
  unfolding log_data
  one_line s = map-append (λ (l : LogLine F). l.second) s.log _

  no_line : (s : Stats F) → (log_data ops lim false s).log ≡ s.log
  unfolding log_data
  no_line s = refl

  moved_on :
      (is_open : Bool) (s : Stats F)
      → (log_data ops lim is_open s).current_time ≡ (s.current_time + 1) % lim
  unfolding log_data
  moved_on is_open s = refl

  lines :
      (rs : List Bool) (p : Bool) (d : List (List ℕ)) (s : Stats F)
      → seconds_of (timed_function rs (record { log_ptr = p; debug = d }, s)).1.log
        ≡ seconds_of s.log ++ drop (missed p rs) (seconds_from s.current_time (length rs))
  unfolding timed_function
  lines [] p d s = rw (drop-nil, append-nil) refl
  lines (ok ∷ rs) true d s =
      lines rs true d (log_data ops lim true s)
      ∙ rw (one_line s, moved_on true s, append_assoc) refl
  lines (true ∷ rs) false d s =
      lines rs true d (log_data ops lim true s)
      ∙ rw (one_line s, moved_on true s, append_assoc) refl
  lines (false ∷ rs) false d s =
      lines rs false d (log_data ops lim false s) ∙ rw (no_line s, moved_on false s) refl

  -- Each round of `timed_function` from the first in which the log is open adds one line to it, and the
  -- lines are numbered by the seconds in turn, which count up to LIMIT and start again; a round
  -- without the log adds no line, and counts all the same. The numbers of the lines before stay.
  pub timed_function-seconds :
      (rs : List Bool) (f : LogFile) (s : Stats F)
      → seconds_of (timed_function rs (f, s)).1.log
        ≡ seconds_of s.log ++ drop (missed f.log_ptr rs) (seconds_from s.current_time (length rs))
  timed_function-seconds rs f s = lines rs f.log_ptr f.debug s
