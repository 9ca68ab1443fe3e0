-- ===== src/TokenGen/Book/Line.antt =====
-- The waiting line that the table stands for: the expected requests by seconds from now.
use web_q_final.Prelude.{ℕ, zero, suc, ◌+◌, ◌<◌, ◌^◌, ◌≡◌, length, if◌then◌else◌, ltb, ◌==◌}
use web_q_final.Prelude.Int.{pos}
use web_q_final.TokenGen.Book.{Book, used}

-- A line as a function of the seconds to wait; of use below `lim` only.
abbrev pub Line : Type 0
Line = ℕ → ℕ

-- The entries are counts, and the table has `lim` of them.
pub record IsBook (lim : ℕ) (b : Book) (line : Line) : Type 0 where
  pub shape : length b.visitor_count ≡ lim
  pub now_in : b.current_time < lim
  pub agrees : (k : ℕ) → k < lim → used lim b k ≡ pos (line k)
  pub small : (k : ℕ) → k < lim → line k < 2 ^ 31

-- The first second from `iter` on with fewer than `share` requests, among `k` seconds.
unfoldable pub first_room : ℕ → Line → ℕ → ℕ → ℕ
first_room share line zero iter = iter
first_room share line (suc k) iter =
    let rest = first_room share line k (iter + 1) in if ltb (line iter) share then iter else rest

-- One more request in that second.
abbrev pub join_at : ℕ → Line → Line
join_at w line k = if k == w then line k + 1 else line k

-- A second passes: everyone is one second nearer, and the last second is empty.
abbrev pub advance : ℕ → Line → Line
advance lim line k = if ltb (k + 1) lim then line (k + 1) else 0
