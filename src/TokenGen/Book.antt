-- ===== src/TokenGen/Book.antt =====
-- TokenGen/src/proxy1.c and timer.h: the table `visitor_count` of the requests that are expected in
-- each of the next LIMIT seconds, the search of `main` for a second with room, and the logger's tick.
-- `lim` is LIMIT and `share` the capacity per second that the controller granted.
pub mod Line
pub mod Search
pub mod Tick
pub mod Room
mod Tests
use web_q_final.Prelude.{ℕ, zero, suc, ◌+◌, ◌%◌, Bool, List, if◌then◌else◌, get_or, set}
use web_q_final.Prelude.Int.{ℤ, pos, ◌-ℤ◌, ltb_ℤ, int32}
use web_q_final.Cells.{update_array, get_array}

-- `visitor_count` and `current_time`.
pub record Book : Type 0 where
  pub visitor_count : List ℤ
  pub current_time : ℕ

-- LIMIT of timer.h.
abbrev pub limit : ℕ
limit = 1000

module _ (lim : ℕ) where
  -- `(current_time + iter) % LIMIT`
  abbrev pub slot : Book → ℕ → ℕ
  slot b iter = (b.current_time + iter) % lim

  -- `visitor_count[(current_time + iter) % LIMIT]`
  abbrev pub used : Book → ℕ → ℤ
  used b iter = get_or b.visitor_count (slot b iter) (pos 0)

  -- `update_array(&visitor_count[(current_time + iter) % LIMIT], num)`
  unfoldable pub bump : Book → ℕ → ℤ → Book
  unfolding update_array
  bump b iter num = record b {
    visitor_count = set b.visitor_count (slot b iter) (update_array (used b iter) num);
  }

  -- `total_usable_capacity > 0`
  unfoldable pub has_room : ℤ → Book → ℕ → Bool
  has_room share b iter = ltb_ℤ (pos 0) (int32 (share -ℤ get_array (used b iter)))

  -- The loop from `iter` on, with `k` rounds left: the final `iter`, and the table.
  unfoldable pub find_slot : ℤ → ℤ → Book → ℕ → ℕ → ℕ × Book
  find_slot share hardness b zero iter = (iter, b)
  find_slot share hardness b (suc k) iter =
      let rest = find_slot share hardness b k (iter + 1) in
      if has_room share b iter then (iter, bump b iter hardness) else rest

  -- The whole loop; `iter` is `lim` where no second has room.
  unfoldable pub admit : ℤ → ℤ → Book → ℕ × Book
  admit share hardness b = find_slot share hardness b lim 0

  -- The end of `log_data`: the second that is over is cleared, and the next one is current.
  unfoldable pub tick : Book → Book
  unfolding update_array
  tick b = record {
    visitor_count =
        set b.visitor_count b.current_time
          (update_array (get_or b.visitor_count b.current_time (pos 0)) (pos 0));
    current_time = (b.current_time + 1) % lim;
  }
