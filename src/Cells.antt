-- ===== src/Cells.antt =====
-- functions.h: the updates of shared variables. Each runs whole under one mutex, so it is a function
-- of the variable's value; a call replaces the value.
mod Tests
use web_q_final.Prelude.{ℕ, ◌+◌, ◌%◌, ◌^◌, ◌==◌, if◌then◌else◌}
use web_q_final.Prelude.Int.{ℤ, pos, ◌+ℤ◌, eqb_ℤ, int32}
use web_q_final.Floats.{FloatOps}

-- `num` 0 means: reset.
unfoldable pub change_values : ℤ → ℤ → ℤ
change_values variable num = if eqb_ℤ num (pos 0) then pos 0 else int32 (variable +ℤ num)

-- The same for an `unsigned long`.
unfoldable pub change_long_values : ℕ → ℕ → ℕ
change_long_values variable num = if num == 0 then 0 else (variable + num) % 2 ^ 64

-- The variable is an `unsigned int`, which the result's `long` holds.
unfoldable pub get_values : ℕ → ℤ
get_values variable = pos variable

unfoldable pub update_array : ℤ → ℤ → ℤ
update_array variable num = if eqb_ℤ num (pos 0) then pos 0 else int32 (variable +ℤ num)

abbrev pub set_array : ℤ → ℤ → ℤ
set_array variable num = num

abbrev pub get_array : ℤ → ℤ
get_array variable = variable

-- `now` is what `time(NULL)` returns.
abbrev pub change_time : ℤ → ℤ → ℤ
change_time stime now = now

abbrev pub set_value : ℤ → ℤ → ℤ
set_value variable num = num

module _ {F : Type 0} (ops : FloatOps F) where
  open ops use {of_int, add, lt, eq}

  -- The second test runs also after a reset, on the value 0.
  unfoldable pub change_float_values : F → F → F → F
  change_float_values variable num min_val =
      let base = if eq num (of_int (pos 0)) then of_int (pos 0) else variable in
      if lt min_val (add base num) then add base num else min_val
