-- ===== src/Cells/Tests.antt =====
-- Runs of the updates.
use web_q_final.Prelude.{◌≡◌, refl}
use web_q_final.Prelude.Int.{pos, negsuc, ◌+ℤ◌, int32}
use web_q_final.Cells.{change_values, update_array}

change_values_wraps : change_values (pos 0x7fff_ffff) (pos 1) ≡ negsuc 0x7fff_ffff
unfolding change_values ◌+ℤ◌ int32
change_values_wraps = refl

update_array_resets : update_array (pos 9) (pos 0) ≡ pos 0
unfolding update_array
update_array_resets = refl
