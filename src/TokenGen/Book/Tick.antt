-- ===== src/TokenGen/Book/Tick.antt =====
-- The logger's tick of TokenGen/src/timer.h, and the waiting line.
use web_q_final.Prelude.{
  ℕ, ◌+◌, ◌%◌, ◌<◌, ◌≡◌, length, ◌∙◌, ap, if◌then◌else◌, ltb, arith, get_or-set_self, get_or-set_ne,
  length-set, dec_lt,
}
use web_q_final.Prelude.Int.{pos}
use web_q_final.TokenGen.Book.{Book, used, slot, tick}
use web_q_final.TokenGen.Book.Line.{Line, IsBook, advance}
use web_q_final.TokenGen.Book.Search.{mod_ring, slot_ne}

pub IsBook-cong :
    {lim : ℕ} {b : Book} (f g : Line)
    → ((k : ℕ) → k < lim → f k ≡ g k)
    → IsBook lim b f
    → IsBook lim b g
IsBook-cong f g same v = record {
  shape = v.shape;
  now_in = v.now_in;
  agrees = λ k h. v.agrees k h ∙ ap pos (same k h);
  small = λ k h. omega (arith, same k h, v.small k h);
}

module _ {lim : ℕ} {b : Book} {line : Line} (v : IsBook lim b line) where
  -- After a step, the second `k` from now is the one that was `k + 1` away.
  slot-tick :
      (k : ℕ)
      → k < lim
      → slot lim (tick lim b) k ≡ (if ltb (k + 1) lim then slot lim b (k + 1) else slot lim b 0)
  unfolding tick
  slot-tick k h = ground (
    arith,
    v.now_in,
    mod_ring (b.current_time + 1) lim (omega (arith, v.now_in)),
    mod_ring ((b.current_time + 1) % lim + k) lim (omega (arith, v.now_in)),
    mod_ring (b.current_time + (k + 1)) lim (omega (arith, v.now_in)),
    mod_ring (b.current_time + 0) lim (omega (arith, v.now_in)),
  )

  shape_kept : length (tick lim b).visitor_count ≡ lim
  unfolding tick
  shape_kept = length-set b.visitor_count b.current_time (pos 0) ∙ v.shape

  now_slot : slot lim b 0 ≡ b.current_time
  now_slot = grind (arith, mod_ring (b.current_time + 0) lim (omega (arith, v.now_in)), v.now_in)

  entry : (k : ℕ) → k < lim → used lim (tick lim b) k ≡ pos (advance lim line k)
  unfolding tick
  entry k h = elim (dec_lt (k + 1) lim) [
    | yes near ↦ ground (
      arith,
      slot-tick k h,
      v.agrees (k + 1) near,
      get_or-set_ne b.visitor_count b.current_time (slot lim b (k + 1)) (pos 0) (pos 0)
          (λ e. slot_ne b 0 (k + 1) v.now_in (omega arith) near (omega arith) (now_slot ∙ e)),
    )
    | no last ↦ ground (
      arith,
      slot-tick k h,
      now_slot,
      get_or-set_self b.visitor_count b.current_time (pos 0) (pos 0)
          (omega (arith, v.shape, v.now_in)),
    )
  ]

  -- `log_data` clears the second that is over and makes the next one current: in terms of seconds to
  -- wait, every entry moves one nearer, the first is dropped, and the last is empty.
  pub tick_refines : IsBook lim (tick lim b) (advance lim line)
  tick_refines = record {
    shape = shape_kept;
    now_in = unfold tick in omega (arith, v.now_in);
    agrees = entry;
    small = λ k h. ground (arith, v.small (k + 1));
  }
