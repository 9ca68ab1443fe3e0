-- ===== src/Floats.antt =====
-- C's `float` and `double`, which the code computes with and does not implement: the operations that
-- it uses.
use web_q_final.Prelude.{ℕ, ◌+◌, ◌*◌, ◌≤◌, ◌<◌, ◌^◌, ◌≡◌, Bool, false, ◌==◌}
use web_q_final.Prelude.Int.{ℤ, pos, pos_part}

pub record FloatOps (F : Type 0) : Type 0 where
  pub of_int : ℤ → F
  pub add : F → F → F
  pub div : F → F → F
  pub mul : F → F → F
  pub lt : F → F → Bool
  pub eq : F → F → Bool
  -- `round`, and the conversion of its result to `int`
  pub round : F → ℤ
  -- the conversion to `int`, which drops the fraction
  pub trunc : F → ℤ

-- What IEEE 754 says of them, with `Le` as the order of the numbers: conversions, sums and products
-- are monotone, since the exact result is and rounding to nearest is; a quotient of an `int` by a
-- number that is no less, and not 0, is at most 1; and `round` stays between 0 and an `int` that is
-- exact as a `float`.
pub record FloatLaws {F : Type 0} (ops : FloatOps F) : Type 1 where
  pub Le : F → F → Type 0
  pub le_refl : (a : F) → Le a a
  pub le_trans : (a b c : F) → Le a b → Le b c → Le a c
  pub le-of_int : (m n : ℕ) → n < 2 ^ 31 → m ≤ n → Le (ops.of_int (pos m)) (ops.of_int (pos n))
  pub le-add :
      (a b : F)
      → Le (ops.of_int (pos 0)) a
      → Le (ops.of_int (pos 0)) b
      → Le a (ops.add a b) × Le b (ops.add a b)
  pub le-div :
      (x : ℕ) (b : F)
      → x < 2 ^ 31
      → Le (ops.of_int (pos x)) b
      → ops.eq b (ops.of_int (pos 0)) ≡ false
      → Le (ops.of_int (pos 0)) (ops.div (ops.of_int (pos x)) b)
        × Le (ops.div (ops.of_int (pos x)) b) (ops.of_int (pos 1))
  pub le-mul :
      (q : F) (c : ℕ)
      → c < 2 ^ 31
      → Le (ops.of_int (pos 0)) q
      → Le q (ops.of_int (pos 1))
      → Le (ops.of_int (pos 0)) (ops.mul q (ops.of_int (pos c)))
        × Le (ops.mul q (ops.of_int (pos c))) (ops.of_int (pos c))
  pub round_le :
      (v : F) (c : ℕ)
      → c ≤ 2 ^ 24
      → Le (ops.of_int (pos 0)) v
      → Le v (ops.of_int (pos c))
      → (ops.round v ≡ pos (pos_part (ops.round v))) × pos_part (ops.round v) ≤ c

-- What IEEE 754 says of the size of a `float`, with `AtMost v p q` as "v is at most p / q": integers up
-- to 2 ^ 24 and their sums are exact; a quotient and a product are rounded to a number at most
-- 1 + 1 / 2 ^ 24 times as large; and `round` adds at most a half, to a number that an `int` holds.
pub record RatioLaws {F : Type 0} (ops : FloatOps F) : Type 1 where
  pub AtMost : F → ℕ → ℕ → Type 0
  pub add_exact :
      (a b : ℕ)
      → a + b ≤ 2 ^ 24
      → ops.add (ops.of_int (pos a)) (ops.of_int (pos b)) ≡ ops.of_int (pos (a + b))
  pub eq_exact :
      (a b : ℕ)
      → a ≤ 2 ^ 24
      → b ≤ 2 ^ 24
      → ops.eq (ops.of_int (pos a)) (ops.of_int (pos b)) ≡ (a == b)
  pub div-AtMost :
      (x t : ℕ)
      → x ≤ t
      → 0 < t
      → t ≤ 2 ^ 24
      → AtMost (ops.div (ops.of_int (pos x)) (ops.of_int (pos t))) (x * (2 ^ 24 + 1)) (t * 2 ^ 24)
  pub mul-AtMost :
      (v : F) (p q c : ℕ)
      → 0 < q
      → c ≤ 2 ^ 24
      → AtMost v p q
      → AtMost (ops.mul v (ops.of_int (pos c))) (p * c * (2 ^ 24 + 1)) (q * 2 ^ 24)
  pub round-AtMost :
      (v : F) (p q : ℕ)
      → 0 < q
      → p < q * 2 ^ 30
      → AtMost v p q
      → (ops.round v ≡ pos (pos_part (ops.round v))) × 2 * (q * pos_part (ops.round v)) ≤ 2 * p + q
