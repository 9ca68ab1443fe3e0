-- ===== src/Samples.antt =====
-- Values that the tests share. The numbers of the floating-point operations are integers here, with a
-- division that drops the fraction; every system call succeeds; the table has LIMIT 3.
use native.Mathlib.Nat.{div-le_of_le-mul, div-mul-le_self, mul-le-mul_right}
use web_q_final.Prelude.{
  ℕ, zero, suc, ◌+◌, ◌^◌, ◌<◌, ◌/◌, ◌*◌, ◌≤◌, ◌≡◌, refl, [], ◌∷◌, true, false, arith, ltb,
  if◌then◌else◌,
}
use web_q_final.Prelude.Int.{ℤ, pos, pos_part, eqb_ℤ, ltb_ℤ, ◌+ℤ◌, +ℤ_parts}
use web_q_final.Floats.{FloatOps, FloatLaws, RatioLaws}
use web_q_final.Net.{Net, IsUp}
use web_q_final.TokenGen.Book.{Book, used}
use web_q_final.TokenGen.Book.Line.{Line, IsBook}

abbrev pub ops : FloatOps ℤ
ops = record {
  of_int = λ z. z;
  add = λ a b. a +ℤ b;
  div = λ a b. pos (pos_part a / pos_part b);
  mul = λ a b. pos (pos_part a * pos_part b);
  lt = ltb_ℤ;
  eq = eqb_ℤ;
  round = λ z. z;
  trunc = λ z. z;
}

abbrev pub net : Net
net = record {
  socket_ok = true;
  valid_ip = λ _. true;
  connect_ok = λ _. true;
  write_ok = λ _. true;
  fopen_ok = true;
  now = pos 1000;
  junk = λ _. pos 0;
}

pub net-IsUp : IsUp net
net-IsUp = (refl, (λ _. refl), (λ _. refl), (λ _. refl), refl)

abbrev pub book : Book
book = record { visitor_count = pos 2 ∷ pos 1 ∷ pos 2 ∷ []; current_time = 2 }

abbrev pub line : Line
line k = if ltb k 2 then 2 else 1

pub book-IsBook : IsBook 3 book line
book-IsBook = record {
  shape = refl;
  now_in = omega arith;
  agrees = agree;
  small = λ k h. ground arith;
}
  where
    agree : (k : ℕ) → k < 3 → used 3 book k ≡ pos (line k)
    agree zero h = refl
    agree (suc zero) h = refl
    agree (suc (suc zero)) h = refl
    agree (suc (suc (suc k))) h = absurd (omega arith)

quotient_small : (x y : ℕ) → x ≤ y → 0 < y → x / y ≤ 1
quotient_small x y h p = div-le_of_le-mul y (omega arith)

product_small : (q c : ℕ) → q ≤ 1 → q * c ≤ c
product_small zero c h = omega arith
product_small (suc zero) c h = omega arith
product_small (suc (suc q)) c h = absurd (omega arith)

pub ops-FloatLaws : FloatLaws ops
ops-FloatLaws = record {
  Le = λ a b. ltb_ℤ b a ≡ false;
  le_refl = λ a. ground arith;
  le_trans = λ a b c h k. ground arith;
  le-of_int = λ m n h k. ground arith;
  le-add = λ a b h k. ground (arith, +ℤ_parts a b, h, k);
  le-div = λ x b h k e.
      ground (arith, quotient_small x (pos_part b) (ground (arith, k)) (ground (arith, k, e)));
  le-mul = λ q c h k l. ground (arith, product_small (pos_part q) c (ground (arith, l)));
  round_le = λ v c h k l. ground arith;
}

quotient_scaled : (q x t : ℕ) → q * t ≤ x → q * (t * 2 ^ 24) ≤ x * (2 ^ 24 + 1)
quotient_scaled q x t h = grind arith

product_scaled : (a c p q : ℕ) → a * q ≤ p → a * c * (q * 2 ^ 24) ≤ p * c * (2 ^ 24 + 1)
product_scaled a c p q h = let scaled : a * q * c ≤ p * c = mul-le-mul_right c h in grind arith

half : (v p q : ℕ) → v * q ≤ p → 2 * (q * v) ≤ 2 * p + q
half v p q h = grind arith

pos-add : (a b : ℕ) → pos a +ℤ pos b ≡ pos (a + b)
unfolding ◌+ℤ◌
pos-add a b = ground arith

pub ops-RatioLaws : RatioLaws ops
ops-RatioLaws = record {
  AtMost = λ v p q. (v ≡ pos (pos_part v)) × pos_part v * q ≤ p;
  add_exact = λ a b h. pos-add a b;
  eq_exact = λ a b h k. ground arith;
  div-AtMost = λ x t h k l. (refl, quotient_scaled (x / t) x t (div-mul-le_self x t));
  mul-AtMost = λ v p q c h k e. (refl, product_scaled (pos_part v) c p q e.1);
  round-AtMost = λ v p q h k e. (e.0, half (pos_part v) p q e.1);
}
