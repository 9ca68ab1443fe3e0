-- ===== src/Text/Decimal.antt =====
-- Printing and reading decimal numbers.
use native.Mathlib.Nat.{pow-suc}
use web_q_final.Prelude.{
  ℕ, zero, suc, ◌+◌, ◌/◌, ◌%◌, ◌≤◌, ◌<◌, ◌^◌, ◌≡◌, List, [], ◌∷◌, arith, length, dec_lt,
}
use web_q_final.Prelude.Int.{ℤ, pos, negsuc}
use web_q_final.Text.{
  digits_value, digits_before, decimal_ℕ, decimal, atoi, skip_spaces, signed_value,
}

-- Reading on from a printed number.
digits_value-digits_before :
    (fuel n : ℕ) (acc : List ℕ)
    → n < fuel
    → digits_value 0 (digits_before fuel n acc) ≡ digits_value n acc
unfolding digits_before digits_value
digits_value-digits_before zero n acc h = absurd (omega arith)
digits_value-digits_before (suc fuel) n acc h = elim (dec_lt n 10) [
  | yes p ↦ ground arith
  | no p ↦
      ground (arith, digits_value-digits_before fuel (n / 10) ((b'0' + n % 10) ∷ acc) (omega arith))
]

-- The first byte is a digit, so `atoi` starts to read there.
first_is_digit :
    (fuel n : ℕ) (acc : List ℕ)
    → n < fuel
    → skip_spaces (digits_before fuel n acc) ≡ digits_before fuel n acc
unfolding digits_before skip_spaces
first_is_digit zero n acc h = absurd (omega arith)
first_is_digit (suc fuel) n acc h = elim (dec_lt n 10) [
  | yes p ↦ ground arith
  | no p ↦ ground (arith, first_is_digit fuel (n / 10) ((b'0' + n % 10) ∷ acc) (omega arith))
]

no_sign :
    (fuel n : ℕ) (acc : List ℕ)
    → n < fuel
    → signed_value (digits_before fuel n acc) ≡ pos (digits_value 0 (digits_before fuel n acc))
unfolding digits_before digits_value
no_sign zero n acc h = absurd (omega arith)
no_sign (suc fuel) n acc h = elim (dec_lt n 10) [
  | yes p ↦ ground arith
  | no p ↦ ground (arith, no_sign fuel (n / 10) ((b'0' + n % 10) ∷ acc) (omega arith))
]

-- `atoi` reads back every integer that `%d` prints.
pub atoi-decimal : (z : ℤ) → atoi (decimal z) ≡ z
unfolding atoi decimal
atoi-decimal (pos n) = ground (
  arith,
  first_is_digit (suc n) n [] (omega arith),
  no_sign (suc n) n [] (omega arith),
  digits_value-digits_before (suc n) n [] (omega arith),
)
atoi-decimal (negsuc n) =
    ground (arith, digits_value-digits_before (suc (suc n)) (suc n) [] (omega arith))

-- The number of digits of a number below 10 ^ (k + 1) is at most k + 1.
length-digits_before :
    (fuel k n : ℕ) (acc : List ℕ)
    → n < fuel
    → n < 10 ^ suc k
    → length (digits_before fuel n acc) ≤ suc k + length acc
unfolding digits_before
length-digits_before zero k n acc h b = absurd (omega arith)
length-digits_before (suc fuel) zero n acc h b = ground arith
length-digits_before (suc fuel) (suc k) n acc h b = elim (dec_lt n 10) [
  | yes p ↦ ground arith
  | no p ↦ ground (
    arith,
    length-digits_before fuel k (n / 10) ((b'0' + n % 10) ∷ acc) (omega arith)
        (omega (arith, pow-suc 10 (suc k))),
  )
]

pub length-decimal_ℕ : (k n : ℕ) → n < 10 ^ suc k → length (decimal_ℕ n) ≤ suc k
unfolding decimal_ℕ
length-decimal_ℕ k n h = omega (arith, length-digits_before (suc n) k n [] (omega arith) h)
