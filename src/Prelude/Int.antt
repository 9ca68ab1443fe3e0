-- ===== src/Prelude/Int.antt =====
-- C's signed integers: ℤ over the native numbers, and the values of `int` and `long long`.
use Prim.Native.Nat.{ℕ, suc, ◌+◌, ◌-◌, ◌*◌, ◌%◌, ◌^◌, ◌≤◌, ◌<◌}
use mathlib.Core.Path.{◌≡◌, ap}
use mathlib.Core.Logic.{◌↔◌}
use mathlib.Core.Bool.{Bool, true}
use native.Mathlib.Omega.{arith}
use web_q_final.Prelude.Tests.{ltb, leb, ◌==◌, if◌then◌else◌}

-- `negsuc n` is -(n + 1).
pub data ℤ : Type 0 where
  pos : ℕ → ℤ
  negsuc : ℕ → ℤ

abbrev pub pos_part : ℤ → ℕ
pos_part (pos n) = n
pos_part (negsuc n) = 0

abbrev pub neg_part : ℤ → ℕ
neg_part (pos n) = 0
neg_part (negsuc n) = suc n

-- a - b, as an integer.
abbrev pub sub_ℕ : ℕ → ℕ → ℤ
sub_ℕ a b = if leb b a then pos (a - b) else negsuc (b - a - 1)

infixl 65 ◌+ℤ◌ ◌-ℤ◌
infix 50 ◌≤ℤ◌ ◌<ℤ◌
unfoldable pub ◌+ℤ◌ : ℤ → ℤ → ℤ
a +ℤ b = sub_ℕ (pos_part a + pos_part b) (neg_part a + neg_part b)

unfoldable pub ◌-ℤ◌ : ℤ → ℤ → ℤ
a -ℤ b = sub_ℕ (pos_part a + neg_part b) (neg_part a + pos_part b)

-- A number times an integer.
abbrev pub scale : ℕ → ℤ → ℤ
scale k z = sub_ℕ (k * pos_part z) (k * neg_part z)

abbrev pub ◌≤ℤ◌ : ℤ → ℤ → Type 0
a ≤ℤ b = pos_part a + neg_part b ≤ pos_part b + neg_part a

abbrev pub ◌<ℤ◌ : ℤ → ℤ → Type 0
a <ℤ b = pos_part a + neg_part b < pos_part b + neg_part a

abbrev pub ltb_ℤ : ℤ → ℤ → Bool
ltb_ℤ a b = ltb (pos_part a + neg_part b) (pos_part b + neg_part a)

abbrev pub leb_ℤ : ℤ → ℤ → Bool
leb_ℤ a b = leb (pos_part a + neg_part b) (pos_part b + neg_part a)

abbrev pub eqb_ℤ : ℤ → ℤ → Bool
eqb_ℤ a b = pos_part a + neg_part b == pos_part b + neg_part a

pub eq_of_parts : (a b : ℤ) → pos_part a + neg_part b ≡ pos_part b + neg_part a → a ≡ b
eq_of_parts a b h = ground arith

pub eqb_ℤ_iff : (a b : ℤ) → (eqb_ℤ a b ≡ true) ↔ (a ≡ b)
eqb_ℤ_iff a b = ground arith

pub +ℤ_parts :
    (a b : ℤ)
    → pos_part (a +ℤ b) + neg_part a + neg_part b ≡ neg_part (a +ℤ b) + pos_part a + pos_part b
unfolding ◌+ℤ◌
+ℤ_parts a b = ground arith

pub -ℤ_parts :
    (a b : ℤ)
    → pos_part (a -ℤ b) + neg_part a + pos_part b ≡ neg_part (a -ℤ b) + pos_part a + neg_part b
unfolding ◌-ℤ◌
-ℤ_parts a b = ground arith

pub ruleset int_laws = (arith, +ℤ_parts, -ℤ_parts, eq_of_parts)

-- The two's complement pattern of an integer in 32 and in 64 bits, and the value of a pattern.
unfoldable pub word32 : ℤ → ℕ
word32 z = (pos_part z + (2 ^ 32 - neg_part z % 2 ^ 32)) % 2 ^ 32

unfoldable pub signed32 : ℕ → ℤ
signed32 w = if ltb w (2 ^ 31) then pos w else negsuc (2 ^ 32 - w - 1)

unfoldable pub word64 : ℤ → ℕ
word64 z = (pos_part z + (2 ^ 64 - neg_part z % 2 ^ 64)) % 2 ^ 64

unfoldable pub signed64 : ℕ → ℤ
signed64 w = if ltb w (2 ^ 63) then pos w else negsuc (2 ^ 64 - w - 1)

-- What a result of arithmetic leaves in an `int` and in a `long long`.
unfoldable pub int32 : ℤ → ℤ
unfolding word32 signed32
int32 z = signed32 (word32 z)

unfoldable pub int64 : ℤ → ℤ
unfolding word64 signed64
int64 z = signed64 (word64 z)

-- The values of an `int`.
abbrev pub IsInt : ℤ → Type 0
IsInt z = (pos_part z < 2 ^ 31) × (neg_part z ≤ 2 ^ 31)

pub int32-eq : (z : ℤ) → IsInt z → int32 z ≡ z
unfolding int32
int32-eq z h = ground arith

pub int32-IsInt : (z : ℤ) → IsInt (int32 z)
unfolding int32
int32-IsInt z = ground arith

pub word32-lt : (z : ℤ) → word32 z < 2 ^ 32
unfolding word32
word32-lt z = omega arith

pub signed32-word32 : (z : ℤ) → IsInt z → signed32 (word32 z) ≡ z
unfolding word32 signed32
signed32-word32 z h = ground arith

int64_of_word : (a b : ℤ) → word64 a ≡ word64 b → int64 a ≡ int64 b
int64_of_word a b e = unfold int64 in ap signed64 e

word64-int64 : (z : ℤ) → word64 (int64 z) ≡ word64 z
unfolding int64
word64-int64 z = ground arith

word64-add : (a b : ℤ) → word64 (a +ℤ b) ≡ (word64 a + word64 b) % 2 ^ 64
unfolding word64
word64-add a b = omega (arith, +ℤ_parts a b)

word64-sub : (a b : ℤ) → word64 (a -ℤ b) ≡ (word64 a + (2 ^ 64 - word64 b)) % 2 ^ 64
unfolding word64
word64-sub a b = omega (arith, -ℤ_parts a b)

-- A wrapped operand gives the wrapped result.
pub int64-add_int64 : (a b : ℤ) → int64 (int64 a +ℤ b) ≡ int64 (a +ℤ b)
int64-add_int64 a b =
    int64_of_word _ _ (rw (word64-add (int64 a) b, word64-add a b, word64-int64 a))

pub int64-sub_int64 : (a b : ℤ) → int64 (int64 a -ℤ b) ≡ int64 (a -ℤ b)
int64-sub_int64 a b =
    int64_of_word _ _ (rw (word64-sub (int64 a) b, word64-sub a b, word64-int64 a))

pub int64-eq : (z : ℤ) → pos_part z < 2 ^ 63 → neg_part z ≤ 2 ^ 63 → int64 z ≡ z
unfolding int64
int64-eq z h k = ground arith

pub +ℤ_bounds :
    (a b : ℤ)
    → (pos_part (a +ℤ b) ≤ pos_part a + pos_part b) × (neg_part (a +ℤ b) ≤ neg_part a + neg_part b)
unfolding ◌+ℤ◌
+ℤ_bounds a b = ground arith

pub -ℤ_bounds :
    (a b : ℤ)
    → (pos_part (a -ℤ b) ≤ pos_part a + neg_part b) × (neg_part (a -ℤ b) ≤ neg_part a + pos_part b)
unfolding ◌-ℤ◌
-ℤ_bounds a b = ground arith
