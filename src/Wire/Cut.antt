-- ===== src/Wire/Cut.antt =====
-- An `int` whose read ends before its fourth byte.
use web_q_final.Prelude.{
  ℕ, zero, suc, ◌<◌, ◌%◌, ◌^◌, ◌≡◌, ap, arith, List, ◌∷◌, ◌++◌, take, drop, Option, some,
}
use web_q_final.Prelude.Int.{ℤ, pos, word32, signed32, IsInt}
use web_q_final.Wire.{Conn, read, read_int, bytes_of_int, int_of_bytes}
use web_q_final.Wire.RoundTrip.{int_of_bytes-bytes_of_int}

-- The first bytes of a word are its low digits.
low_digits :
    (k : ℕ) (z : ℤ)
    → 0 < k
    → k < 4
    → int_of_bytes (take k (bytes_of_int z)) ≡ pos (word32 z % 256 ^ k)
unfolding int_of_bytes bytes_of_int signed32
low_digits zero z g h = absurd (omega arith)
low_digits (suc zero) z g h = ground arith
low_digits (suc (suc zero)) z g h = ground arith
low_digits (suc (suc (suc zero))) z g h = ground arith
low_digits (suc (suc (suc (suc k)))) z g h = absurd (omega arith)

-- A read of four bytes leaves the sizes of the later reads.
pub read_int-four :
    (z : ℤ) (rest : List ℕ) (ks : List ℕ)
    → IsInt z
    → read_int (record { stream = bytes_of_int z ++ rest; sizes = 4 ∷ ks })
      ≡ (some z, record { stream = rest; sizes = ks })
unfolding read_int bytes_of_int read
read_int-four z rest ks h =
    ap {B = Option ℤ × Conn} (λ v. (some v, record { stream = rest; sizes = ks }))
      (int_of_bytes-bytes_of_int z h)

-- What a read that ends after `k` of the four bytes leaves.
abbrev pub left : ℕ → ℤ → List ℕ → List ℕ → Conn
left k z rest ks = record { stream = drop k (bytes_of_int z) ++ rest; sizes = ks }

-- Such a read takes the `k` bytes for the whole `int`.
pub read_int-cut :
    (k : ℕ) (z : ℤ) (rest : List ℕ) (ks : List ℕ)
    → 0 < k
    → k < 4
    → read_int (record { stream = bytes_of_int z ++ rest; sizes = k ∷ ks })
      ≡ (some (pos (word32 z % 256 ^ k)), left k z rest ks)
unfolding read_int bytes_of_int read
read_int-cut zero z rest ks g h = absurd (omega arith)
read_int-cut (suc zero) z rest ks g h =
    ap {B = Option ℤ × Conn} (λ v. (some v, left 1 z rest ks)) (low_digits 1 z g h)
read_int-cut (suc (suc zero)) z rest ks g h =
    ap {B = Option ℤ × Conn} (λ v. (some v, left 2 z rest ks)) (low_digits 2 z g h)
read_int-cut (suc (suc (suc zero))) z rest ks g h =
    ap {B = Option ℤ × Conn} (λ v. (some v, left 3 z rest ks)) (low_digits 3 z g h)
read_int-cut (suc (suc (suc (suc k)))) z rest ks g h = absurd (omega arith)
