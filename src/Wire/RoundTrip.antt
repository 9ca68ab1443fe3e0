-- ===== src/Wire/RoundTrip.antt =====
-- An `int` that is written and read.
use web_q_final.Prelude.{ℕ, ◌≡◌, List, [], ◌++◌, arith, ap, ◌∙◌, some, Option}
use web_q_final.Prelude.Int.{ℤ, word32, signed32, signed32-word32, word32-lt, IsInt}
use web_q_final.Wire.{bytes_of_int, int_of_bytes, word_of_bytes, Conn, read_int}

word_of_bytes-bytes_of_int : (z : ℤ) → word_of_bytes (bytes_of_int z) ≡ word32 z
word_of_bytes-bytes_of_int z = unfold bytes_of_int in omega (arith, word32-lt z)

pub int_of_bytes-bytes_of_int : (z : ℤ) → IsInt z → int_of_bytes (bytes_of_int z) ≡ z
int_of_bytes-bytes_of_int z h =
    unfold int_of_bytes in ap signed32 (word_of_bytes-bytes_of_int z) ∙ signed32-word32 z h

-- On a connection whose reads are not cut short, `read_int` takes the four bytes of an `int` off the
-- stream and returns that `int`.
pub read_int-bytes :
    (z : ℤ) (rest : List ℕ)
    → IsInt z
    → read_int (record { stream = bytes_of_int z ++ rest; sizes = [] })
      ≡ (some z, record { stream = rest; sizes = [] })
unfolding read_int bytes_of_int
read_int-bytes z rest h =
    ap {B = Option ℤ × Conn} (λ v. (some v, record { stream = rest; sizes = [] }))
      (int_of_bytes-bytes_of_int z h)
