-- ===== src/Wire.antt =====
-- The bytes that the parts of WebQ exchange, and the reads of a connection. An `int` travels as its
-- four bytes, lowest first.
pub mod RoundTrip
pub mod Bytes
pub mod Cut
pub mod Loop
use Prim.Native.Nat.{min}
use web_q_final.Prelude.{ℕ, ◌+◌, ◌*◌, ◌/◌, ◌%◌, List, [], ◌∷◌, take, drop, Option, none, some}
use web_q_final.Prelude.Int.{ℤ, word32, signed32}

unfoldable pub bytes_of_int : ℤ → List ℕ
unfolding word32
bytes_of_int z =
    let w = word32 z in w % 256 ∷ w / 256 % 256 ∷ w / 65536 % 256 ∷ w / 16777216 % 256 ∷ []

abbrev pub word_of_bytes : List ℕ → ℕ
word_of_bytes [] = 0
word_of_bytes (b ∷ bs) = b + 256 * word_of_bytes bs

-- What `*buffer` holds after `bzero` and a read of these bytes.
unfoldable pub int_of_bytes : List ℕ → ℤ
unfolding signed32
int_of_bytes bs = signed32 (word_of_bytes bs)

-- The bytes that are to arrive, and how many of them the next calls of `read` return at most; past
-- the end of that list a call returns all that it asked for.
pub record Conn : Type 0 where
  pub stream : List ℕ
  pub sizes : List ℕ

abbrev pub next_size : ℕ → List ℕ → ℕ
next_size n [] = n
next_size n (k ∷ ks) = min n k

abbrev pub later_sizes : List ℕ → List ℕ
later_sizes [] = []
later_sizes (k ∷ ks) = ks

-- `read(fd, buffer, n)`: no bytes at the end of the stream, or on an error (a size of 0).
unfoldable pub read : ℕ → Conn → List ℕ × Conn
read n c = (
  take (next_size n c.sizes) c.stream,
  record { stream = drop (next_size n c.sizes) c.stream; sizes = later_sizes c.sizes },
)

abbrev pub some_int : List ℕ → Option ℤ
some_int [] = none
some_int (b ∷ bs) = some (int_of_bytes (b ∷ bs))

-- `bzero(buffer, bytes); read(fd, buffer, sizeof(int))`, and `*buffer` if the result is positive.
unfoldable pub read_int : Conn → Option ℤ × Conn
unfolding read
read_int c = let (chunk, c') = read 4 c in (some_int chunk, c')
