-- ===== src/Wire/Bytes.antt =====
-- What the reads of a connection return when the stream is any bytes at all and any read may be short.

use web_q_final.Prelude.{
  ℕ, zero, suc, ◌<◌, ◌≤◌, ◌^◌, ◌≡◌, ap, refl, arith, List, [], ◌∷◌, Bool, true, false, ◌||◌, length,
  take, drop, Option, none, some, All, All-take, All-drop, length-take, length-drop,
}
use web_q_final.Prelude.Int.{ℤ, IsInt, signed32}
use web_q_final.Wire.{Conn, read, read_int, int_of_bytes, word_of_bytes, some_int, next_size}

abbrev pub IsByte : ℕ → Type 0
IsByte b = b < 256

-- Some byte of the stream is one of these.
abbrev pub any : (ℕ → Bool) → List ℕ → Bool
any p [] = false
any p (b ∷ bs) = p b || any p bs

any-drop : (p : ℕ → Bool) (k : ℕ) (s : List ℕ) → any p (drop k s) ≡ true → any p s ≡ true
any-drop p zero s h = h
any-drop p (suc k) [] h = h
any-drop p (suc k) (b ∷ s) h = ground (arith, any-drop p k s)

any-take : (p : ℕ → Bool) (k : ℕ) (s : List ℕ) → any p (take k s) ≡ true → any p s ≡ true
any-take p zero s h = cc
any-take p (suc k) [] h = h
any-take p (suc k) (b ∷ s) h = ground (arith, any-take p k s)

word_of_bytes-lt : (bs : List ℕ) → length bs ≤ 4 → All IsByte bs → word_of_bytes bs < 2 ^ 32
word_of_bytes-lt [] n h = omega arith
word_of_bytes-lt (a ∷ []) n h = omega arith
word_of_bytes-lt (a ∷ b ∷ []) n h = omega arith
word_of_bytes-lt (a ∷ b ∷ c ∷ []) n h = omega arith
word_of_bytes-lt (a ∷ b ∷ c ∷ d ∷ []) n h = omega arith
word_of_bytes-lt (a ∷ b ∷ c ∷ d ∷ e ∷ r) n h = absurd (omega arith)

int_of_bytes-IsInt : (bs : List ℕ) → word_of_bytes bs < 2 ^ 32 → IsInt (int_of_bytes bs)
unfolding int_of_bytes signed32
int_of_bytes-IsInt bs h = ground arith

abbrev pub IsIntOption : Option ℤ → Type 0
IsIntOption none = Unit {0}
IsIntOption (some v) = IsInt v

some_int-IsIntOption : (bs : List ℕ) → length bs ≤ 4 → All IsByte bs → IsIntOption (some_int bs)
some_int-IsIntOption [] n h = tt
some_int-IsIntOption (b ∷ bs) n h = int_of_bytes-IsInt (b ∷ bs) (word_of_bytes-lt (b ∷ bs) n h)

next_size-le : (n : ℕ) (ks : List ℕ) → next_size n ks ≤ n
next_size-le n [] = omega arith
next_size-le n (k ∷ ks) = omega arith

-- Bytes, among them such as `p` only where `r` says so.
pub record IsConn (p : ℕ → Bool) (r : Bool) (c : Conn) : Type 0 where
  pub bytes : All IsByte c.stream
  pub listed : any p c.stream ≡ true → r ≡ true

module _ (p : ℕ → Bool) (r : Bool) where
  pub read-IsConn : (n : ℕ) (c : Conn) → IsConn p r c → IsConn p r (read n c).1
  unfolding read
  read-IsConn n c v = record {
    bytes = All-drop IsByte (next_size n c.sizes) c.stream v.bytes;
    listed = λ h. v.listed (any-drop p (next_size n c.sizes) c.stream h);
  }

  pub read-listed :
      (n b : ℕ) (bs : List ℕ) (c : Conn)
      → (read n c).0 ≡ b ∷ bs
      → IsConn p r c
      → p b ≡ true
      → r ≡ true
  unfolding read
  read-listed n b bs c e v h = v.listed (any-take p (next_size n c.sizes) c.stream (rw (e, h) refl))

  pub read_int-IsConn : (c : Conn) → IsConn p r c → IsConn p r (read_int c).1
  unfolding read_int
  read_int-IsConn c v = read-IsConn 4 c v

  pub read_int-IsInt : (c : Conn) → IsConn p r c → IsIntOption (read_int c).0
  unfolding read_int read
  read_int-IsInt c v =
      some_int-IsIntOption (take k c.stream)
        (omega (arith, length-take k c.stream, next_size-le 4 c.sizes))
        (All-take IsByte k c.stream v.bytes)
    where
      k : ℕ
      k = next_size 4 c.sizes

pub read-length : (n : ℕ) (c : Conn) → length (read n c).1.stream ≤ length c.stream
unfolding read
read-length n c = omega (arith, length-drop (next_size n c.sizes) c.stream)

pub read_int-length : (c : Conn) → length (read_int c).1.stream ≤ length c.stream
unfolding read_int
read_int-length c = read-length 4 c

-- A read that returns bytes takes them off.
pub read-length_lt :
    (n : ℕ) (c : Conn) (b : ℕ) (bs : List ℕ)
    → (read n c).0 ≡ b ∷ bs
    → length (read n c).1.stream < length c.stream
unfolding read
read-length_lt n c b bs e =
    omega (arith, ap length e, length-take k c.stream, length-drop k c.stream)
  where
    k : ℕ
    k = next_size n c.sizes
