-- ===== src/TokenGen/Reply/Hash.antt =====
-- `getHash` and `get_token` of functions.h, with the sizes of their arrays.
use web_q_final.Prelude.{
  ℕ, ◌*◌, ◌^◌, ◌≤◌, ◌<◌, ◌≡◌, refl, arith, List, [], ◌∷◌, ◌++◌, length, length-append,
}
use web_q_final.Prelude.Int.{pos}
use web_q_final.Machine.{done, fault}
use web_q_final.Text.{decimal, decimal_ℕ}
use web_q_final.Text.Decimal.{length-decimal_ℕ}
use web_q_final.TokenGen.Reply.{Hmac, token_text, get_token, hex, get_hash}

length-hex : (bs : List ℕ) → length (hex bs) ≡ 2 * length bs
unfolding hex
length-hex [] = refl
length-hex (b ∷ bs) = omega (arith, length-hex bs)

-- Where the code is the 16 bytes of an HMAC-MD5, and the byte behind `res_hexstring` is in use, the 0
-- that `sprintf` puts behind the digits goes past the array, for every token.
pub get_hash-overrun :
    (hmac : Hmac) (token : List ℕ)
    → length (hmac.code token) ≡ 16
    → hmac.spare ≡ 0
    → get_hash hmac token ≡ fault
unfolding get_hash
get_hash-overrun hmac token h none = ground (arith, h, none, length-hex (hmac.code token))

-- A code has 16 bytes, and one byte behind `res_hexstring` is spare.
abbrev pub IsHmac : Hmac → Type 0
IsHmac hmac = ((token : List ℕ) → length (hmac.code token) ≡ 16) × (1 ≤ hmac.spare)

pub get_hash-fits :
    (hmac : Hmac) (token : List ℕ)
    → IsHmac hmac
    → get_hash hmac token ≡ done (hex (hmac.code token))
unfolding get_hash
get_hash-fits hmac token (h, some) = ground (arith, h token, some, length-hex (hmac.code token))

-- A token for an address of at most 15 characters, a time of the years to 2286 (below 10 ^ 10) and a
-- wait below 1000 fits the 50 bytes of its array, the final 0 included.
token_text-fits :
    (addr : List ℕ) (now wait : ℕ)
    → length addr ≤ 15
    → now < 10 ^ 10
    → wait < 1000
    → length (token_text addr (pos now) (pos wait)) < 50
unfolding token_text decimal
token_text-fits addr now wait a n w = omega (
  arith,
  length-append addr
      (b'%' ∷ b'7' ∷ b'C' ∷ (decimal_ℕ now ++ (b'%' ∷ b'7' ∷ b'C' ∷ decimal_ℕ wait))),
  length-append (decimal_ℕ now) (b'%' ∷ b'7' ∷ b'C' ∷ decimal_ℕ wait),
  length-decimal_ℕ 9 now n,
  length-decimal_ℕ 2 wait w,
)

pub get_token-fits :
    (addr : List ℕ) (now wait : ℕ)
    → length addr ≤ 15
    → now < 10 ^ 10
    → wait < 1000
    → get_token addr (pos now) (pos wait) ≡ done (token_text addr (pos now) (pos wait))
unfolding get_token
get_token-fits addr now wait a n w = ground (arith, token_text-fits addr now wait a n w)
