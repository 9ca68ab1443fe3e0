-- ===== src/TokenGen/Link/Overrun.antt =====
-- What makes `readFromClient` of TokenGen/src/proxy1.c leave its arrays: connections get_elem?-out the first
-- PEERS, and numbers of controllers that are neither 0 nor 1.
use web_q_final.Prelude.{
  ℕ, ◌≤◌, ◌≡◌, refl, arith, List, ◌++◌, suc, ◌∷◌, length, get_elem?-out, Bool-cases, inl, inr, ◌⊎◌,
  true, ◌==◌,
}
use web_q_final.Prelude.Int.{ℤ, pos, negsuc, IsInt}
use web_q_final.Machine.{fault, nth, ◌>>=◌}
use web_q_final.Net.{Net, IsUp}
use web_q_final.Wire.{read}
use web_q_final.Wire.RoundTrip.{read_int-bytes}
use web_q_final.TokenGen.Link.{
  Link, peers, on_incoming, on_takeover, on_controller, read_from_client, dispatch,
}
use web_q_final.TokenGen.Link.Protocol.{incoming, encode, IsLink}
use web_q_final.TokenGen.Link.Decode.{whole, write_id-up}
use web_q_final.TokenGen.Link.Typed.{names_controller}
use web_q_final.Wire.{bytes_of_int}

-- An incoming rate that is sent on a connection whose number is PEERS or more, followed by any bytes,
-- makes `readFromClient` write past the array `incoming_peers`, with any fuel above 0.
pub read_from_client-overrun :
    (net : Net) (fuel client : ℕ) (x : ℤ) (rest : List ℕ) (l : Link)
    → IsLink l
    → IsInt x
    → peers ≤ client
    → read_from_client net (suc fuel) client (whole (encode (incoming x) ++ rest)) l ≡ fault
unfolding read_from_client dispatch on_incoming read
read_from_client-overrun net fuel client x rest l v h c =
    rw (read_int-bytes x rest h)
      (rw (get_elem?-out l.incoming_peers client (omega (arith, v.five, c)), ◌>>=◌) refl)

abbrev pub IsWild : ℤ → Type 0
IsWild (pos n) = 2 ≤ n
IsWild (negsuc n) = Unit {0}

nth-wild : (xs : List (List ℕ)) (n : ℤ) (l : Link) → length xs ≡ 2 → IsWild n → nth xs n l ≡ fault
nth-wild xs (negsuc n) l v w = refl
nth-wild xs (pos n) l v w = rw (get_elem?-out xs n (omega (arith, v, w)), nth) refl

controller_names : (b : ℕ) → names_controller b ≡ true → (b ≡ b'x') ⊎ (b ≡ b't')
controller_names b h = elim (Bool-cases (b == b'x')) [
  | inl is ↦ inl (ground (arith, is))
  | inr other ↦ inr (ground (arith, h, other))
]

-- With every system call successful: an `x` or a `t`, and behind it a controller's number that is
-- neither 0 nor 1, followed by any bytes, makes `readFromClient` read past the array `ip_controller`,
-- on any connection and with any fuel above 0.
pub read_from_client-wild :
    (net : Net) (fuel client b : ℕ) (n : ℤ) (rest : List ℕ) (l : Link)
    → IsUp net
    → IsLink l
    → IsInt n
    → IsWild n
    → names_controller b ≡ true
    → read_from_client net (suc fuel) client (whole (b ∷ (bytes_of_int n ++ rest))) l ≡ fault
unfolding read_from_client dispatch on_takeover on_controller read
read_from_client-wild net fuel client b n rest l up v h w named = elim (controller_names b named) [
  | inl x ↦
      rw (x, read_int-bytes n rest h)
        (rw (nth-wild l.ip_controller n (record l { local_id = n }) v.pair w, ◌>>=◌) refl)
  | inr t ↦
      rw (t, read_int-bytes n rest h)
        (rw (write_id-up net up (record l { id = n }), ◌>>=◌)
          (rw (nth-wild l.ip_controller n _ v.pair w, ◌>>=◌) refl))
]
