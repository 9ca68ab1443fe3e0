-- ===== src/Access/Notice.antt =====
-- What the capacity estimator is told about a path of the form /a/b/c/d/….
use mathlib.Core.List.{append-nil}
use web_q_final.Prelude.{
  ℕ, zero, suc, ◌<◌, ◌^◌, ◌≡◌, ◌∙◌, ap, refl, arith, List, [], ◌∷◌, ◌++◌, length, All,
  if◌then◌else◌, ltb, true, none, get_elem?,
}
use web_q_final.Prelude.Int.{ℤ, pos, eqb_ℤ}
use web_q_final.Machine.{done, fault}
use web_q_final.Text.{codes, decimal, strcmp_eq}
use web_q_final.Access.{
  explode, strtok_all, drop_empty, url_of, as_long, inform_proxy1_arrival, inform_proxy1_departure,
}
use web_q_final.Access.Explode.{IsFree}

-- A part of a path: not empty, and without a slash.
abbrev pub IsPart : List ℕ → Type 0
IsPart p = (0 < length p) × IsFree b'/' p

abbrev pub slashes : List (List ℕ) → List ℕ
slashes [] = []
slashes (p ∷ ps) = b'/' ∷ (p ++ slashes ps)

explode-free : (p s : List ℕ) → IsFree b'/' p → explode (p ++ (b'/' ∷ s)) b'/' ≡ p ∷ explode s b'/'
unfolding explode
explode-free [] s h = refl
explode-free (c ∷ p) s h = rw (explode-free p s h.1) (ground arith)

explode-last : (p : List ℕ) → IsFree b'/' p → explode p b'/' ≡ p ∷ []
unfolding explode
explode-last [] h = refl
explode-last (c ∷ p) h = rw (explode-last p h.1) (ground arith)

kept : (p : List ℕ) (ps : List (List ℕ)) → 0 < length p → drop_empty (p ∷ ps) ≡ p ∷ drop_empty ps
kept [] ps h = absurd (omega arith)
kept (c ∷ p) ps h = refl

tokens :
    (p : List ℕ) (ps : List (List ℕ))
    → All IsPart (p ∷ ps)
    → drop_empty (explode (p ++ slashes ps) b'/') ≡ p ∷ ps
tokens p [] h = rw (append-nil, explode-last p h.0.1) (kept p [] h.0.0)
tokens p (q ∷ ps) h =
    rw (explode-free p (q ++ slashes ps) h.0.1)
      (kept p (explode (q ++ slashes ps) b'/') h.0.0 ∙ ap (λ t. p ∷ t) (tokens q ps h.1))

strtok_all-slashes : (ps : List (List ℕ)) → All IsPart ps → strtok_all (slashes ps) ≡ ps
unfolding strtok_all explode
strtok_all-slashes [] h = refl
strtok_all-slashes (p ∷ ps) h = tokens p ps h

abbrev pub class_of : List ℕ → List ℕ
class_of d = if strcmp_eq d (codes "req1.php") then b'0' ∷ [] else b'1' ∷ []

-- On a path of at least four parts that has fewer than 300 characters, an arrival is told as `A_` and
-- the class of the fourth part, and a departure with that class behind the service time (below 2 ^ 63)
-- for the status 200, and behind `F` for any other. The class is 0 for req1.php, and else 1.
pub inform_proxy1-four :
    (a b c d : List ℕ) (ps : List (List ℕ)) (time : ℕ) (status : ℤ)
    → All IsPart (a ∷ b ∷ c ∷ d ∷ ps)
    → length (slashes (a ∷ b ∷ c ∷ d ∷ ps)) < 300
    → time < 2 ^ 63
    → (inform_proxy1_arrival (slashes (a ∷ b ∷ c ∷ d ∷ ps))
        ≡ done (b'A' ∷ b'_' ∷ (class_of d ++ (b'\n' ∷ []))))
      × (inform_proxy1_departure time status (slashes (a ∷ b ∷ c ∷ d ∷ ps))
          ≡ done (
              (if eqb_ℤ status (pos 200) then decimal (pos time) else b'F' ∷ [])
              ++ (b'_' ∷ (class_of d ++ (b'\n' ∷ [])))))
unfolding inform_proxy1_arrival inform_proxy1_departure url_of as_long
inform_proxy1-four a b c d ps time status h short small =
    rw (strtok_all-slashes (a ∷ b ∷ c ∷ d ∷ ps) h, in_array, signed) (refl, refl)
  where
    in_array : ltb (length (slashes (a ∷ b ∷ c ∷ d ∷ ps))) 300 ≡ true
    in_array = ground (arith, short)

    signed : ltb time (2 ^ 63) ≡ true
    signed = ground (arith, small)

-- On a path of fewer than four parts, both calls read a string at NULL, or have written past their copy
-- of the path before.
pub inform_proxy1-short :
    (ps : List (List ℕ)) (time : ℕ) (status : ℤ)
    → All IsPart ps
    → length ps < 4
    → (inform_proxy1_arrival (slashes ps) ≡ fault)
      × (inform_proxy1_departure time status (slashes ps) ≡ fault)
unfolding inform_proxy1_arrival inform_proxy1_departure url_of
inform_proxy1-short ps time status h few =
    rw (strtok_all-slashes ps h, beyond ps 3 few) (ground arith)
  where
    beyond : (xs : List (List ℕ)) (i : ℕ) → length xs < suc i → get_elem? xs i ≡ none
    beyond [] i h = refl
    beyond (x ∷ xs) zero h = absurd (omega arith)
    beyond (x ∷ xs) (suc i) h = beyond xs i (omega arith)
