-- ===== src/Machine.antt =====
-- How a thread of the program runs: a state of shared variables, and the ways in which it can end.
use web_q_final.Prelude.{ℕ, List, get_elem?, none, some}
use web_q_final.Prelude.Int.{ℤ, pos, negsuc}

-- `exit` is a call of `exit(code)`; `fault` is an access outside an array.
pub data Outcome (A : Type 0) : Type 0 where
  done : A → Outcome A
  exit : ℕ → Outcome A
  fault : Outcome A

abbrev pub M : Type 0 → Type 0 → Type 0
M S A = S → Outcome (A × S)

abbrev pub pure : {S A : Type 0} → A → M S A
pure a s = done (a, s)

infixl 5 ◌>>=◌ ◌>>◌
abbrev pub ◌>>=◌ : {S A B : Type 0} → M S A → (A → M S B) → M S B
◌>>=◌ m f s = elim (m s) [ done (a, s') ↦ f a s' | exit n ↦ exit n | fault ↦ fault ]

abbrev pub ◌>>◌ : {S B : Type 0} → M S (Unit {0}) → M S B → M S B
m >> k = m >>= λ _. k

abbrev pub get : {S : Type 0} → M S S
get s = done (s, s)

abbrev pub modify : {S : Type 0} → (S → S) → M S (Unit {0})
modify f s = done (tt, f s)

abbrev pub stop : {S A : Type 0} → ℕ → M S A
stop n s = exit n

-- A read of `xs[i]`.
abbrev pub nth : {S A : Type 0} → List A → ℤ → M S A
nth xs (pos i) s = elim (get_elem? xs i) [ none ↦ fault | some a ↦ done (a, s) ]
nth xs (negsuc i) s = fault
