-- ===== src/Controller/Election/Handover/Every.antt =====
-- A test of all numbers below a bound.
use web_q_final.Prelude.{ℕ, zero, suc, ◌<◌, ◌≡◌, refl, arith, Bool, true, ◌&&◌}

abbrev pub every : ℕ → (ℕ → Bool) → Bool
every zero p = true
every (suc k) p = p 0 && every k (λ j. p (suc j))

pub every_cong : (k : ℕ) (p q : ℕ → Bool) → ((j : ℕ) → j < k → p j ≡ q j) → every k p ≡ every k q
every_cong zero p q h = refl
every_cong (suc k) p q h = ground (
  arith,
  h 0 (omega arith),
  every_cong k (λ j. p (suc j)) (λ j. q (suc j)) (λ j l. h (suc j) (omega (arith, l))),
)

pub every_mono :
    (k : ℕ) (p q : ℕ → Bool)
    → ((j : ℕ) → p j ≡ true → q j ≡ true)
    → every k p ≡ true
    → every k q ≡ true
every_mono zero p q h e = refl
every_mono (suc k) p q h e =
    let now : p 0 ≡ true = ground (arith, e) in
    let later : every k (λ j. p (suc j)) ≡ true = ground (arith, e) in
    ground (arith, h 0 now, every_mono k (λ j. p (suc j)) (λ j. q (suc j)) (λ j. h (suc j)) later)

pub every-true : (k : ℕ) (p : ℕ → Bool) → ((j : ℕ) → j < k → p j ≡ true) → every k p ≡ true
every-true zero p h = refl
every-true (suc k) p h =
    ground (
      arith,
      h 0 (omega arith),
      every-true k (λ j. p (suc j)) (λ j l. h (suc j) (omega (arith, l))),
    )
