-- ===== src/Controller/Soc/Sum.antt =====
-- calcSoc of Controller/src/proxy1.c: all shares together, against the capacity.
use native.Mathlib.Nat.{mul-le-mul_left}
use web_q_final.Prelude.{
  ℕ, suc, ◌+◌, ◌*◌, ◌≤◌, ◌<◌, ◌^◌, ◌≡◌, ◌∙◌, ap, refl, sym, arith, List, [], ◌∷◌, ◌++◌, true, false,
  take, drop, map, length, length-map, take-append_length, if◌then◌else◌, ltb, dec_lt, ◌==◌,
  Bool-cases, inl, inr, All,
}
use web_q_final.Prelude.Int.{ℤ, pos, pos_part, eqb_ℤ}
use web_q_final.Floats.{FloatOps, RatioLaws}
use web_q_final.Machine.{done}
use web_q_final.Controller.{Control, peers, share_out, sum_rates, rate_share, calc_soc}

abbrev pub sum : List ℕ → ℕ
sum [] = 0
sum (x ∷ xs) = x + sum xs

-- What a TokenGen makes of a share: `main` raises 0 to 1.
abbrev pub raised : ℤ → ℕ
raised z = if pos_part z == 0 then 1 else pos_part z

-- Each share weighs its rate, and one more for the rounding.
le-part : (x t c : ℕ) → x ≤ t → c ≤ 2 ^ 20 → x * c ≤ t * 2 ^ 20
le-part x t c h k = grind arith

in_range :
    (m t : ℕ)
    → m ≤ t * 2 ^ 20
    → 0 < t
    → m * ((2 ^ 24 + 1) * (2 ^ 24 + 1)) < t * 2 ^ 24 * 2 ^ 24 * 2 ^ 30
in_range m t h k = omega arith

numerator : (x c : ℕ) → x * (2 ^ 24 + 1) * c * (2 ^ 24 + 1) ≡ x * c * ((2 ^ 24 + 1) * (2 ^ 24 + 1))
numerator x c = grind arith

weigh :
    (t m : ℕ) (z : ℤ)
    → 2 * (t * 2 ^ 24 * 2 ^ 24 * pos_part z)
      ≤ 2 * (m * ((2 ^ 24 + 1) * (2 ^ 24 + 1))) + t * 2 ^ 24 * 2 ^ 24
    → t * raised z * (2 ^ 24 * 2 ^ 24) ≤ m * ((2 ^ 24 + 1) * (2 ^ 24 + 1)) + t * (2 ^ 24 * 2 ^ 24)
weigh t m z h = elim (Bool-cases (pos_part z == 0)) [
  | inl nothing ↦ rw nothing (omega arith)
  | inr some ↦ rw some (grind arith)
]

-- What is left of the weights when their sum is divided out.
whole_part :
    (t w c n : ℕ)
    → 0 < t
    → c ≤ 2 ^ 20
    → t * w * (2 ^ 24 * 2 ^ 24)
      ≤ t * c * ((2 ^ 24 + 1) * (2 ^ 24 + 1)) + n * (t * (2 ^ 24 * 2 ^ 24))
    → w ≤ c + n
whole_part t w c n k m h = elim (dec_lt (c + n) w) [
  | yes over ↦
      absurd
        (refute (t * w) (t * c) (t * n) h' (more (mul-le-mul_left t over)) (mul-le-mul_left t m))
  | no fits ↦ omega arith
]
  where
    h' :
        t * w * (2 ^ 24 * 2 ^ 24)
        ≤ t * c * ((2 ^ 24 + 1) * (2 ^ 24 + 1)) + t * n * (2 ^ 24 * 2 ^ 24)
    h' = grind arith

    more : t * suc (c + n) ≤ t * w → t * c + t * n + t ≤ t * w
    more p = grind arith

    refute :
        (a b d : ℕ)
        → a * (2 ^ 24 * 2 ^ 24) ≤ b * ((2 ^ 24 + 1) * (2 ^ 24 + 1)) + d * (2 ^ 24 * 2 ^ 24)
        → b + d + t ≤ a
        → b ≤ t * 2 ^ 20
        → ⊥
    refute a b d p q r = omega arith

module _ {F : Type 0} (ops : FloatOps F) (laws : RatioLaws ops) where
  open ops use {of_int, add, div, mul, eq, round}
  open laws use {AtMost, add_exact, eq_exact, div-AtMost, mul-AtMost, round-AtMost}

  rate_share-weight :
      (x t c : ℕ)
      → x ≤ t
      → 0 < t
      → t ≤ 2 ^ 24
      → c ≤ 2 ^ 20
      → let s = rate_share ops (of_int (pos t)) (pos c) (of_int (pos x)) in
        (s ≡ pos (pos_part s))
        × (t * raised s * (2 ^ 24 * 2 ^ 24)
            ≤ x * c * ((2 ^ 24 + 1) * (2 ^ 24 + 1)) + t * (2 ^ 24 * 2 ^ 24))
  unfolding rate_share
  rate_share-weight x t c h k l m = elim (Bool-cases (x == 0)) [
    | inl idle ↦ rw (eq_exact x 0 (omega arith) (omega arith), idle) (refl, omega arith)
    | inr busy ↦
        rw (eq_exact x 0 (omega arith) (omega arith), busy)
          (let d = div-AtMost x t h k l in
            let v = mul-AtMost _ _ _ c (omega arith) (omega arith) d in
            let r =
              round-AtMost _ _ _ (omega arith)
                (rw (numerator x c) (in_range (x * c) t (le-part x t c h m) k)) v in
            (
              r.0,
              weigh t (x * c) (round (mul (div (of_int (pos x)) (of_int (pos t))) (of_int (pos c))))
                  (rw (numerator x c) at r.1),
            ))
  ]

  sum_rates-exact :
      (xs : List ℕ) (a : ℕ)
      → a + sum xs ≤ 2 ^ 24
      → sum_rates ops (of_int (pos a)) (map of_int (map pos xs)) ≡ of_int (pos (a + sum xs))
  unfolding sum_rates
  sum_rates-exact [] a h = ap (λ n. of_int (pos n)) (omega arith)
  sum_rates-exact (x ∷ xs) a h =
      rw (sum_rates, add_exact a x (omega arith))
        (sum_rates-exact xs (a + x) (omega arith) ∙ ap (λ n. of_int (pos n)) (omega arith))

  -- The shares for these rates, whose sum is `t`.
  abbrev pub shares : ℕ → ℕ → List ℕ → List ℤ
  shares t c xs = map (rate_share ops (of_int (pos t)) (pos c)) (map of_int (map pos xs))

  abbrev pub AreCounts : List ℤ → Type 0
  AreCounts ss = All (λ s. s ≡ pos (pos_part s)) ss

  shares-weight :
      (xs : List ℕ) (t c : ℕ)
      → sum xs ≤ t
      → 0 < t
      → t ≤ 2 ^ 24
      → c ≤ 2 ^ 20
      → AreCounts (shares t c xs)
        × (t * sum (map raised (shares t c xs)) * (2 ^ 24 * 2 ^ 24)
            ≤ sum xs * c * ((2 ^ 24 + 1) * (2 ^ 24 + 1)) + length xs * (t * (2 ^ 24 * 2 ^ 24)))
  shares-weight [] t c h k l m = (tt, grind arith)
  shares-weight (x ∷ xs) t c h k l m =
      let (e, w) = rate_share-weight x t c (omega arith) k l m in
      let (es, ws) = shares-weight xs t c (omega arith) k l m in ((e, es), grind arith)

  pub shares-sum :
      (xs : List ℕ) (c : ℕ)
      → 0 < sum xs
      → sum xs ≤ 2 ^ 24
      → c ≤ 2 ^ 20
      → AreCounts (shares (sum xs) c xs) × (sum (map raised (shares (sum xs) c xs)) ≤ c + length xs)
  shares-sum xs c k l m =
      let (e, w) = shares-weight xs (sum xs) c (omega arith) k l m in
      (e, whole_part (sum xs) _ c (length xs) k m w)

  total-exact :
      (xs : List ℕ)
      → sum xs ≤ 2 ^ 24
      → sum_rates ops (of_int (pos 0)) (map of_int (map pos xs)) ≡ of_int (pos (sum xs))
  total-exact xs h = sum_rates-exact xs 0 (omega arith) ∙ ap (λ n. of_int (pos n)) (omega arith)

  length-shares : (t c : ℕ) (xs : List ℕ) → length (shares t c xs) ≡ length xs
  length-shares t c xs =
      length-map (map of_int (map pos xs)) (rate_share ops (of_int (pos t)) (pos c))
      ∙ length-map (map pos xs) of_int
      ∙ length-map xs pos

  pub share_out-shares :
      (s : Control F) (xs : List ℕ) (c : ℕ)
      → take (length xs) s.incoming_r ≡ map pos xs
      → s.capacity ≡ pos c
      → 0 < sum xs
      → sum xs ≤ 2 ^ 24
      → take (length xs) (share_out ops (length xs) s).soc ≡ shares (sum xs) c xs
  unfolding share_out
  share_out-shares s xs c rates cap some exact =
      rw (rates, total-exact xs exact, eq_exact (sum xs) 0 exact (omega arith), busy, cap)
        (ap (λ k. take k (shares (sum xs) c xs ++ drop (length xs) s.soc))
            (sym (length-shares (sum xs) c xs))
          ∙ take-append_length (shares (sum xs) c xs) (drop (length xs) s.soc))
    where
      busy : (sum xs == 0) ≡ false
      busy = ground (arith, some)

  -- At the controller in charge, with at most PEERS TokenGens whose rates are counts that add up to t,
  -- from 1 to 2 ^ 24, and a capacity up to 2 ^ 20: `calcSoc` returns, its shares for these TokenGens are
  -- counts, and all together, with 1 for each share of 0, they are at most the capacity and one more for
  -- each TokenGen, by these laws of the floating-point operations.
  pub calc_soc-sum :
      (s : Control F) (xs : List ℕ) (c : ℕ)
      → eqb_ℤ s.id s.my_id ≡ true
      → pos_part s.no_of_proxy ≡ length xs
      → length xs ≤ peers
      → take (length xs) s.incoming_r ≡ map pos xs
      → s.capacity ≡ pos c
      → c ≤ 2 ^ 20
      → 0 < sum xs
      → sum xs ≤ 2 ^ 24
      → (s' : Control F) × (calc_soc ops s ≡ done (tt, s'))
        × AreCounts (take (length xs) s'.soc)
        × (sum (map raised (take (length xs) s'.soc)) ≤ c + length xs)
  unfolding calc_soc
  calc_soc-sum s xs c mine many few rates cap small some exact = (
    share_out ops (length xs) s,
    rw (mine, many, in_array) refl,
    rw e (shares-sum xs c some exact small).0,
    rw e (shares-sum xs c some exact small).1,
  )
    where
      in_array : ltb peers (length xs) ≡ false
      in_array = ground (arith, few)

      e : take (length xs) (share_out ops (length xs) s).soc ≡ shares (sum xs) c xs
      e = share_out-shares s xs c rates cap some exact
