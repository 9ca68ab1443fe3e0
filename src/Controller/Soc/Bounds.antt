-- ===== src/Controller/Soc/Bounds.antt =====
-- calcSoc of Controller/src/proxy1.c: the shares and the capacity.
use mathlib.Core.Path.{subst}
use native.Mathlib.Nat.{div-le_self}
use web_q_final.Prelude.{
  ℕ, zero, suc, ◌≤◌, ◌<◌, ◌^◌, ◌/◌, ◌≡◌, ◌∙◌, ap, refl, arith, List, [], ◌∷◌, ◌++◌, true, false,
  take, drop, map, length, length-map, length-take, sym, if◌then◌else◌, ltb, get_or, All,
  Bool-cases, inl, inr,
}
use web_q_final.Prelude.Int.{ℤ, pos, pos_part, eqb_ℤ, scale, int32, int32-eq}
use web_q_final.Floats.{FloatOps, FloatLaws}
use web_q_final.Machine.{done}
use web_q_final.Controller.{Control, peers, share_out, sum_rates, rate_share, even_share, calc_soc}

get_or-map_append :
    {A B : Type 0} (f : A → B) (xs : List A) (ys : List B) (i : ℕ) (d : B) (e : A)
    → i < length xs
    → get_or (map f xs ++ ys) i d ≡ f (get_or xs i e)
get_or-map_append f [] ys i d e h = absurd (omega arith)
get_or-map_append f (x ∷ xs) ys zero d e h = refl
get_or-map_append f (x ∷ xs) ys (suc i) d e h = get_or-map_append f xs ys i d e (omega arith)

pub get_or-take :
    {A : Type 0} (n : ℕ) (xs : List A) (i : ℕ) (d : A)
    → i < n
    → get_or (take n xs) i d ≡ get_or xs i d
get_or-take zero xs i d h = absurd (omega arith)
get_or-take (suc n) [] i d h = refl
get_or-take (suc n) (x ∷ xs) zero d h = refl
get_or-take (suc n) (x ∷ xs) (suc i) d h = get_or-take n xs i d (omega arith)

pub All-get_or :
    {A : Type 0} (P : A → Type 0) (xs : List A) (i : ℕ) (d : A)
    → All P xs
    → i < length xs
    → P (get_or xs i d)
All-get_or P [] i d h k = absurd (omega arith)
All-get_or P (x ∷ xs) zero d h k = h.0
All-get_or P (x ∷ xs) (suc i) d h k = All-get_or P xs i d h.1 (omega arith)

All-take : {A : Type 0} (P : A → Type 0) (n : ℕ) (xs : List A) → All P xs → All P (take n xs)
All-take P zero xs h = tt
All-take P (suc n) [] h = tt
All-take P (suc n) (x ∷ xs) h = (h.0, All-take P n xs h.1)

int32-pos : (m : ℕ) (z : ℤ) → z ≡ pos m → m < 2 ^ 31 → int32 z ≡ pos m
int32-pos m z e l = ap int32 e ∙ int32-eq (pos m) (l, omega arith)

module _ {F : Type 0} (ops : FloatOps F) where
  open ops use {of_int, add, div, mul, eq, round}

  -- The sum of the rates of the first `n` TokenGens.
  abbrev pub total : ℕ → Control F → F
  total n s = sum_rates ops (of_int (pos 0)) (map of_int (take n s.incoming_r))

  -- What a TokenGen is given that reported `x`.
  abbrev pub granted : ℕ → F → ℤ → ℤ → ℤ
  granted n all cap x =
      if eq all (of_int (pos 0)) then even_share n cap else rate_share ops all cap (of_int x)

  pub share_out-granted :
      (n tg : ℕ) (s : Control F)
      → tg < n
      → n ≤ length s.incoming_r
      → get_or (share_out ops n s).soc tg (pos 0)
        ≡ granted n (total n s) s.capacity (get_or s.incoming_r tg (pos 0))
  unfolding share_out
  share_out-granted n tg s h k = elim (Bool-cases (eq (total n s) (of_int (pos 0)))) [
    | inl idle ↦ rw idle (entry (λ _. even_share n s.capacity))
    | inr busy ↦ rw busy (entry (rate_share ops (total n s) s.capacity))
  ]
    where
      xs : List ℤ
      xs = take n s.incoming_r

      entry :
          (f : F → ℤ)
          → get_or (map f (map of_int xs) ++ drop n s.soc) tg (pos 0)
            ≡ f (of_int (get_or s.incoming_r tg (pos 0)))
      entry f =
          get_or-map_append f (map of_int xs) (drop n s.soc) tg (pos 0) (of_int (pos 0))
            (omega (arith, length-map xs of_int, length-take n s.incoming_r, h, k))
          ∙ ap f (get_or-map xs tg ∙ ap of_int (get_or-take n s.incoming_r tg (pos 0) h))
        where
          get_or-map :
              (us : List ℤ) (i : ℕ)
              → get_or (map of_int us) i (of_int (pos 0)) ≡ of_int (get_or us i (pos 0))
          get_or-map [] i = refl
          get_or-map (u ∷ us) zero = refl
          get_or-map (u ∷ us) (suc i) = get_or-map us i

  module _ (laws : FloatLaws ops) where
    open laws use {Le, le_refl, le_trans, le-of_int, le-add, le-div, le-mul, round_le}

    -- A count that fits an `int`.
    abbrev pub IsCount : ℤ → Type 0
    IsCount x = (x ≡ pos (pos_part x)) × (pos_part x < 2 ^ 31)

    count-Le : (x : ℤ) → IsCount x → Le (of_int (pos 0)) (of_int x)
    count-Le x (e, h) = rw e (le-of_int 0 (pos_part x) h (omega arith))

    -- A sum is no less than what it starts from, and than each of its parts.
    sum_rates-grows :
        (xs : List ℤ) (acc : F)
        → All IsCount xs
        → Le (of_int (pos 0)) acc
        → Le acc (sum_rates ops acc (map of_int xs))
    unfolding sum_rates
    sum_rates-grows [] acc h p = le_refl acc
    sum_rates-grows (x ∷ xs) acc h p =
        let more = le-add acc (of_int x) p (count-Le x h.0) in
        le_trans _ _ _ more.0
          (sum_rates-grows xs (add acc (of_int x)) h.1 (le_trans _ _ _ p more.0))

    pub sum_rates-part :
        (xs : List ℤ) (acc : F) (i : ℕ)
        → All IsCount xs
        → Le (of_int (pos 0)) acc
        → i < length xs
        → Le (of_int (get_or xs i (pos 0))) (sum_rates ops acc (map of_int xs))
    unfolding sum_rates
    sum_rates-part [] acc i h p k = absurd (omega arith)
    sum_rates-part (x ∷ xs) acc zero h p k =
        let more = le-add acc (of_int x) p (count-Le x h.0) in
        le_trans _ _ _ more.1
          (sum_rates-grows xs (add acc (of_int x)) h.1 (le_trans _ _ _ p more.0))
    sum_rates-part (x ∷ xs) acc (suc i) h p k =
        let more = le-add acc (of_int x) p (count-Le x h.0) in
        sum_rates-part xs (add acc (of_int x)) i h.1 (le_trans _ _ _ p more.0) (omega arith)

    even_share-bounds :
        (n c : ℕ)
        → c ≤ 2 ^ 24
        → (even_share n (pos c) ≡ pos (pos_part (even_share n (pos c))))
          × pos_part (even_share n (pos c)) ≤ c
    even_share-bounds n c h = go (1 / n) (div-le_self 1 n)
      where
        go :
            (q : ℕ)
            → q ≤ 1
            → (int32 (scale q (pos c)) ≡ pos (pos_part (int32 (scale q (pos c)))))
              × pos_part (int32 (scale q (pos c))) ≤ c
        go zero k =
            rw (int32-pos 0 (scale 0 (pos c)) (ground arith) (omega arith)) (refl, omega arith)
        go (suc zero) k =
            rw (int32-pos c (scale 1 (pos c)) (ground arith) (omega arith)) (refl, omega arith)
        go (suc (suc q)) k = absurd (omega arith)

    -- A share is a count up to the capacity.
    pub granted-bounds :
        (n c : ℕ) (all : F) (x : ℤ)
        → 1 ≤ c
        → c ≤ 2 ^ 24
        → IsCount x
        → Le (of_int x) all
        → (granted n all (pos c) x ≡ pos (pos_part (granted n all (pos c) x)))
          × pos_part (granted n all (pos c) x) ≤ c
    unfolding rate_share
    granted-bounds n c all x some exact (e, small) h = elim (Bool-cases (eq all (of_int (pos 0)))) [
      | inl idle ↦ rw idle (even_share-bounds n c exact)
      | inr busy ↦ rw busy (elim (Bool-cases (eq (of_int x) (of_int (pos 0)))) [
        | inl none_in ↦ rw none_in (refl, some)
        | inr some_in ↦ rw some_in (
            let q = le-div (pos_part x) all small (subst (λ z. Le (of_int z) all) e h) busy in
            let v = le-mul (div (of_int (pos (pos_part x))) all) c (omega arith) q.0 q.1 in
            subst
              (λ z.
                (round (mul (div (of_int z) all) (of_int (pos c)))
                  ≡ pos (pos_part (round (mul (div (of_int z) all) (of_int (pos c))))))
                × pos_part (round (mul (div (of_int z) all) (of_int (pos c)))) ≤ c)
              (sym e) (round_le _ c exact v.0 v.1))
      ])
    ]

    pub share_out-bounds :
        (n c tg : ℕ) (s : Control F)
        → tg < n
        → n ≤ length s.incoming_r
        → s.capacity ≡ pos c
        → 1 ≤ c
        → c ≤ 2 ^ 24
        → All IsCount s.incoming_r
        → (get_or (share_out ops n s).soc tg (pos 0)
            ≡ pos (pos_part (get_or (share_out ops n s).soc tg (pos 0))))
          × pos_part (get_or (share_out ops n s).soc tg (pos 0)) ≤ c
    share_out-bounds n c tg s h k cap some exact counts =
        rw (share_out-granted n tg s h k, cap)
          (granted-bounds n c (total n s) (get_or s.incoming_r tg (pos 0)) some exact
            (All-get_or IsCount s.incoming_r tg (pos 0) counts (omega arith))
            (subst (λ z. Le (of_int z) (total n s)) (get_or-take n s.incoming_r tg (pos 0) h)
              (sum_rates-part (take n s.incoming_r) (of_int (pos 0)) tg
                (All-take IsCount n s.incoming_r counts) (le_refl _)
                (omega (arith, length-take n s.incoming_r)))))

    -- At the controller in charge, with at most PEERS TokenGens and their rates in an array of that
    -- size, all of them counts that fit an `int`, and a capacity from 1 to 2 ^ 24: `calcSoc` returns,
    -- and the share of each TokenGen is a count up to the capacity, by these laws of the
    -- floating-point operations.
    pub calc_soc-bounds :
        (s : Control F) (c : ℕ)
        → eqb_ℤ s.id s.my_id ≡ true
        → pos_part s.no_of_proxy ≤ peers
        → length s.incoming_r ≡ peers
        → s.capacity ≡ pos c
        → 1 ≤ c
        → c ≤ 2 ^ 24
        → All IsCount s.incoming_r
        → (s' : Control F) × (calc_soc ops s ≡ done (tt, s'))
          × ((tg : ℕ)
              → tg < pos_part s.no_of_proxy
              → (get_or s'.soc tg (pos 0) ≡ pos (pos_part (get_or s'.soc tg (pos 0))))
                × pos_part (get_or s'.soc tg (pos 0)) ≤ c)
    unfolding calc_soc
    calc_soc-bounds s c mine few size cap some exact counts = (
      share_out ops n s,
      rw (mine, in_range n few) refl,
      λ tg h. share_out-bounds n c tg s h (omega (arith, size, few)) cap some exact counts,
    )
      where
        n : ℕ
        n = pos_part s.no_of_proxy

        in_range : (n : ℕ) → n ≤ peers → ltb peers n ≡ false
        in_range n h = ground arith
