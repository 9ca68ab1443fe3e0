-- ===== src/Access/Explode.antt =====
-- btp.h: `explode`, and what its parts join to.
use mathlib.Core.Path.{ap₂}
use web_q_final.Prelude.{
  ℕ, ◌≡◌, ◌≢◌, ap, sym, ◌∙◌, refl, arith, List, [], ◌∷◌, ◌++◌, Bool-cases, inl, inr, All, ◌==◌,
  true, false,
}
use web_q_final.Access.{explode, onto_first}

-- The parts with the delimiter between them.
abbrev pub join : List (List ℕ) → ℕ → List ℕ
join [] d = []
join (p ∷ []) d = p
join (p ∷ q ∷ ps) d = p ++ (d ∷ join (q ∷ ps) d)

abbrev pub IsFree : ℕ → List ℕ → Type 0
IsFree d p = All (λ c. c ≢ d) p

join-onto_first : (c d : ℕ) (ps : List (List ℕ)) → join (onto_first c ps) d ≡ c ∷ join ps d
join-onto_first c d [] = refl
join-onto_first c d (p ∷ []) = refl
join-onto_first c d (p ∷ q ∷ ps) = refl

IsFree-onto_first :
    (c d : ℕ) (ps : List (List ℕ)) → c ≢ d → All (IsFree d) ps → All (IsFree d) (onto_first c ps)
IsFree-onto_first c d [] h a = ((h, tt), tt)
IsFree-onto_first c d (p ∷ ps) h a = ((h, a.0), a.1)

first_part : (s : List ℕ) (d : ℕ) → (p : List ℕ) × (ps : List (List ℕ)) × (explode s d ≡ p ∷ ps)
unfolding explode
first_part [] d = ([], [], refl)
first_part (c ∷ s) d = elim (Bool-cases (c == d)) [
  | inl cut ↦ ([], explode s d, rw cut refl)
  | inr on ↦ (let (p, ps, e) = first_part s d in (c ∷ p, ps, rw (on, e) refl))
]

join-cut : (d : ℕ) (s : List ℕ) → join ([] ∷ explode s d) d ≡ d ∷ join (explode s d) d
join-cut d s = let (p, ps, e) = first_part s d in rw e refl

-- The parts that `explode` returns make up the string again, with the delimiter put between them, and
-- no part has the delimiter in it.
pub join-explode : (s : List ℕ) (d : ℕ) → (join (explode s d) d ≡ s) × All (IsFree d) (explode s d)
unfolding explode
join-explode [] d = (refl, (tt, tt))
join-explode (c ∷ s) d =
    let (joined, free) = join-explode s d in
    elim (Bool-cases (c == d)) [
      | inl cut ↦
          rw cut (
            join-cut d s ∙ ap₂ (λ (x : ℕ) (t : List ℕ). x ∷ t) (sym (equal cut)) joined,
            (tt, free),
          )
      | inr on ↦ rw on (
        join-onto_first c d (explode s d) ∙ ap (λ (t : List ℕ). c ∷ t) joined,
        IsFree-onto_first c d (explode s d) (different on) free,
      )
    ]
  where
    equal : (c == d) ≡ true → c ≡ d
    equal h = ground arith

    different : (c == d) ≡ false → c ≢ d
    different h = λ e. ground arith
