-- ===== src/Controller/Election/Ballot.antt =====
-- Votes as entries of an array, and the positive responses among messages.

use web_q_final.Prelude.{
  ℕ, zero, suc, ◌+◌, ◌<◌, ◌≤◌, ◌≡◌, ◌∙◌, ap, refl, arith, List, [], ◌∷◌, ◌++◌, Bool, true, false,
  ◌||◌, ◌==◌, if◌then◌else◌, set, get_or, length,
}
use web_q_final.Prelude.Int.{ℤ, pos, eqb_ℤ}
use web_q_final.Controller.{Control}
use web_q_final.Controller.Inbox.Protocol.{Msg, positive}

-- The entries that are 1.
abbrev pub ones : List ℤ → ℕ
ones [] = 0
ones (v ∷ vs) = if eqb_ℤ v (pos 1) then suc (ones vs) else ones vs

-- How many numbers below `k`, counted from `i`, pass the test.
abbrev pub how_many : (ℕ → Bool) → ℕ → ℕ → ℕ
how_many p zero i = 0
how_many p (suc k) i = if p i then suc (how_many p k (i + 1)) else how_many p k (i + 1)

-- A positive response of this TokenGen is among the messages.
abbrev pub says_yes : ℕ → Msg → Bool
says_yes tg (positive t) = t == tg
says_yes tg _ = false

abbrev pub voted : ℕ → List Msg → Bool
voted tg [] = false
voted tg (m ∷ ms) = says_yes tg m || voted tg ms

pub ones-le-length : (vs : List ℤ) → ones vs ≤ length vs
ones-le-length [] = omega arith
ones-le-length (v ∷ vs) = ground (arith, ones-le-length vs)

pub ones-set :
    (vs : List ℤ) (i : ℕ)
    → i < length vs
    → get_or vs i (pos 0) ≡ pos 0
    → ones (set vs i (pos 1)) ≡ suc (ones vs)
ones-set [] i h e = absurd (omega arith)
ones-set (v ∷ vs) zero h e = ground arith
ones-set (v ∷ vs) (suc i) h e = ground (arith, ones-set vs i (omega arith) e)

-- Entries that are 1 only where the test passes are no more than pass it.
pub ones-le :
    (p : ℕ → Bool) (vs : List ℤ) (i : ℕ)
    → ((j : ℕ) → get_or vs j (pos 0) ≡ pos 1 → p (i + j) ≡ true)
    → ones vs ≤ how_many p (length vs) i
ones-le p [] i h = omega arith
ones-le p (v ∷ vs) i h = ground (
  arith,
  h 0,
  ap p {x = i + 0} {y = i} (omega arith),
  ones-le p vs (i + 1) (λ j e. ap p (omega arith) ∙ h (suc j) e),
)

module _ {F : Type 0} where
  -- `votesRecv` is the number of votes, all of them among the messages `ms`.
  pub record IsBallot (ms : List Msg) (s : Control F) : Type 0 where
    pub tallied : s.votes_recv ≡ pos (ones s.votes)
    pub sincere : (tg : ℕ) → get_or s.votes tg (pos 0) ≡ pos 1 → voted tg ms ≡ true

pub voted-append : (tg : ℕ) (xs ys : List Msg) → voted tg (xs ++ ys) ≡ (voted tg xs || voted tg ys)
voted-append tg [] ys = refl
voted-append tg (x ∷ xs) ys = ground (arith, voted-append tg xs ys)
