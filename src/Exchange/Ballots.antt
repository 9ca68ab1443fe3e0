-- ===== src/Exchange/Ballots.antt =====
-- The messages of several TokenGens: one each, with its number.

use web_q_final.Prelude.{
  ℕ, zero, suc, ◌+◌, ◌<◌, ◌≤◌, ◌≡◌, ◌∙◌, ap, refl, arith, List, [], ◌∷◌, Bool, true, false,
  if◌then◌else◌, length, All, Bool-cases, inl, inr, ℕ_discrete,
}
use web_q_final.Prelude.Int.{pos, eqb_ℤ}
use web_q_final.TokenGen.Link.{Link, no_id}
use web_q_final.TokenGen.Link.Protocol.{IsLink}
use web_q_final.Controller.{peers}
use web_q_final.Controller.Inbox.Protocol.{Msg, tg_ack, IsMsg}
use web_q_final.Controller.Election.Ballot.{how_many, voted}
use web_q_final.Controller.Election.Waiting.{IsCalm}
use web_q_final.Controller.Election.Handover.{IsQuiet, acked}
use web_q_final.Exchange.Answers.{vote}

-- The TokenGens from `i` on have their numbers, and their arrays have their sizes.
abbrev pub IsNumbered : ℕ → List Link → Type 0
IsNumbered i [] = Unit {0}
IsNumbered i (l ∷ ls) = IsLink l × (l.my_id ≡ pos i) × IsNumbered (suc i) ls

-- How many TokenGens have no controller.
abbrev pub orphans : List Link → ℕ
orphans [] = 0
orphans (l ∷ ls) = if eqb_ℤ l.id no_id then suc (orphans ls) else orphans ls

abbrev pub vote_msgs : ℕ → List Link → List Msg
vote_msgs i [] = []
vote_msgs i (l ∷ ls) = vote i l ∷ vote_msgs (suc i) ls

abbrev pub ack_msgs : ℕ → List Link → List Msg
ack_msgs i [] = []
ack_msgs i (l ∷ ls) = tg_ack i ∷ ack_msgs (suc i) ls

-- Each TokenGen's message is its own.
voted-earlier : (i tg : ℕ) (ls : List Link) → tg < i → voted tg (vote_msgs i ls) ≡ false
voted-earlier i tg [] h = refl
voted-earlier i tg (l ∷ ls) h =
    let later = voted-earlier (suc i) tg ls (omega arith) in
    elim (Bool-cases (eqb_ℤ l.id no_id)) [
      | inl free ↦ rw free (ground (arith, later))
      | inr bound ↦ rw bound later
    ]

pub acked-all :
    (i tg : ℕ) (ls : List Link) → i ≤ tg → tg < i + length ls → acked tg (ack_msgs i ls) ≡ true
acked-all i tg [] h k = absurd (omega arith)
acked-all i tg (l ∷ ls) h k = elim (ℕ_discrete i tg) [
  | yes same ↦ ground arith
  | no other ↦ ground (arith, acked-all (suc i) tg ls (omega (arith, other)) (omega arith))
]

skip :
    (i : ℕ) (l : Link) (ls : List Link) (tg : ℕ)
    → suc i ≤ tg
    → voted tg (vote_msgs i (l ∷ ls)) ≡ voted tg (vote_msgs (suc i) ls)
skip i l ls tg h = elim (Bool-cases (eqb_ℤ l.id no_id)) [
  | inl free ↦ rw free (ground arith)
  | inr bound ↦ rw bound refl
]

pub how_many-orphans :
    (k i : ℕ) (ls : List Link) (p : ℕ → Bool)
    → length ls ≤ k
    → ((tg : ℕ) → i ≤ tg → p tg ≡ voted tg (vote_msgs i ls))
    → how_many p k i ≡ orphans ls
how_many-orphans zero i [] p h e = refl
how_many-orphans zero i (l ∷ ls) p h e = absurd (omega arith)
how_many-orphans (suc k) i [] p h e = rw (e i (omega arith)) (
    ap (how_many p k) {x = i + 1} {y = suc i} (omega arith)
    ∙ how_many-orphans k (suc i) [] p (omega arith) (λ tg g. e tg (omega arith)))
how_many-orphans (suc k) i (l ∷ ls) p h e =
    let rest : how_many p k (i + 1) ≡ orphans ls =
      ap (how_many p k) {x = i + 1} {y = suc i} (omega arith)
      ∙ how_many-orphans k (suc i) ls p (omega arith)
          (λ tg g. e tg (omega arith) ∙ skip i l ls tg g) in
    elim (Bool-cases (eqb_ℤ l.id no_id)) [
      | inl free ↦ rw (e i (omega arith), free, rest) (ground arith)
      | inr bound ↦
          rw (e i (omega arith), bound, voted-earlier (suc i) i ls (omega arith), rest) refl
    ]

pub length-votes : (i : ℕ) (ls : List Link) → length (vote_msgs i ls) ≡ length ls
length-votes i [] = refl
length-votes i (l ∷ ls) = ap suc (length-votes (suc i) ls)

pub length-acks : (i : ℕ) (ls : List Link) → length (ack_msgs i ls) ≡ length ls
length-acks i [] = refl
length-acks i (l ∷ ls) = ap suc (length-acks (suc i) ls)

pub votes-IsMsg :
    (i : ℕ) (ls : List Link)
    → i + length ls ≤ peers
    → All IsMsg (vote_msgs i ls) × All IsCalm (vote_msgs i ls)
votes-IsMsg i [] h = (tt, tt)
votes-IsMsg i (l ∷ ls) h =
    let (hs, cs) = votes-IsMsg (suc i) ls (omega arith) in
    elim (Bool-cases (eqb_ℤ l.id no_id)) [
      | inl free ↦ rw free ((omega arith, hs), (tt, cs))
      | inr bound ↦ rw bound ((omega arith, hs), (tt, cs))
    ]

pub acks-IsMsg :
    (i : ℕ) (ls : List Link)
    → i + length ls ≤ peers
    → All IsMsg (ack_msgs i ls) × All IsQuiet (ack_msgs i ls)
acks-IsMsg i [] h = (tt, tt)
acks-IsMsg i (l ∷ ls) h =
    let (hs, qs) = acks-IsMsg (suc i) ls (omega arith) in ((omega arith, hs), (tt, qs))
