-- ===== src/Config/Read.antt =====
-- Reading proxy.conf back: the values of a file with a value, a space and a comment on each line.
use web_q_final.Prelude.{
  ℕ, zero, suc, ◌<◌, ◌≡◌, ◌≢◌, ap, refl, arith, List, [], ◌∷◌, ◌++◌, none, some, length, All, map,
}
use web_q_final.Config.{field, skip_line, c_string, after_field, fields}

-- A value has no space, no tab and no 0, and a comment no newline.
abbrev pub IsValueByte : ℕ → Type 0
IsValueByte c = (c ≢ b' ') × (c ≢ b'\t') × (c ≢ 0)

pub record Line : Type 0 where
  pub value : List ℕ
  pub comment : List ℕ

abbrev pub IsLine : Line → Type 0
IsLine l = All IsValueByte l.value × All (λ c. c ≢ b'\n') l.comment

-- The lines, the last one without a newline.
abbrev pub render : Line → List Line → List ℕ
render l [] = l.value ++ (b' ' ∷ l.comment)
render l (m ∷ ms) = l.value ++ (b' ' ∷ (l.comment ++ (b'\n' ∷ render m ms)))

field-value : (v rest : List ℕ) → All IsValueByte v → field (v ++ (b' ' ∷ rest)) ≡ (v, some rest)
unfolding field
field-value [] rest h = refl
field-value (c ∷ v) rest h = rw (field-value v rest h.1) (ground arith)

skip_line-comment :
    (c rest : List ℕ) → All (λ x. x ≢ b'\n') c → skip_line (c ++ (b'\n' ∷ rest)) ≡ some rest
unfolding skip_line
skip_line-comment [] rest h = refl
skip_line-comment (x ∷ c) rest h = ground (arith, skip_line-comment c rest h.1)

skip_line-last : (c : List ℕ) → All (λ x. x ≢ b'\n') c → skip_line c ≡ none
unfolding skip_line
skip_line-last [] h = refl
skip_line-last (x ∷ c) h = ground (arith, skip_line-last c h.1)

c_string-value : (v : List ℕ) → All IsValueByte v → c_string v ≡ v
unfolding c_string
c_string-value [] h = refl
c_string-value (c ∷ v) h = rw (c_string-value v h.1) (ground arith)

-- On a file of such lines the parser's loops find exactly the values, in order; fuel above the
-- number of lines is enough.
pub fields-render :
    (fuel : ℕ) (l : Line) (ls : List Line)
    → IsLine l
    → All IsLine ls
    → length ls < fuel
    → fields fuel (render l ls) ≡ l.value ∷ map (λ m. m.value) ls
unfolding fields
fields-render zero l ls h hs f = absurd (omega arith)
fields-render (suc fuel) l [] h hs f =
    rw
      (
        field-value l.value l.comment h.0,
        c_string-value l.value h.0,
        skip_line-last l.comment h.1,
        after_field,
      )
      refl
fields-render (suc fuel) l (m ∷ ms) h hs f =
    rw
      (
        field-value l.value (l.comment ++ (b'\n' ∷ render m ms)) h.0,
        c_string-value l.value h.0,
        skip_line-comment l.comment (render m ms) h.1,
        after_field,
      )
      (ap (λ t. l.value ∷ t) (fields-render fuel m ms hs.0 hs.1 (omega arith)))
