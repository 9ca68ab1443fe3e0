-- ===== src/Startup/Store.antt =====
-- Reading back what writeID stored.
use web_q_final.Prelude.{ℕ, ◌<◌, ◌≡◌, refl, arith, List, [], ◌∷◌, ◌++◌, some, true, false}
use web_q_final.Prelude.Int.{ℤ, pos, negsuc, pos_part}
use web_q_final.Machine.{done}
use web_q_final.Net.{Net, stored}
use web_q_final.TokenGen.Link.{Link, write_id}
use web_q_final.Text.{atoi, decimal, decimal_ℕ, digits_before, digits_value, skip_spaces, is_digit}
use web_q_final.Startup.{read_id}

-- No digit is next.
abbrev pub EndsNumber : List ℕ → Type 0
EndsNumber [] = Unit {0}
EndsNumber (c ∷ _) = is_digit c ≡ false

read_id-decimal :
    (after : List ℕ) (z id : ℤ)
    → pos_part z < 10
    → EndsNumber after
    → read_id after (some (decimal z)) id ≡ pos (pos_part z)
unfolding read_id decimal decimal_ℕ digits_before atoi skip_spaces digits_value
read_id-decimal [] (pos n) id h e = ground arith
read_id-decimal (c ∷ after) (pos n) id h e = ground arith
read_id-decimal [] (negsuc m) id h e = ground arith
read_id-decimal (c ∷ after) (negsuc m) id h e = ground arith

-- Where the file can be opened: `writeID` stores a text from which `readID`, whatever `id` was before,
-- reads the `id` of the time of `writeID` back, if that is below 10 and no digit happens to be behind
-- the variable of `readID` in memory; a negative one is read as 0.
pub read_id-write_id :
    (net : Net) (l : Link) (after : List ℕ) (id : ℤ)
    → net.fopen_ok ≡ true
    → pos_part l.id < 10
    → EndsNumber after
    → (file : List ℕ) × (write_id net l
        ≡ done (tt, record l { trace = l.trace ++ (stored file ∷ []) }))
      × (read_id after (some file) id ≡ pos (pos_part l.id))
unfolding write_id
read_id-write_id net l after id opened small e =
    (decimal l.id, rw opened refl, read_id-decimal after l.id id small e)
