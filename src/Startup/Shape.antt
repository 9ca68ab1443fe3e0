-- ===== src/Startup/Shape.antt =====
-- The state in which TokenGen starts, from a proxy.conf whose values fit their memory.
use web_q_final.Prelude.{ℕ, ◌≡◌, ap, refl, List, Option, some, length}
use web_q_final.Prelude.Int.{pos}
use web_q_final.Machine.{done}
use web_q_final.Config.{parse_token_gen}
use web_q_final.Config.Parse.{File, text_of, IsFile, parse_token_gen-render}
use web_q_final.TokenGen.Link.{Link}
use web_q_final.TokenGen.Link.Protocol.{IsLink}
use web_q_final.Startup.{link_of, read_id, start_token_gen}

abbrev pub opening_link : (ℕ → List ℕ) → List ℕ → File → Option (List ℕ) → Link
opening_link heap after f store =
    link_of (parse_token_gen heap (some (text_of f))) (read_id after store (pos 0))

pub start_token_gen-file :
    (heap : ℕ → List ℕ) (after : List ℕ) (f : File) (store : Option (List ℕ))
    → IsFile f
    → (start_token_gen heap after (some (text_of f)) store ≡ done (opening_link heap after f store))
      × IsLink (opening_link heap after f store)
unfolding start_token_gen
start_token_gen-file heap after f store v =
    let parsed = parse_token_gen-render heap f v in
    (rw parsed.0 refl, record { two = refl; five = refl; pair = ap length parsed.4 })
