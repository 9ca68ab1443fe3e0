-- ===== src/Startup/Tests.antt =====
-- Files IdStore and proxy.conf, and the theorems about them.
use web_q_final.Prelude.{ℕ, ◌≡◌, refl, List, [], ◌∷◌, ◌++◌, some, arith}
use web_q_final.Prelude.Int.{pos}
use web_q_final.Text.{is_digit}
use web_q_final.Startup.{link_of, read_id}
use web_q_final.Config.{blank}
use web_q_final.Samples.{net}
use web_q_final.Startup.Store.{read_id-write_id}
use web_q_final.Machine.{done}
use web_q_final.Net.{stored}
use web_q_final.TokenGen.Link.{Link, write_id}

-- The backup, number 1, is in charge.
abbrev under_one : Link
under_one = record (link_of (blank (λ k. [])) (pos 0)) { id = pos 1 }

read_id-write_id_example :
    (file : List ℕ) × (write_id net under_one
      ≡ done (tt, record under_one { trace = [] ++ (stored file ∷ []) }))
    × (read_id (b'x' ∷ []) (some file) (pos 0) ≡ pos 1)
unfolding is_digit
read_id-write_id_example =
    read_id-write_id net under_one (b'x' ∷ []) (pos 0) refl (omega arith) refl
