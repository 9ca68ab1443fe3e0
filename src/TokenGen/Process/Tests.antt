-- ===== src/TokenGen/Process/Tests.antt =====
-- A TokenGen with LIMIT 3 that is asked four times, and the theorem about it.
use web_q_final.Prelude.{ℕ, List, [], ◌∷◌, some, true}
use web_q_final.Prelude.Int.{ℤ, pos}
use web_q_final.TokenGen.Link.Protocol.{share, controller}
use web_q_final.TokenGen.Process.{
  Process, Action, request, received, logged, watched, opened, reported, opening,
}
use web_q_final.Startup.Shape.{opening_link}
use web_q_final.TokenGen.Process.Samples.{hmac, visitor, file}
use web_q_final.Samples.{ops, net}

abbrev script : List Action
script =
    opened
    ∷ request visitor
    ∷ received 0 (controller 1 ∷ share (pos 1) (pos 2) ∷ [])
    ∷ request visitor
    ∷ logged true true
    ∷ watched (pos 2000) (pos 2001)
    ∷ reported (b'2' ∷ []) 3
    ∷ request visitor
    ∷ request visitor
    ∷ []

abbrev stored : List ℕ
stored = b'1' ∷ []

abbrev opening_state : Process ℤ
opening_state = opening ops hmac (b'h' ∷ []) 3 net (opening_link (λ k. []) [] file (some stored))
