-- ===== src/TokenGen/Process/Safety.antt =====
-- Runs of the threads of TokenGen/src/proxy1.c and timer.h, from the start.
use web_q_final.Prelude.{ℕ, ◌<◌, ◌≡◌, List, [], ◌∷◌, All, if◌then◌else◌}
use web_q_final.Prelude.Int.{pos, eqb_ℤ}
use web_q_final.Floats.{FloatOps}
use web_q_final.Machine.{Outcome, done, exit, fault}
use web_q_final.Net.{Net}
use web_q_final.TokenGen.Outbox.{Outbox}
use web_q_final.TokenGen.Reply.Serve.{Answerable}
use web_q_final.TokenGen.Link.{Link, peers, no_id}
use web_q_final.TokenGen.Link.Protocol.{IsMsg}
use web_q_final.TokenGen.Reply.{Hmac}
use web_q_final.TokenGen.Process.Granted.{AtMost}
use web_q_final.TokenGen.Process.{Process, Action, request, received, opened, act}

-- The controller that `writeToServer` connects to is one of the two.
abbrev pub IsKnown : Link → Type 0
IsKnown l = (n : ℕ) × ((if eqb_ℤ l.id no_id then l.prev_id else l.id) ≡ pos n) × (n < 2)

module _ {F : Type 0} (ops : FloatOps F) (hmac : Hmac) (check : List ℕ) (lim : ℕ) (net : Net) where
  -- A step that this state can take: a request that can be answered, messages in range that grant
  -- shares up to m, and a connection to a controller that is known.
  abbrev pub CanTake : ℕ → Action → Process F → Type 0
  CanTake m (request r) p = Answerable check r
  CanTake m (received client ms) p = (client < peers) × All IsMsg ms × All (AtMost m) ms
  CanTake m opened p = IsKnown p.link
  CanTake m _ p = Unit {0}

  abbrev pub next : Process F → Outcome (Process F) → Process F
  next p (done q) = q
  next p (exit n) = p
  next p fault = p

  abbrev pub CanRun : ℕ → List Action → Process F → Type 0
  CanRun m [] p = Unit {0}
  CanRun m (a ∷ xs) p = CanTake m a p × CanRun m xs (next p (act ops hmac check lim net a p))
