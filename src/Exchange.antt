-- ===== src/Exchange.antt =====
-- Controller/src/proxy1.c and TokenGen/src/proxy1.c together: the bytes that one program sends are
-- what the other reads. The readers get fuel for one message more than there are.
pub mod Answers
pub mod Ballots
pub mod Takeover
pub mod Rates
pub mod Shares
pub mod Load
pub mod Failover
mod Tests
use web_q_final.Prelude.{ℕ, suc, List, [], ◌∷◌, ◌++◌, drop, length, get_or}
use web_q_final.Floats.{FloatOps}
use web_q_final.Machine.{Outcome, done, exit, fault}
use web_q_final.Net.{Net, Effect, sent, stored, started}
use web_q_final.TokenGen.Link.{Link, read_from_client as token_gen_reads}
use web_q_final.Controller.{Control}
use web_q_final.Controller.Inbox.{read_from_client as controller_reads}
use web_q_final.Controller.Duty.{change_controller, tell}

-- The bytes of all connections of a trace.
abbrev pub carried : List Effect → List ℕ
carried [] = []
carried (sent addr port bytes ∷ es) = bytes ++ carried es
carried (stored text ∷ es) = carried es
carried (started t ∷ es) = carried es

-- The bytes sent since the trace was `before`.
abbrev pub said : List Effect → List Effect → List ℕ
said before after = carried (drop (length before) after)

abbrev pub final : {A S : Type 0} → S → Outcome (A × S) → S
final s (done (_, s')) = s'
final s (exit n) = s
final s fault = s

module _ (net : Net) where
  -- A TokenGen when it has read these bytes on its first connection, and the bytes that it sends.
  abbrev pub informed : List ℕ → Link → Link
  informed bytes l = final l (token_gen_reads net 2 0 (record { stream = bytes; sizes = [] }) l)

  abbrev pub answer : List ℕ → Link → List ℕ
  answer bytes l = said l.trace (informed bytes l).trace

module _ {F : Type 0} (ops : FloatOps F) (net : Net) where
  -- The bytes in which `changeController` asks TokenGen `tg`, and `switch_controller` tells it.
  abbrev pub question : ℕ → Control F → List ℕ
  question tg s =
      said s.trace (final s (change_controller ops net (get_or s.ip_array tg []) s)).trace

  abbrev pub news : ℕ → Control F → List ℕ
  news tg s = said s.trace (final s (tell ops net tg s)).trace

  -- A controller when it has read these bytes.
  abbrev pub reading : ℕ → List ℕ → Control F → Control F
  reading fuel bytes s =
      final s (controller_reads ops net fuel (record { stream = bytes; sizes = [] }) s)

  -- What the TokenGens from `i` on answer to the question, and then to the news.
  abbrev pub votes : ℕ → Control F → List Link → List ℕ
  votes i s [] = []
  votes i s (l ∷ ls) = answer net (question i s) l ++ votes (suc i) s ls

  abbrev pub asked : ℕ → Control F → Link → Link
  asked i s l = informed net (question i s) l

  abbrev pub acks : ℕ → Control F → List Link → List ℕ
  acks i s [] = []
  acks i s (l ∷ ls) = answer net (news i s) (asked i s l) ++ acks (suc i) s ls

  -- The TokenGens in the end.
  abbrev pub obedient : ℕ → Control F → List Link → List Link
  obedient i s [] = []
  obedient i s (l ∷ ls) = informed net (news i s) (asked i s l) ∷ obedient (suc i) s ls
