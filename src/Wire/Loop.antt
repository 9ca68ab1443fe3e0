-- ===== src/Wire/Loop.antt =====
-- Runs of a loop that reads a connection: what a run leaves on the stream.
use web_q_final.Prelude.{◌≤◌, ◌≡◌, refl, Bool, true, false, if◌then◌else◌, length}
use web_q_final.Machine.{Outcome, M, done, exit, fault}
use web_q_final.Wire.{Conn}

module _ {S : Type 0} (c : Conn) where
  -- A run that comes to an end has added nothing to the stream of `c`.
  abbrev pub Consumes : Outcome (Conn × S) → Type 0
  Consumes (done (c', l)) = length c'.stream ≤ length c.stream
  Consumes (exit n) = Unit {0}
  Consumes fault = Unit {0}

  pub Consumes-branch :
      (test : Bool) (x y : M S Conn) (l : S)
      → Consumes (x l)
      → Consumes (y l)
      → Consumes ((if test then x else y) l)
  Consumes-branch true x y l h k = h
  Consumes-branch false x y l h k = k

  -- What follows agrees on the streams that can be left.
  pub bind-cong :
      (o : Outcome (Conn × S)) (j k : Conn → M S Conn)
      → Consumes o
      → ((c' : Conn) (l : S) → length c'.stream ≤ length c.stream → j c' l ≡ k c' l)
      → (elim o [ done (c', l) ↦ j c' l | exit n ↦ exit n | fault ↦ fault ])
        ≡ (elim o [ done (c', l) ↦ k c' l | exit n ↦ exit n | fault ↦ fault ])
  bind-cong (done (c', l)) j k h agree = agree c' l h
  bind-cong (exit n) j k h agree = refl
  bind-cong fault j k h agree = refl
