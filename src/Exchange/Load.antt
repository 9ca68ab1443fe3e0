-- ===== src/Exchange/Load.antt =====
-- The clients that all TokenGens send to the web server together: calcSoc of Controller/src/proxy1.c, and
-- the threads of TokenGen/src/proxy1.c at each of the TokenGens.
use web_q_final.Prelude.{ℕ, ◌+◌, ◌≡◌, List, [], ◌∷◌, Option, some}
use web_q_final.Prelude.Int.{ℤ}
use web_q_final.Floats.{FloatOps}
use web_q_final.Machine.{done}
use web_q_final.Net.{Net}
use web_q_final.Controller.Soc.Sum.{raised}
use web_q_final.TokenGen.Book.Room.{count}
use web_q_final.TokenGen.Reply.{Hmac}
use web_q_final.TokenGen.Process.{Process, Action, act_all, then_act, opening, start}
use web_q_final.TokenGen.Process.Safety.{CanRun}
use web_q_final.Config.Parse.{File, text_of, IsFile}
use web_q_final.Startup.Shape.{opening_link}

-- A TokenGen: the files that it starts with, what its memory holds then, and what its threads do from
-- then on.
pub record Site : Type 0 where
  pub heap : ℕ → List ℕ
  pub after : List ℕ
  pub file : File
  pub store : Option (List ℕ)
  pub script : List Action

module _ {F : Type 0} where
  -- The clients that are to come in second `t`, over all TokenGens.
  abbrev pub load : ℕ → List (Process F) → ℕ
  load t [] = 0
  load t (q ∷ qs) = count t q.due + load t qs

module _ {F : Type 0} (ops : FloatOps F) (hmac : Hmac) (lim : ℕ) (net : Net) where
  -- Each TokenGen starts from a file that fits, and takes steps in which it is granted its entry of these
  -- shares at most.
  abbrev pub AreGranted : List ℤ → List Site → Type 0
  AreGranted [] [] = Unit {0}
  AreGranted (z ∷ zs) (x ∷ xs) =
      IsFile x.file
      × CanRun ops hmac x.file.check.value lim net (raised z) x.script
          (opening ops hmac x.file.check.value lim net (opening_link x.heap x.after x.file x.store))
      × AreGranted zs xs
  AreGranted [] (x ∷ xs) = ⊥
  AreGranted (z ∷ zs) [] = ⊥

  -- The TokenGens have run to these states.
  abbrev pub Ended : List Site → List (Process F) → Type 0
  Ended [] [] = Unit {0}
  Ended (x ∷ xs) (q ∷ qs) =
      (then_act ops hmac x.file.check.value lim net
          (act_all ops hmac x.file.check.value lim net x.script)
          (start ops hmac x.file.check.value lim net x.heap x.after (some (text_of x.file)) x.store)
        ≡ done q)
      × Ended xs qs
  Ended [] (q ∷ qs) = ⊥
  Ended (x ∷ xs) [] = ⊥
