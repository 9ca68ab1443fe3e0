-- ===== src/Controller/Duty/Shares.antt =====
-- `writeToServer` of Controller/src/proxy1.c, and the messages of TokenGen.
use mathlib.Core.List.{append-nil}
use web_q_final.Prelude.{ℕ, ◌+◌, ◌≡◌, ap, refl, List, [], ◌∷◌, ◌++◌, true, get_or, All}
use web_q_final.Prelude.Int.{pos, eqb_ℤ}
use web_q_final.Floats.{FloatOps}
use web_q_final.Net.{Net, delivered}
use web_q_final.Wire.{bytes_of_int}
use web_q_final.TokenGen.Link.Protocol.{Msg, share, encode_all}
use web_q_final.Controller.{Control}
use web_q_final.Controller.Duty.{share_rounds}

module _ {F : Type 0} (ops : FloatOps F) (net : Net) where
  -- The share of TokenGen `counter` in each state.
  abbrev pub shares_of : ℕ → List (Control F) → List Msg
  shares_of counter [] = []
  shares_of counter (s ∷ ss) = share s.my_id (get_or s.soc counter (pos 0)) ∷ shares_of counter ss

  abbrev pub InCharge : Control F → Type 0
  InCharge s = eqb_ℤ s.id s.my_id ≡ true

  -- Where all writes succeed and the controller is in charge in each round, the bytes that it writes to
  -- a TokenGen are, in the encoding that TokenGen reads, the messages of that TokenGen's share in each
  -- round, in order, under the controller's number.
  pub share_rounds-messages :
      (counter k : ℕ) (ss : List (Control F))
      → ((j : ℕ) → net.write_ok j ≡ true)
      → All InCharge ss
      → share_rounds ops net counter k ss ≡ encode_all (shares_of counter ss)
  unfolding share_rounds delivered
  share_rounds-messages counter k [] up here = refl
  share_rounds-messages counter k (s ∷ ss) up here =
      rw (here.0, up k, up (k + 1), up (k + 1 + 1), append-nil)
        (ap
          (λ rest.
            (b's' ∷ (bytes_of_int s.my_id ++ bytes_of_int (get_or s.soc counter (pos 0)))) ++ rest)
          (share_rounds-messages counter (k + 3) ss up here.1))
