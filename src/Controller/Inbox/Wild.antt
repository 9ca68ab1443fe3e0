-- ===== src/Controller/Inbox/Wild.antt =====
-- What makes `readFromClient` of Controller/src/proxy1.c leave its arrays: numbers of TokenGens that
-- are not below PEERS.
use web_q_final.Prelude.{
  ℕ, suc, ◌≤◌, ◌≡◌, refl, arith, List, ◌∷◌, ◌++◌, length, get_elem?-out, if◌then◌else◌, Bool,
  Bool-cases, inl, inr,
}
use web_q_final.Prelude.Int.{ℤ, pos, negsuc, IsInt}
use web_q_final.Machine.{fault, nth, ◌>>=◌}
use web_q_final.Floats.{FloatOps}
use web_q_final.Net.{Net}
use web_q_final.Wire.{bytes_of_int, read}
use web_q_final.Wire.RoundTrip.{read_int-bytes}
use web_q_final.Controller.{Control, peers}
use web_q_final.Controller.Inbox.{
  in_charge, on_positive, on_tg_ack, on_incoming, dispatch, read_from_client,
}
use web_q_final.Controller.Inbox.Protocol.{IsControl}
use web_q_final.Controller.Inbox.Decode.{whole, read_two}

abbrev pub IsNoPeer : ℤ → Type 0
IsNoPeer (pos n) = peers ≤ n
IsNoPeer (negsuc n) = Unit {0}

nth-NoPeer :
    {S : Type 0} (xs : List ℤ) (n : ℤ) (s : S) → length xs ≡ peers → IsNoPeer n → nth xs n s ≡ fault
nth-NoPeer xs (negsuc n) s v w = refl
nth-NoPeer xs (pos n) s v w = rw (get_elem?-out xs n (omega (arith, v, w)), nth) refl

-- The character of a TokenGen's acknowledgement, at a controller that is in charge, or of its vote.
abbrev pub answered : Bool → ℕ
answered charge = if charge then b'y' else b'p'

module _ {F : Type 0} (ops : FloatOps F) (net : Net) where
  answer-wild :
      (fuel : ℕ) (n : ℤ) (rest : List ℕ) (s : Control F)
      → IsControl s
      → IsInt n
      → IsNoPeer n
      → read_from_client ops net
          (suc fuel)
          (whole (answered (in_charge s) ∷ (bytes_of_int n ++ rest)))
          s
        ≡ fault
  unfolding read_from_client dispatch on_positive on_tg_ack read
  answer-wild fuel n rest s v h w = elim (Bool-cases (in_charge s)) [
    | inl charge ↦
        rw (charge, read_int-bytes n rest h)
          (rw (charge, nth-NoPeer s.flag_tg n s v.flags w, ◌>>=◌) refl)
    | inr backup ↦
        rw (backup, read_int-bytes n rest h)
          (rw (backup, nth-NoPeer s.votes n s v.ballots w, ◌>>=◌) refl)
  ]

  rate-wild :
      (fuel : ℕ) (n x : ℤ) (rest : List ℕ) (s : Control F)
      → IsControl s
      → IsInt n
      → IsNoPeer n
      → IsInt x
      → read_from_client ops net
          (suc fuel)
          (whole (b'i' ∷ ((bytes_of_int n ++ bytes_of_int x) ++ rest)))
          s
        ≡ fault
  unfolding read_from_client dispatch on_incoming read
  rate-wild fuel n x rest s v h w hx =
      rw (read_two n x rest h, read_int-bytes x rest hx)
        (rw (nth-NoPeer s.incoming_r n s v.rates w, ◌>>=◌) refl)

  -- A TokenGen's number that is negative, or PEERS or more, makes the controller's `readFromClient`
  -- leave its arrays, whatever bytes follow and with any fuel above 0: with a rate, `incomingR`; with
  -- an acknowledgement, `flagTG` of a controller that is in charge; with a vote, `votes` of one that is
  -- not. The number of TokenGens that the controller is configured with plays no part.
  pub read_from_client-wild_control :
      (fuel : ℕ) (n x : ℤ) (rest : List ℕ) (s : Control F)
      → IsControl s
      → IsInt n
      → IsNoPeer n
      → IsInt x
      → read_from_client ops net
            (suc fuel)
            (whole (b'i' ∷ ((bytes_of_int n ++ bytes_of_int x) ++ rest)))
            s
          ≡ fault
        × read_from_client ops net
            (suc fuel)
            (whole (answered (in_charge s) ∷ (bytes_of_int n ++ rest)))
            s
          ≡ fault
  read_from_client-wild_control fuel n x rest s v h w hx =
      (rate-wild fuel n x rest s v h w hx, answer-wild fuel n rest s v h w)
