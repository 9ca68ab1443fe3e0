-- ===== src/Controller/Inbox/Decode.antt =====
-- The branches of `readFromClient` of Controller/src/proxy1.c on the bytes of a message.
use mathlib.Core.List.{append_assoc}
use web_q_final.Prelude.{
  ℕ, suc, ◌-◌, ◌<◌, ◌≤◌, ◌≡◌, ap, refl, arith, List, [], ◌∷◌, ◌++◌, set, get_or, length, some,
  get_elem?-eq-get_or, Bool-cases, inl, inr,
}
use web_q_final.Prelude.Int.{ℤ, pos, eqb_ℤ, IsInt, int32, ◌-ℤ◌, pos_part}
use web_q_final.Floats.{FloatOps}
use web_q_final.Machine.{done, ◌>>=◌}
use web_q_final.Net.{Net, sent, stored, session, IsUp}
use web_q_final.Text.{decimal}
use web_q_final.Wire.{Conn, read, read_int, bytes_of_int}
use web_q_final.Wire.RoundTrip.{read_int-bytes}
use web_q_final.Controller.{Control, calc_soc, peers}
use web_q_final.Controller.Inbox.{
  send_id, to_other, write_id, other_id, on_capacity, on_hardness, on_heartbeat, on_positive,
  on_negative, on_change, on_tg_ack, on_ack, on_incoming, dispatch, read_from_client,
}
use web_q_final.Controller.Inbox.Protocol.{
  Msg, capacity, hardness, heartbeat, positive, negative, change, tg_ack, ack, incoming, encode,
  IsMsg, IsControl, other, tell_other, update_soc, apply,
}

abbrev pub whole : List ℕ → Conn
whole s = record { stream = s; sizes = [] }

pub read_two :
    (a b : ℤ) (rest : List ℕ)
    → IsInt a
    → (read_int (whole ((bytes_of_int a ++ bytes_of_int b) ++ rest))
        ≡ (some a, whole (bytes_of_int b ++ rest)))
read_two a b rest ha = rw append_assoc (read_int-bytes a (bytes_of_int b ++ rest) ha)

other_id_lem : {F : Type 0} (s : Control F) → IsControl s → other_id s ≡ pos (other s)
other_id_lem s v = rw v.unsigned (lem (pos_part s.my_id) v.mine)
  where
    lem : (n : ℕ) → n < 2 → int32 (pos 1 -ℤ pos n) ≡ pos (1 - n)
    lem n h = unfold ◌-ℤ◌ int32 in ground arith

module _ {F : Type 0} (ops : FloatOps F) (net : Net) (up : IsUp net) where
  pub send_id-up :
      (addr : List ℕ) (r : ℕ) (s : Control F)
      → send_id ops net addr r s
        ≡ done
            (tt, record s { trace = s.trace ++ (sent addr s.port (r ∷ bytes_of_int s.my_id) ∷ []) })
  unfolding send_id session bytes_of_int
  send_id-up addr r s = rw (up.0, up.1 addr, up.2 addr, up.3 0, up.3 1) refl

  pub write_id-up :
      (s : Control F)
      → write_id ops net s ≡ done (tt, record s { trace = s.trace ++ (stored (decimal s.id) ∷ []) })
  unfolding write_id
  write_id-up s = rw (up.4)

  capacity-decode :
      (v : ℤ) (rest : List ℕ) (s : Control F)
      → IsInt v
      → on_capacity ops net (whole (bytes_of_int v ++ rest)) s
        ≡ done (whole rest, apply ops net (capacity v) s)
  unfolding on_capacity apply
  capacity-decode v rest s h = rw (read_int-bytes v rest h) refl

  hardness-decode :
      (a b : ℤ) (rest : List ℕ) (s : Control F)
      → IsControl s
      → IsInt a
      → IsInt b
      → on_hardness ops net (whole ((bytes_of_int a ++ bytes_of_int b) ++ rest)) s
        ≡ done (whole rest, apply ops net (hardness a b) s)
  unfolding on_hardness apply
  hardness-decode a b rest s v ha hb =
      rw (read_two a b rest ha, read_int-bytes b rest hb)
        (ap (λ (hs : List ℤ). done (whole rest, record s { hardness = hs }))
          (reset s.hardness v.hard))
    where
      reset :
          (hs : List ℤ)
          → length hs ≡ 2
          → set (set (set (set hs 0 a) 1 b) 0 (pos 1)) 1 (pos 1) ≡ pos 1 ∷ pos 1 ∷ []
      reset [] e = absurd (omega arith)
      reset (x ∷ []) e = absurd (omega arith)
      reset (x ∷ y ∷ []) e = refl
      reset (x ∷ y ∷ z ∷ r) e = absurd (omega arith)

  pub to_other-up :
      (delim : ℕ) (s : Control F)
      → IsControl s
      → to_other ops net delim s ≡ done (tt, tell_other delim s)
  unfolding to_other
  to_other-up delim s v = rw (other_id_lem s v) (
      rw (get_elem?-eq-get_or s.ip_controller (other s) [] (omega (arith, v.pair)), ◌>>=◌)
        (send_id-up (get_or s.ip_controller (other s) []) delim s))

  heartbeat-decode :
      (rest : List ℕ) (s : Control F)
      → IsControl s
      → on_heartbeat ops net (whole rest) s ≡ done (whole rest, apply ops net heartbeat s)
  unfolding on_heartbeat apply
  heartbeat-decode rest s v = elim (Bool-cases (eqb_ℤ s.id s.my_id)) [
    | inl mine ↦ elim (Bool-cases (eqb_ℤ s.flag (pos 1))) [
      | inl again ↦ rw (mine, again, to_other-up b't' s v, ◌>>=◌) refl
      | inr quiet ↦ rw (mine, quiet, ◌>>=◌) refl
    ]
    | inr backup ↦ rw (backup, other_id_lem s v, ◌>>=◌) refl
  ]

  positive-decode :
      (tg : ℕ) (rest : List ℕ) (s : Control F)
      → IsControl s
      → tg < peers
      → on_positive ops net (whole (bytes_of_int (pos tg) ++ rest)) s
        ≡ done (whole rest, apply ops net (positive tg) s)
  unfolding on_positive apply
  positive-decode tg rest s v h =
      rw (read_int-bytes (pos tg) rest (omega arith)) (elim (Bool-cases (eqb_ℤ s.id s.my_id)) [
        | inl mine ↦ rw (mine, ◌>>=◌) refl
        | inr backup ↦
            rw (backup, get_elem?-eq-get_or s.votes tg (pos 0) (omega (arith, v.ballots)), ◌>>=◌)
              (elim (Bool-cases (eqb_ℤ (get_or s.votes tg (pos 0)) (pos 0))) [
                | inl first ↦ rw (first, ◌>>=◌) refl
                | inr again ↦ rw (again, ◌>>=◌) refl
              ])
      ])

  negative-decode :
      (tg : ℕ) (rest : List ℕ) (s : Control F)
      → tg < peers
      → on_negative ops net (whole (bytes_of_int (pos tg) ++ rest)) s
        ≡ done (whole rest, apply ops net (negative tg) s)
  unfolding on_negative apply
  negative-decode tg rest s h = rw (read_int-bytes (pos tg) rest (omega arith)) refl

  change-decode :
      (n : ℕ) (rest : List ℕ) (s : Control F)
      → IsControl s
      → n < 2
      → on_change ops net (whole (bytes_of_int (pos n) ++ rest)) s
        ≡ done (whole rest, apply ops net (change n) s)
  unfolding on_change apply
  change-decode n rest s v h = rw (read_int-bytes (pos n) rest (omega arith)) (
      rw (write_id-up (record s { id = pos n }), ◌>>=◌)
        (rw
          (
            to_other-up b'z'
                (record s { id = pos n; trace = s.trace ++ (stored (decimal (pos n)) ∷ []) })
                (record {
                  mine = v.mine;
                  unsigned = v.unsigned;
                  few = v.few;
                  hard = v.hard;
                  socs = v.socs;
                  ballots = v.ballots;
                  flags = v.flags;
                  rates = v.rates;
                  pair = v.pair;
                }),
            ◌>>=◌,
          )
          refl))

  tg_ack-decode :
      (tg : ℕ) (rest : List ℕ) (s : Control F)
      → IsControl s
      → tg < peers
      → on_tg_ack ops net (whole (bytes_of_int (pos tg) ++ rest)) s
        ≡ done (whole rest, apply ops net (tg_ack tg) s)
  unfolding on_tg_ack apply
  tg_ack-decode tg rest s v h =
      rw (read_int-bytes (pos tg) rest (omega arith)) (elim (Bool-cases (eqb_ℤ s.id s.my_id)) [
        | inl mine ↦
            rw (mine, get_elem?-eq-get_or s.flag_tg tg (pos 0) (omega (arith, v.flags)), ◌>>=◌) refl
        | inr backup ↦ rw (backup, ◌>>=◌) refl
      ])

  ack-decode :
      (n : ℕ) (rest : List ℕ) (s : Control F)
      → n < 2
      → on_ack ops net (whole (bytes_of_int (pos n) ++ rest)) s
        ≡ done (whole rest, apply ops net (ack n) s)
  unfolding on_ack apply
  ack-decode n rest s h = rw (read_int-bytes (pos n) rest (omega arith)) refl

  calc_soc-few :
      (s : Control F)
      → pos_part s.no_of_proxy ≤ peers
      → calc_soc ops s ≡ done (tt, update_soc ops net s)
  unfolding calc_soc
  calc_soc-few s h = elim (Bool-cases (eqb_ℤ s.id s.my_id)) [
    | inl mine ↦ rw mine (ground arith)
    | inr backup ↦ rw backup refl
  ]

  incoming-decode :
      (tg : ℕ) (x : ℤ) (rest : List ℕ) (s : Control F)
      → IsControl s
      → tg < peers
      → IsInt x
      → on_incoming ops net (whole ((bytes_of_int (pos tg) ++ bytes_of_int x) ++ rest)) s
        ≡ done (whole rest, apply ops net (incoming tg x) s)
  unfolding on_incoming apply
  incoming-decode tg x rest s v h hx =
      rw (read_two (pos tg) x rest (omega arith), read_int-bytes x rest hx)
        (rw (get_elem?-eq-get_or s.incoming_r tg (pos 0) (omega (arith, v.rates)), ◌>>=◌)
          (rw (calc_soc-few (record s { incoming_r = set s.incoming_r tg x }) v.few, ◌>>=◌) refl))

  -- One turn of the loop takes one message off the stream.
  pub turn-decode :
      (fuel : ℕ) (m : Msg) (rest : List ℕ) (s : Control F)
      → IsMsg m
      → IsControl s
      → read_from_client ops net (suc fuel) (whole (encode m ++ rest)) s
        ≡ read_from_client ops net fuel (whole rest) (apply ops net m s)
  unfolding read_from_client dispatch read
  turn-decode fuel (capacity z) rest s h v = rw (capacity-decode z rest s h, ◌>>=◌) refl
  turn-decode fuel (hardness a b) rest s h v = rw (hardness-decode a b rest s v h.0 h.1, ◌>>=◌) refl
  turn-decode fuel heartbeat rest s h v = rw (heartbeat-decode rest s v, ◌>>=◌) refl
  turn-decode fuel (positive tg) rest s h v = rw (positive-decode tg rest s v h, ◌>>=◌) refl
  turn-decode fuel (negative tg) rest s h v = rw (negative-decode tg rest s h, ◌>>=◌) refl
  turn-decode fuel (change n) rest s h v = rw (change-decode n rest s v h, ◌>>=◌) refl
  turn-decode fuel (tg_ack tg) rest s h v = rw (tg_ack-decode tg rest s v h, ◌>>=◌) refl
  turn-decode fuel (ack n) rest s h v = rw (ack-decode n rest s h, ◌>>=◌) refl
  turn-decode fuel (incoming tg x) rest s h v =
      rw (incoming-decode tg x rest s v h.0 h.1, ◌>>=◌) refl
