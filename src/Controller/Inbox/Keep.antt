-- ===== src/Controller/Inbox/Keep.antt =====
-- `readFromClient` of Controller/src/proxy1.c on the bytes of any number of messages.
use web_q_final.Prelude.{
  ℕ, zero, suc, ◌<◌, ◌≡◌, ◌∙◌, ap, refl, arith, List, [], ◌∷◌, ◌++◌, set, length, length-set,
  length-append, length-drop, All, Bool-cases, inl, inr, take, drop, map, length-map, length-take,
  sym,
}
use web_q_final.Prelude.Int.{ℤ, pos, eqb_ℤ, pos_part}
use web_q_final.Floats.{FloatOps}
use web_q_final.Machine.{done}
use web_q_final.Net.{Net, IsUp}
use web_q_final.Wire.{read}
use web_q_final.Controller.{Control, share_out, sum_rates, rate_share, even_share, peers}
use web_q_final.Controller.Inbox.{read_from_client}
use web_q_final.Controller.Inbox.Protocol.{
  Msg, capacity, hardness, heartbeat, positive, negative, change, tg_ack, ack, incoming, encode_all,
  IsMsg, IsControl, apply, apply_all,
}
use web_q_final.Controller.Inbox.Decode.{whole, turn-decode}

module _ {F : Type 0} (ops : FloatOps F) (net : Net) where
  -- The shape is a matter of these fields alone.
  same_shape :
      {s t : Control F}
      → IsControl s
      → t.my_id ≡ s.my_id
      → t.no_of_proxy ≡ s.no_of_proxy
      → length t.hardness ≡ 2
      → length t.soc ≡ peers
      → length t.votes ≡ peers
      → length t.flag_tg ≡ peers
      → length t.incoming_r ≡ peers
      → t.ip_controller ≡ s.ip_controller
      → IsControl t
  same_shape {s} {t} v m n a b c d e f = record {
    mine = omega (arith, ap pos_part m, v.mine);
    unsigned = m ∙ v.unsigned ∙ ap (λ z. pos (pos_part z)) (sym m);
    few = omega (arith, ap pos_part n, v.few);
    hard = a;
    socs = b;
    ballots = c;
    flags = d;
    rates = e;
    pair = ap length f ∙ v.pair;
  }

  share_out-shape :
      (s : Control F) → IsControl s → IsControl (share_out ops (pos_part s.no_of_proxy) s)
  unfolding share_out
  share_out-shape s v = same_shape v refl refl v.hard socs v.ballots v.flags v.rates refl
    where
      n : ℕ
      n = pos_part s.no_of_proxy

      rates_long : length (map ops.of_int (take n s.incoming_r)) ≡ n
      rates_long =
          length-map (take n s.incoming_r) ops.of_int
          ∙ length-take n s.incoming_r
          ∙ omega (arith, v.rates, v.few)

      patched :
          (f : F → ℤ)
          → length (map f (map ops.of_int (take n s.incoming_r)) ++ drop n s.soc) ≡ peers
      patched f = omega (
        arith,
        length-append (map f (map ops.of_int (take n s.incoming_r))) (drop n s.soc),
        length-map (map ops.of_int (take n s.incoming_r)) f,
        rates_long,
        length-drop n s.soc,
        v.socs,
        v.few,
      )

      socs : length (share_out ops n s).soc ≡ peers
      socs =
          elim (Bool-cases (
            ops.eq (sum_rates ops (ops.of_int (pos 0)) (map ops.of_int (take n s.incoming_r)))
              (ops.of_int (pos 0)))) [
                | inl none_in ↦ rw none_in (patched (λ _. even_share n s.capacity))
                | inr some_in ↦ rw some_in (
                    patched (
                      rate_share ops
                        (sum_rates ops (ops.of_int (pos 0)) (map ops.of_int (take n s.incoming_r)))
                        s.capacity))
              ]

  pub apply-IsControl : (m : Msg) (s : Control F) → IsControl s → IsControl (apply ops net m s)
  unfolding apply
  apply-IsControl (capacity z) s v =
      same_shape v refl refl v.hard v.socs v.ballots v.flags v.rates refl
  apply-IsControl (hardness a b) s v =
      same_shape v refl refl refl v.socs v.ballots v.flags v.rates refl
  apply-IsControl heartbeat s v = ground arith
  apply-IsControl (positive tg) s v = ground (arith, length-set s.votes tg (pos 1))
  apply-IsControl (negative tg) s v = v
  apply-IsControl (change n) s v =
      same_shape v refl refl v.hard v.socs v.ballots v.flags v.rates refl
  apply-IsControl (tg_ack tg) s v = ground (arith, length-set s.flag_tg tg (pos 0))
  apply-IsControl (ack n) s v = ground arith
  apply-IsControl (incoming tg x) s v =
      let v' : IsControl (record s { incoming_r = set s.incoming_r tg x }) =
        same_shape v refl refl v.hard v.socs v.ballots v.flags
          (length-set s.incoming_r tg x ∙ v.rates) refl in
      elim (Bool-cases (eqb_ℤ s.id s.my_id)) [
        | inl mine ↦ rw mine (share_out-shape _ v')
        | inr backup ↦ rw backup v'
      ]

  module _ (up : IsUp net) where
    -- With every system call successful and reads that are not cut short: on the bytes of any messages
    -- with numbers in range, `readFromClient` of a controller comes to the end of the stream, with fuel
    -- above their number, and leaves the state that the messages say.
    pub read_from_client-decode_control :
        (fuel : ℕ) (ms : List Msg) (s : Control F)
        → length ms < fuel
        → All IsMsg ms
        → IsControl s
        → read_from_client ops net fuel (whole (encode_all ms)) s
          ≡ done (whole [], apply_all ops net ms s)
    read_from_client-decode_control zero ms s f h v = absurd (omega arith)
    read_from_client-decode_control (suc fuel) [] s f h v =
        unfold read_from_client read apply_all in refl
    read_from_client-decode_control (suc fuel) (m ∷ ms) s f h v =
        turn-decode ops net up fuel m (encode_all ms) s h.0 v
        ∙ read_from_client-decode_control fuel ms (apply ops net m s) (omega arith) h.1
            (apply-IsControl m s v)
        ∙ (unfold apply_all in refl)
