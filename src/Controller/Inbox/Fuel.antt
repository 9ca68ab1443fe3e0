-- ===== src/Controller/Inbox/Fuel.antt =====
-- The loop of `readFromClient` of Controller/src/proxy1.c: each turn takes a byte or more.
use web_q_final.Prelude.{ℕ, zero, suc, ◌<◌, ◌≤◌, ◌≡◌, refl, arith, List, [], ◌∷◌, ◌==◌, length}
use web_q_final.Machine.{M}
use web_q_final.Floats.{FloatOps}
use web_q_final.Net.{Net}
use web_q_final.Wire.{Conn, read, read_int}
use web_q_final.Wire.Loop.{Consumes, Consumes-branch, bind-cong}
use web_q_final.Wire.Bytes.{read_int-length, read-length_lt}
use web_q_final.Controller.{Control}
use web_q_final.Controller.Inbox.{
  on_capacity, on_hardness, on_heartbeat, on_positive, on_negative, on_change, on_tg_ack, on_ack,
  on_incoming, dispatch, turn, read_from_client,
}

module _ {F : Type 0} (ops : FloatOps F) (net : Net) where
  module _ (c : Conn) (s : Control F) where
    one : length (read_int c).1.stream ≤ length c.stream
    one = read_int-length c

    two : length (read_int (read_int c).1).1.stream ≤ length c.stream
    two = omega (arith, read_int-length c, read_int-length (read_int c).1)

    capacity-Consumes : Consumes c (on_capacity ops net c s)
    unfolding on_capacity
    capacity-Consumes = ground (arith, one)

    hardness-Consumes : Consumes c (on_hardness ops net c s)
    unfolding on_hardness
    hardness-Consumes = ground (arith, two)

    heartbeat-Consumes : Consumes c (on_heartbeat ops net c s)
    unfolding on_heartbeat
    heartbeat-Consumes = ground arith

    positive-Consumes : Consumes c (on_positive ops net c s)
    unfolding on_positive
    positive-Consumes = ground (arith, one)

    negative-Consumes : Consumes c (on_negative ops net c s)
    unfolding on_negative
    negative-Consumes = one

    change-Consumes : Consumes c (on_change ops net c s)
    unfolding on_change
    change-Consumes = ground (arith, one)

    tg_ack-Consumes : Consumes c (on_tg_ack ops net c s)
    unfolding on_tg_ack
    tg_ack-Consumes = ground (arith, one)

    ack-Consumes : Consumes c (on_ack ops net c s)
    unfolding on_ack
    ack-Consumes = ground (arith, one)

    incoming-Consumes : Consumes c (on_incoming ops net c s)
    unfolding on_incoming
    incoming-Consumes = ground (arith, two)

    dispatch-Consumes : (b : ℕ) → Consumes c (dispatch ops net b c s)
    unfolding dispatch
    dispatch-Consumes b = Consumes-branch c (b == b'c') _ _ s capacity-Consumes (
        Consumes-branch c (b == b'h') _ _ s hardness-Consumes (
          Consumes-branch c (b == b'a') _ _ s heartbeat-Consumes (
            Consumes-branch c (b == b'p') _ _ s positive-Consumes (
              Consumes-branch c (b == b'n') _ _ s negative-Consumes (
                Consumes-branch c (b == b't') _ _ s change-Consumes (
                  Consumes-branch c (b == b'y') _ _ s tg_ack-Consumes (
                    Consumes-branch c (b == b'z') _ _ s ack-Consumes
                      (Consumes-branch c (b == b'i') _ _ s incoming-Consumes (omega arith)))))))))

  turn-cong :
      (j k : Conn → M (Control F) Conn) (chunk : List ℕ) (c : Conn) (s : Control F)
      → ((b : ℕ) (bs : List ℕ)
          → chunk ≡ b ∷ bs
          → (c' : Conn) (s : Control F) → length c'.stream ≤ length c.stream
          → j c' s ≡ k c' s)
      → turn ops net j chunk c s ≡ turn ops net k chunk c s
  turn-cong j k [] c s agree = refl
  turn-cong j k (b ∷ bs) c s agree =
      bind-cong c (dispatch ops net b c s) j k (dispatch-Consumes c s b) (agree b bs refl)

  -- On any bytes, however they are cut into reads, and whatever the system calls answer: fuel above
  -- the number of the bytes is enough for the loop of the controller's `readFromClient`, as any more of
  -- it gives the same run.
  pub read_from_client-ends_control :
      (fuel more : ℕ) (c : Conn) (s : Control F)
      → length c.stream < fuel
      → length c.stream < more
      → read_from_client ops net fuel c s ≡ read_from_client ops net more c s
  unfolding read_from_client
  read_from_client-ends_control zero more c s h k = absurd (omega arith)
  read_from_client-ends_control (suc fuel) zero c s h k = absurd (omega arith)
  read_from_client-ends_control (suc fuel) (suc more) c s h k =
      turn-cong (read_from_client ops net fuel) (read_from_client ops net more) (read 1 c).0
        (read 1 c).1 s
        (λ b bs e c' s' n.
          read_from_client-ends_control fuel more c' s' (omega (arith, read-length_lt 1 c b bs e))
            (omega (arith, read-length_lt 1 c b bs e)))
