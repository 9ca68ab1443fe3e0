-- ===== src/Controller/Owner.antt =====
-- Controller/src/proxy1.c: a controller's own number, which nothing writes after the start, and the
-- capacity, which `main` and every message `c` make 720.
use web_q_final.Prelude.{
  ℕ, zero, suc, ◌≡◌, arith, List, [], ◌∷◌, Bool, true, false, if◌then◌else◌, ◌==◌,
}
use web_q_final.Prelude.Int.{ℤ, pos}
use web_q_final.Floats.{FloatOps}
use web_q_final.Machine.{Outcome, done, exit, fault, M, pure, ◌>>=◌}
use web_q_final.Net.{Net, session}
use web_q_final.Wire.{Conn, read, read_int}
use web_q_final.Controller.{Control, calc_soc, share_out}
use web_q_final.Controller.Inbox.{
  write_id, send_id, to_other, on_capacity, on_hardness, on_heartbeat, on_positive, on_negative,
  on_change, on_tg_ack, on_ack, on_incoming, dispatch, turn, read_or, read_from_client,
}

module _ {F : Type 0} (z : ℤ) where
  -- The number is `z`, and the capacity 720, which `main` and a message `c` make it.
  abbrev pub IsOwn : Control F → Type 0
  IsOwn s = (s.my_id ≡ z) × (s.capacity ≡ pos 720)

  abbrev pub IsOwnAfter : {A : Type 0} → Outcome (A × Control F) → Type 0
  IsOwnAfter (done (a, s)) = IsOwn s
  IsOwnAfter (exit n) = Unit {0}
  IsOwnAfter fault = Unit {0}

  abbrev pub Keeps : {A : Type 0} → M (Control F) A → Type 0
  Keeps m = (s : Control F) → IsOwn s → IsOwnAfter (m s)

  after_bind :
      {A B : Type 0} (o : Outcome (A × Control F)) (f : A → M (Control F) B)
      → IsOwnAfter o
      → ((a : A) → Keeps (f a))
      → IsOwnAfter (elim o [ done (a, s) ↦ f a s | exit n ↦ exit n | fault ↦ fault ])
  after_bind (done (a, s)) f h k = k a s h
  after_bind (exit n) f h k = tt
  after_bind fault f h k = tt

  pub Keeps-bind :
      {A B : Type 0} (m : M (Control F) A) (f : A → M (Control F) B)
      → Keeps m
      → ((a : A) → Keeps (f a))
      → Keeps (m >>= f)
  Keeps-bind m f h k s o = after_bind (m s) f (h s o) k

  branch :
      {A : Type 0} (test : Bool) (x y : M (Control F) A)
      → Keeps x
      → Keeps y
      → Keeps (if test then x else y)
  branch true x y h k = h
  branch false x y h k = k

  module _ (ops : FloatOps F) (net : Net) where
    pub write_id-Keeps : Keeps (write_id ops net)
    unfolding write_id
    write_id-Keeps s o = ground arith

    pub to_other-Keeps : (b : ℕ) → Keeps (to_other ops net b)
    unfolding to_other send_id session
    to_other-Keeps b s o = ground arith

  module _ (ops : FloatOps F) (net : Net) (c : Conn) where
    capacity-Keeps : Keeps (on_capacity ops net c)
    unfolding on_capacity
    capacity-Keeps s o = ground arith

    hardness-Keeps : Keeps (on_hardness ops net c)
    unfolding on_hardness
    hardness-Keeps s o = ground arith

    heartbeat-Keeps : Keeps (on_heartbeat ops net c)
    unfolding on_heartbeat to_other send_id session
    heartbeat-Keeps s o = ground arith

    positive-Keeps : Keeps (on_positive ops net c)
    unfolding on_positive
    positive-Keeps s o = ground arith

    negative-Keeps : Keeps (on_negative ops net c)
    unfolding on_negative
    negative-Keeps s o = ground arith

    change-Keeps : Keeps (on_change ops net c)
    unfolding on_change
    change-Keeps s o =
        Keeps-bind (write_id ops net) _ (write_id-Keeps ops net)
          (λ _.
            Keeps-bind (to_other ops net b'z') (λ _. pure (read_int c).1)
              (to_other-Keeps ops net b'z') (λ _ t ot. ot))
          (record s { id = read_or (net.junk 0) (read_int c).0 }) o

    tg_ack-Keeps : Keeps (on_tg_ack ops net c)
    unfolding on_tg_ack
    tg_ack-Keeps s o = ground arith

    ack-Keeps : Keeps (on_ack ops net c)
    unfolding on_ack
    ack-Keeps s o = ground arith

    incoming-Keeps : Keeps (on_incoming ops net c)
    unfolding on_incoming calc_soc share_out
    incoming-Keeps s o = ground arith

    dispatch-Keeps : (b : ℕ) → Keeps (dispatch ops net b c)
    unfolding dispatch
    dispatch-Keeps b = branch (b == b'c') _ _ capacity-Keeps (
        branch (b == b'h') _ _ hardness-Keeps (
          branch (b == b'a') _ _ heartbeat-Keeps (
            branch (b == b'p') _ _ positive-Keeps (
              branch (b == b'n') _ _ negative-Keeps (
                branch (b == b't') _ _ change-Keeps (
                  branch (b == b'y') _ _ tg_ack-Keeps (
                    branch (b == b'z') _ _ ack-Keeps
                      (branch (b == b'i') _ _ incoming-Keeps (λ s o. o)))))))))

  module _ (ops : FloatOps F) (net : Net) where
    turn-Keeps :
        (again : Conn → M (Control F) Conn) (chunk : List ℕ) (c : Conn)
        → ((c' : Conn) → Keeps (again c'))
        → Keeps (turn ops net again chunk c)
    turn-Keeps again [] c h s o = o
    turn-Keeps again (b ∷ bs) c h s o =
        Keeps-bind (dispatch ops net b c) again (dispatch-Keeps ops net c b) h s o

    -- No bytes change them.
    pub read_from_client-Keeps : (fuel : ℕ) (c : Conn) → Keeps (read_from_client ops net fuel c)
    unfolding read_from_client
    read_from_client-Keeps zero c s o = o
    read_from_client-Keeps (suc fuel) c s o =
        turn-Keeps (read_from_client ops net fuel) (read 1 c).0 (read 1 c).1
          (λ c'. read_from_client-Keeps fuel c') s o
