-- ===== src/Controller/Duty.antt =====
-- Controller/src/proxy1.c: what the controller in charge sends, and how long it goes on.
-- Each loop that runs until another thread ends it takes what it sees in its rounds as a list.
pub mod Shares
use web_q_final.Prelude.{
  ℕ, zero, suc, ◌+◌, List, [], ◌∷◌, ◌++◌, Bool, true, false, if◌then◌else◌, not, get_or, set, ◌==◌,
}
use web_q_final.Prelude.Int.{ℤ, pos, eqb_ℤ, pos_part}
use web_q_final.Cells.{set_value}
use web_q_final.Floats.{FloatOps}
use web_q_final.Machine.{◌>>=◌, done, exit, M, pure, ◌>>◌, get, modify, nth}
use web_q_final.Net.{Net, sent, session, delivered}
use web_q_final.Wire.{bytes_of_int}
use web_q_final.Controller.{Control, calc_soc}
use web_q_final.Controller.Inbox.{emit, in_charge, put, send_id, to_other}

module _ {F : Type 0} where
  -- `for (counter = i; counter < i + k; counter++)`
  unfoldable pub for_proxies : ℕ → ℕ → (ℕ → M (Control F) (Unit {0})) → M (Control F) (Unit {0})
  for_proxies zero i body = pure tt
  for_proxies (suc k) i body = body i >> for_proxies k (i + 1) body

  abbrev pub each_proxy : (ℕ → M (Control F) (Unit {0})) → M (Control F) (Unit {0})
  each_proxy body s = for_proxies (pos_part s.no_of_proxy) 0 body s

module _ {F : Type 0} (ops : FloatOps F) (net : Net) where
  -- The body of the thread `calculate_soc`, after its `sleep`.
  unfoldable pub calculate_soc_thread : M (Control F) (Unit {0})
  calculate_soc_thread = calc_soc ops

  -- The writes of the loop of `writeToServer`, from write `k` on: one round for each state that it
  -- finds, until this controller is no longer in charge.
  unfoldable pub share_rounds : ℕ → ℕ → List (Control F) → List ℕ
  share_rounds counter k [] = []
  share_rounds counter k (s ∷ later) =
      if in_charge s
      then delivered net k
          ((b's' ∷ []) ∷ bytes_of_int s.my_id ∷ bytes_of_int (get_or s.soc counter (pos 0)) ∷ [])
        ++ share_rounds counter (k + 3) later
      else []

  abbrev connection : List ℕ → List ℕ → M (Control F) (Unit {0})
  connection addr bytes s =
      if not net.socket_ok
      then exit 1
      else if not (net.valid_ip addr)
      then exit 1
      else if net.connect_ok addr
      then done (tt, record s { trace = s.trace ++ (sent addr s.port bytes ∷ []) })
      else done (tt, s)

  -- `counter` names an entry of `soc`, which has PEERS.
  unfoldable pub write_to_server : ℕ → List (Control F) → M (Control F) (Unit {0})
  unfolding share_rounds
  write_to_server counter rounds = do
    s ← get
    addr ← nth s.ip_array (pos counter)
    _ ← nth s.soc (pos counter)
    connection addr (share_rounds counter 0 rounds)

  -- The body of the thread `queue_sender`, after its `sleep`.
  unfoldable pub queue_sender_thread : ℕ → List (Control F) → M (Control F) (Unit {0})
  queue_sender_thread counter rounds = write_to_server counter rounds

  -- The heartbeats of one connection, from write `k` on; a write that fails ends it.
  unfoldable pub beats : ℕ → List (Control F) → List ℕ
  beats k [] = []
  beats k (s ∷ later) =
      if in_charge s then (if net.write_ok k then b'a' ∷ beats (k + 1) later else []) else []

  unfoldable pub send_to_backup : List ℕ → List (Control F) → M (Control F) (Unit {0})
  unfolding beats
  send_to_backup addr rounds = connection addr (beats 0 rounds)

  -- Connections one after another, each with its rounds and the state after it, until this controller
  -- is no longer in charge.
  unfoldable pub send_heartbeat :
      List ℕ → List (List (Control F) × Control F) → M (Control F) (Unit {0})
  send_heartbeat addr [] = pure tt
  send_heartbeat addr ((rounds, after) ∷ later) = do
    send_to_backup addr rounds
    if in_charge after then send_heartbeat addr later else pure tt

  -- `changeController` asks a TokenGen for its vote.
  unfoldable pub change_controller : List ℕ → M (Control F) (Unit {0})
  change_controller addr s =
      emit (session net addr s.port ((b'x' ∷ []) ∷ bytes_of_int s.my_id ∷ [])) s

  abbrev pub tell : ℕ → M (Control F) (Unit {0})
  tell counter = do
    put_flag counter
    s ← get
    addr ← nth s.ip_array (pos counter)
    send_id ops net addr b't'
    where
      put_flag : ℕ → M (Control F) (Unit {0})
      put_flag i = do
        s ← get
        put s.flag_tg (pos i) (λ s. record s { flag_tg = set s.flag_tg i (pos 1) })

  abbrev pub tell_again : ℕ → M (Control F) (Unit {0})
  tell_again counter = do s ← get; flag ← nth s.flag_tg (pos counter); resend flag
    where
      resend : ℤ → M (Control F) (Unit {0})
      resend f =
          if eqb_ℤ f (pos 1)
          then (do s ← get; addr ← nth s.ip_array (pos counter); send_id ops net addr b't')
          else pure tt

  -- `c`: how many of the first `k` flags are set.
  abbrev pub pending_flags : ℕ → List ℤ → ℕ
  pending_flags zero fs = 0
  pending_flags (suc k) [] = 0
  pending_flags (suc k) (f ∷ fs) =
      if eqb_ℤ f (pos 1) then suc (pending_flags k fs) else pending_flags k fs

  -- The loop of `switch_controller`: `meanwhile` is what the other threads do in the second before
  -- each round. It ends with no flag set; `false` is a loop that still runs.
  unfoldable pub resend_rounds : List (Control F → Control F) → M (Control F) Bool
  resend_rounds [] = pure false
  resend_rounds (meanwhile ∷ later) = do
    modify meanwhile
    s ← get
    each_proxy tell_again
    if pending_flags (pos_part s.no_of_proxy) s.flag_tg == 0 then pure true else resend_rounds later

  unfoldable pub switch_controller : List (Control F → Control F) → M (Control F) Bool
  unfolding resend_rounds for_proxies
  switch_controller rounds = do
    each_proxy tell
    modify (λ s. record s { flag = set_value s.flag (pos 1) })
    to_other ops net b't'
    resend_rounds rounds
