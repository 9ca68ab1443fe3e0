-- ===== src/Controller/Inbox.antt =====
-- Controller/src/proxy1.c: the messages that arrive at a controller.
pub mod Protocol
pub mod Decode
pub mod Keep
pub mod Fuel
pub mod Wild
use web_q_final.Prelude.{
  ℕ, zero, suc, ◌+◌, List, [], ◌∷◌, ◌++◌, Bool, ◌==◌, if◌then◌else◌, set, Option, none, some,
}
use web_q_final.Prelude.Int.{ℤ, pos, negsuc, eqb_ℤ, ◌-ℤ◌, int32}
use web_q_final.Cells.{set_value, change_time, change_values}
use web_q_final.Floats.{FloatOps}
use web_q_final.Machine.{Outcome, done, exit, fault, M, pure, ◌>>=◌, ◌>>◌, get, modify, nth}
use web_q_final.Net.{Net, Effect, stored, session}
use web_q_final.Text.{decimal}
use web_q_final.Wire.{Conn, read, read_int, bytes_of_int}
use web_q_final.Controller.{Control, calc_soc}

abbrev pub read_or : ℤ → Option ℤ → ℤ
read_or d none = d
read_or d (some v) = v

abbrev index : ℤ → ℕ
index (pos n) = n
index (negsuc n) = 0

module _ {F : Type 0} where
  abbrev pub emit : Outcome (List Effect) → M (Control F) (Unit {0})
  emit o l = elim o [
    | done es ↦ done (tt, record l { trace = l.trace ++ es })
    | exit n ↦ exit n
    | fault ↦ fault
  ]

  abbrev if_read : Option ℤ → (ℤ → Control F → Control F) → M (Control F) (Unit {0})
  if_read none f s = done (tt, s)
  if_read (some v) f s = done (tt, f v s)

  abbrev pub in_charge : Control F → Bool
  in_charge s = eqb_ℤ s.id s.my_id

  -- `1-myId`
  abbrev pub other_id : Control F → ℤ
  other_id s = int32 (pos 1 -ℤ s.my_id)

  -- `xs[i] = v` on one of the arrays: a write outside it is a fault.
  abbrev pub put : List ℤ → ℤ → (Control F → Control F) → M (Control F) (Unit {0})
  put xs i f = do _ ← nth xs i; modify f

module _ {F : Type 0} (ops : FloatOps F) (net : Net) where
  unfoldable pub write_id : M (Control F) (Unit {0})
  write_id s =
      if net.fopen_ok
      then done (tt, record s { trace = s.trace ++ (stored (decimal s.id) ∷ []) })
      else done (tt, s)

  -- `sendID`: a character and `myId`, in one session.
  unfoldable pub send_id : List ℕ → ℕ → M (Control F) (Unit {0})
  send_id addr delim s = emit (session net addr s.port ((delim ∷ []) ∷ bytes_of_int s.my_id ∷ [])) s

  -- `sendID(ip_controller[1-myId], delim)`
  unfoldable pub to_other : ℕ → M (Control F) (Unit {0})
  to_other delim = do s ← get; addr ← nth s.ip_controller (other_id s); send_id addr delim

  -- `c`: the capacity that was read is replaced at once.
  unfoldable pub on_capacity : Conn → M (Control F) Conn
  on_capacity c = do
    let (v, c') = read_int c
    if_read v (λ x s. record s { capacity = x })
    modify (λ s. record s { capacity = pos 720 })
    pure c'

  -- `h`: both values are replaced by 1.
  unfoldable pub on_hardness : Conn → M (Control F) Conn
  on_hardness c = do
    let (a, c') = read_int c
    if_read a (λ x s. record s { hardness = set s.hardness 0 x })
    let (b, c'') = read_int c'
    if_read b (λ x s. record s { hardness = set s.hardness 1 x })
    modify (λ s. record s { hardness = set (set s.hardness 0 (pos 1)) 1 (pos 1) })
    pure c''

  abbrev resend : ℤ → M (Control F) (Unit {0})
  resend flag = if eqb_ℤ flag (pos 1) then to_other b't' else pure tt

  -- What a heartbeat does at the backup: an election that is under way is called off.
  abbrev hear : Control F → Control F
  hear s = record s {
    start_time = change_time s.start_time net.now;
    id = if eqb_ℤ s.time_out (pos 1) then set_value s.id (other_id s) else s.id;
    time_out = if eqb_ℤ s.time_out (pos 1) then set_value s.time_out (pos 2) else s.time_out;
  }

  -- `a`: a heartbeat of the other controller.
  unfoldable pub on_heartbeat : Conn → M (Control F) Conn
  on_heartbeat c = do s ← get; if in_charge s then resend s.flag else modify hear; pure c

  abbrev count_vote : ℤ → ℤ → M (Control F) (Unit {0})
  count_vote tg vote =
      if eqb_ℤ vote (pos 0)
      then modify (λ s. record s {
        votes_recv = change_values s.votes_recv (pos 1);
        votes = set s.votes (index tg) (pos 1);
      })
      else pure tt

  abbrev vote_from : ℤ → M (Control F) (Unit {0})
  vote_from tg = do s ← get; vote ← nth s.votes tg; count_vote tg vote

  -- `p`: a TokenGen agrees to the takeover. Each counts once.
  unfoldable pub on_positive : Conn → M (Control F) Conn
  on_positive c = do
    let (tg, c') = read_int c
    s ← get
    if in_charge s then pure tt else vote_from (read_or (net.junk 0) tg)
    pure c'

  -- `n`: a TokenGen refuses.
  unfoldable pub on_negative : Conn → M (Control F) Conn
  on_negative c = do let (_, c') = read_int c; pure c'

  -- `t`: the other controller has taken over.
  unfoldable pub on_change : Conn → M (Control F) Conn
  on_change c = do
    let (controller, c') = read_int c
    modify (λ s. record s { id = set_value s.id (read_or (net.junk 0) controller) })
    write_id
    to_other b'z'
    pure c'

  abbrev clear_flag : ℤ → M (Control F) (Unit {0})
  clear_flag tg = do
    s ← get
    put s.flag_tg tg (λ s. record s { flag_tg = set s.flag_tg (index tg) (pos 0) })

  -- `y`: a TokenGen has taken note of the new controller.
  unfoldable pub on_tg_ack : Conn → M (Control F) Conn
  on_tg_ack c = do
    let (tg, c') = read_int c
    s ← get
    if in_charge s then clear_flag (read_or (net.junk 0) tg) else pure tt
    pure c'

  -- `z`: the other controller has taken note.
  unfoldable pub on_ack : Conn → M (Control F) Conn
  on_ack c = do
    let (_, c') = read_int c
    modify (λ s. if in_charge s then record s { flag = set_value s.flag (pos 0) } else s)
    pure c'

  abbrev store_rate : ℤ → Option ℤ → M (Control F) (Unit {0})
  store_rate tg none = pure tt
  store_rate tg (some x) = do
    s ← get
    put s.incoming_r tg (λ s. record s { incoming_r = set s.incoming_r (index tg) x })
    calc_soc ops

  -- `i`: the requests that a TokenGen had this second.
  unfoldable pub on_incoming : Conn → M (Control F) Conn
  on_incoming c = do
    let (tg, c') = read_int c
    let (x, c'') = read_int c'
    store_rate (read_or (net.junk 0) tg) x
    pure c''

  -- One turn of the loop, after the byte that says what follows.
  unfoldable pub dispatch : ℕ → Conn → M (Control F) Conn
  dispatch b c =
      if b == b'c'
      then on_capacity c
      else if b == b'h'
      then on_hardness c
      else if b == b'a'
      then on_heartbeat c
      else if b == b'p'
      then on_positive c
      else if b == b'n'
      then on_negative c
      else if b == b't'
      then on_change c
      else if b == b'y'
      then on_tg_ack c
      else if b == b'z'
      then on_ack c
      else if b == b'i'
      then on_incoming c
      else pure c

  abbrev pub turn : (Conn → M (Control F) Conn) → List ℕ → Conn → M (Control F) Conn
  turn again [] c = pure c
  turn again (b ∷ _) c = dispatch b c >>= again

  -- The loop of `readFromClient` on fuel; each turn takes a byte off the stream.
  unfoldable pub read_from_client : ℕ → Conn → M (Control F) Conn
  read_from_client zero c = pure c
  read_from_client (suc fuel) c =
      let (chunk, c') = read 1 c in turn (read_from_client fuel) chunk c'
