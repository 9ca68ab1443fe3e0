-- ===== src/TokenGen/Link.antt =====
-- TokenGen/src/proxy1.c: the shared variables of the link to the controllers, and the messages that
-- arrive on it.
pub mod Protocol
pub mod Decode
pub mod Cut
pub mod Overrun
pub mod Typed
pub mod Robust
pub mod Fuel
mod Tests
use web_q_final.Prelude.{
  ℕ, zero, suc, ◌+◌, List, [], ◌∷◌, ◌++◌, Bool, ◌&&◌, ◌||◌, ◌==◌, if◌then◌else◌, set, Option, none,
  some,
}
use web_q_final.Prelude.Int.{ℤ, pos, negsuc, eqb_ℤ}
use web_q_final.Cells.{set_value, change_time}
use web_q_final.Machine.{Outcome, done, exit, fault, M, pure, ◌>>=◌, ◌>>◌, get, modify, nth}
use web_q_final.Net.{Net, Effect, stored, started, queue_sender, session}
use web_q_final.Text.{decimal}
use web_q_final.Wire.{Conn, read, read_int, bytes_of_int}

-- The globals. `hardness` holds its two `double`s as the integers that are stored in them; `port` is
-- `atoi(sending_port)`, and `trace` what the program has done to the outside.
pub record Link : Type 0 where
  pub id : ℤ
  pub prev_id : ℤ
  pub local_id : ℤ
  pub flag : ℤ
  pub my_id : ℤ
  pub share : ℤ
  pub capacity : ℤ
  pub hardness : List ℤ
  pub incoming_peers : List ℤ
  pub start_time : ℤ
  pub ip_controller : List (List ℕ)
  pub port : ℤ
  pub trace : List Effect

abbrev pub no_id : ℤ
no_id = negsuc 0

-- PEERS of timer.h.
abbrev pub peers : ℕ
peers = 5

abbrev emit : Outcome (List Effect) → M Link (Unit {0})
emit o l = elim o [
  | done es ↦ done (tt, record l { trace = l.trace ++ es })
  | exit n ↦ exit n
  | fault ↦ fault
]

-- Stores the value of a read, if it returned one.
abbrev if_read : Option ℤ → (ℤ → Link → Link) → M Link (Unit {0})
if_read none f l = done (tt, l)
if_read (some v) f l = done (tt, f v l)

abbrev read_or : ℤ → Option ℤ → ℤ
read_or d none = d
read_or d (some v) = v

module _ (net : Net) where
  -- `fprintf(fptr, "%d", id)` replaces the text of IdStore.
  unfoldable pub write_id : M Link (Unit {0})
  write_id l =
      if net.fopen_ok
      then done (tt, record l { trace = l.trace ++ (stored (decimal l.id) ∷ []) })
      else done (tt, l)

  -- The response character and `myId`, in one session.
  unfoldable pub send_response : List ℕ → ℕ → M Link (Unit {0})
  send_response addr response l =
      emit (session net addr l.port ((response ∷ []) ∷ bytes_of_int l.my_id ∷ [])) l

  -- `c`: the capacity that was read is replaced at once.
  unfoldable pub on_capacity : Conn → M Link Conn
  on_capacity c = do
    let (v, c') = read_int c
    if_read v (λ x l. record l { capacity = x })
    modify (λ l. record l { capacity = pos 720 })
    pure c'

  abbrev accepts : ℤ → Link → Bool
  accepts controller l = (eqb_ℤ l.id no_id && eqb_ℤ controller l.prev_id) || eqb_ℤ controller l.id

  abbrev take_share : ℤ → Link → Link
  take_share sh l = record l {
    share = if eqb_ℤ sh (pos 0) then l.share else sh;
    start_time = change_time l.start_time net.now;
    id = if eqb_ℤ l.id no_id then set_value l.id l.prev_id else l.id;
  }

  -- `s`: a share from the controller with this id.
  unfoldable pub on_share : Conn → M Link Conn
  on_share c = do
    let (controller, c') = read_int c
    let (sh, c'') = read_int c'
    modify (λ l.
        if accepts (read_or (net.junk 0) controller) l
        then take_share (read_or (net.junk 1) sh) l
        else l)
    pure c''

  -- `h`: both values are replaced by 1.
  unfoldable pub on_hardness : Conn → M Link Conn
  on_hardness c = do
    let (a, c') = read_int c
    if_read a (λ x l. record l { hardness = set l.hardness 0 x })
    let (b, c'') = read_int c'
    if_read b (λ x l. record l { hardness = set l.hardness 1 x })
    modify (λ l. record l { hardness = set (set l.hardness 0 (pos 1)) 1 (pos 1) })
    pure c''

  abbrev store_incoming : ℕ → Option ℤ → M Link (Unit {0})
  store_incoming client none = pure tt
  store_incoming client (some x) = do
    l ← get
    _ ← nth l.incoming_peers (pos client)
    modify (λ l. record l { incoming_peers = set l.incoming_peers client x })

  -- `i`: `client` is `ipToid[cd]`, the number of the connection.
  unfoldable pub on_incoming : ℕ → Conn → M Link Conn
  on_incoming client c = do let (v, c') = read_int c; store_incoming client v; pure c'

  abbrev vote_of : ℤ → ℕ
  vote_of current = if eqb_ℤ current no_id then b'p' else b'n'

  abbrev answer : Option ℤ → M Link (Unit {0})
  answer none = pure tt
  answer (some x) = do
    modify (λ l. record l { local_id = x })
    l ← get
    addr ← nth l.ip_controller l.local_id
    send_response addr (vote_of l.id)

  -- `x`: a controller asks to take over.
  unfoldable pub on_takeover : Conn → M Link Conn
  on_takeover c = do let (v, c') = read_int c; answer v; pure c'

  abbrev obey : Option ℤ → M Link (Unit {0})
  obey none = pure tt
  obey (some x) = do
    modify (λ l. record l { id = set_value l.id x })
    write_id
    modify (λ l. record l { start_time = change_time l.start_time net.now })

  -- `t`: a new controller is in charge.
  unfoldable pub on_controller : Conn → M Link Conn
  on_controller c = do
    let (v, c') = read_int c
    obey v
    modify (λ l. record l { flag = set_value l.flag (pos 1) })
    l ← get
    addr ← nth l.ip_controller l.id
    send_response addr b'y'
    modify (λ l. record l { trace = l.trace ++ (started (queue_sender (pos 0)) ∷ []) })
    pure c'

  -- One turn of the loop, after the byte that says what follows.
  unfoldable pub dispatch : ℕ → ℕ → Conn → M Link Conn
  dispatch client b c =
      if b == b'c'
      then on_capacity c
      else if b == b's'
      then on_share c
      else if b == b'h'
      then on_hardness c
      else if b == b'i'
      then on_incoming client c
      else if b == b'x'
      then on_takeover c
      else if b == b't'
      then on_controller c
      else pure c

  -- The body of the loop, with the loop's next turn as `again`.
  abbrev turn : (Conn → M Link Conn) → ℕ → List ℕ → Conn → M Link Conn
  turn again client [] c = pure c
  turn again client (b ∷ _) c = dispatch client b c >>= again

  -- The loop of `readFromClient` on fuel; each turn takes a byte off the stream.
  unfoldable pub read_from_client : ℕ → ℕ → Conn → M Link Conn
  read_from_client zero client c = pure c
  read_from_client (suc fuel) client c =
      let (chunk, c') = read 1 c in turn (read_from_client fuel client) client chunk c'
