-- ===== src/Controller/Inbox/Protocol.antt =====
-- The messages that a controller is sent, and what each is to do. The decoder is proved against this
-- in Decode.
use web_q_final.Prelude.{
  ℕ, ◌-◌, ◌<◌, ◌≤◌, ◌≡◌, List, [], ◌∷◌, ◌++◌, if◌then◌else◌, set, get_or, length,
}
use web_q_final.Prelude.Int.{ℤ, pos, eqb_ℤ, IsInt, pos_part}
use web_q_final.Cells.{change_values}
use web_q_final.Floats.{FloatOps}
use web_q_final.Net.{Net, sent, stored}
use web_q_final.Text.{decimal}
use web_q_final.Wire.{bytes_of_int}
use web_q_final.Controller.{Control, share_out, peers}

-- A TokenGen is named by its number, and a controller by 0 or 1.
pub data Msg : Type 0 where
  capacity : ℤ → Msg
  hardness : ℤ → ℤ → Msg
  heartbeat : Msg
  positive : ℕ → Msg
  negative : ℕ → Msg
  change : ℕ → Msg
  tg_ack : ℕ → Msg
  ack : ℕ → Msg
  incoming : ℕ → ℤ → Msg

-- A character, then the integers.
abbrev pub encode : Msg → List ℕ
encode (capacity v) = b'c' ∷ bytes_of_int v
encode (hardness a b) = b'h' ∷ (bytes_of_int a ++ bytes_of_int b)
encode heartbeat = b'a' ∷ []
encode (positive tg) = b'p' ∷ bytes_of_int (pos tg)
encode (negative tg) = b'n' ∷ bytes_of_int (pos tg)
encode (change n) = b't' ∷ bytes_of_int (pos n)
encode (tg_ack tg) = b'y' ∷ bytes_of_int (pos tg)
encode (ack n) = b'z' ∷ bytes_of_int (pos n)
encode (incoming tg v) = b'i' ∷ (bytes_of_int (pos tg) ++ bytes_of_int v)

abbrev pub encode_all : List Msg → List ℕ
encode_all [] = []
encode_all (m ∷ ms) = encode m ++ encode_all ms

abbrev pub IsMsg : Msg → Type 0
IsMsg (capacity v) = IsInt v
IsMsg (hardness a b) = IsInt a × IsInt b
IsMsg heartbeat = Unit {0}
IsMsg (positive tg) = tg < peers
IsMsg (negative tg) = tg < peers
IsMsg (change n) = n < 2
IsMsg (tg_ack tg) = tg < peers
IsMsg (ack n) = n < 2
IsMsg (incoming tg v) = (tg < peers) × IsInt v

module _ {F : Type 0} where
  -- The number of the controller is 0 or 1, and the arrays have their sizes.
  pub record IsControl (s : Control F) : Type 0 where
    pub mine : pos_part s.my_id < 2
    pub unsigned : s.my_id ≡ pos (pos_part s.my_id)
    pub few : pos_part s.no_of_proxy ≤ peers
    pub hard : length s.hardness ≡ 2
    pub socs : length s.soc ≡ peers
    pub ballots : length s.votes ≡ peers
    pub flags : length s.flag_tg ≡ peers
    pub rates : length s.incoming_r ≡ peers
    pub pair : length s.ip_controller ≡ 2

  abbrev pub other : Control F → ℕ
  other s = 1 - pos_part s.my_id

  abbrev pub tell_other : ℕ → Control F → Control F
  tell_other delim s = record s {
    trace =
        s.trace
        ++ (sent (get_or s.ip_controller (other s) []) s.port (delim ∷ bytes_of_int s.my_id) ∷ []);
  }

module _ {F : Type 0} (ops : FloatOps F) (net : Net) where
  abbrev pub update_soc : Control F → Control F
  update_soc s = if eqb_ℤ s.id s.my_id then share_out ops (pos_part s.no_of_proxy) s else s

  -- What each message does. Votes and heartbeats count at a backup, acknowledgements of a TokenGen
  -- and of the other controller at the controller in charge.
  unfoldable pub apply : Msg → Control F → Control F
  apply (capacity v) s = record s { capacity = pos 720 }
  apply (hardness a b) s = record s { hardness = pos 1 ∷ pos 1 ∷ [] }
  apply heartbeat s =
      if eqb_ℤ s.id s.my_id
      then (if eqb_ℤ s.flag (pos 1) then tell_other b't' s else s)
      else record s {
        start_time = net.now;
        id = if eqb_ℤ s.time_out (pos 1) then pos (other s) else s.id;
        time_out = if eqb_ℤ s.time_out (pos 1) then pos 2 else s.time_out;
      }
  apply (positive tg) s =
      if eqb_ℤ s.id s.my_id
      then s
      else (if eqb_ℤ (get_or s.votes tg (pos 0)) (pos 0)
          then record s {
            votes_recv = change_values s.votes_recv (pos 1);
            votes = set s.votes tg (pos 1);
          }
          else s)
  apply (negative tg) s = s
  apply (change n) s =
      tell_other b'z' (record s { id = pos n; trace = s.trace ++ (stored (decimal (pos n)) ∷ []) })
  apply (tg_ack tg) s =
      if eqb_ℤ s.id s.my_id then record s { flag_tg = set s.flag_tg tg (pos 0) } else s
  apply (ack n) s = if eqb_ℤ s.id s.my_id then record s { flag = pos 0 } else s
  apply (incoming tg v) s = update_soc (record s { incoming_r = set s.incoming_r tg v })

  unfoldable pub apply_all : List Msg → Control F → Control F
  apply_all [] s = s
  apply_all (m ∷ ms) s = apply_all ms (apply m s)
