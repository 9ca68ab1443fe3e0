-- ===== src/TokenGen/Link/Protocol.antt =====
-- The messages that TokenGen is sent, and what each is to do. The decoder is proved against this in
-- Decode.
use web_q_final.Prelude.{
  ℕ, ◌<◌, ◌≡◌, List, [], ◌∷◌, ◌++◌, Bool, ◌||◌, if◌then◌else◌, set, get_or, length,
}
use web_q_final.Prelude.Int.{ℤ, pos, eqb_ℤ, IsInt}
use web_q_final.Net.{Net, Effect, sent, stored, started, queue_sender}
use web_q_final.Text.{decimal}
use web_q_final.Wire.{bytes_of_int}
use web_q_final.TokenGen.Link.{Link, no_id, peers}

pub data Msg : Type 0 where
  capacity : ℤ → Msg
  share : ℤ → ℤ → Msg
  hardness : ℤ → ℤ → Msg
  incoming : ℤ → Msg
  takeover : ℕ → Msg
  controller : ℕ → Msg

-- A character, then the integers.
abbrev pub encode : Msg → List ℕ
encode (capacity v) = b'c' ∷ bytes_of_int v
encode (share c sh) = b's' ∷ (bytes_of_int c ++ bytes_of_int sh)
encode (hardness a b) = b'h' ∷ (bytes_of_int a ++ bytes_of_int b)
encode (incoming v) = b'i' ∷ bytes_of_int v
encode (takeover n) = b'x' ∷ bytes_of_int (pos n)
encode (controller n) = b't' ∷ bytes_of_int (pos n)

abbrev pub encode_all : List Msg → List ℕ
encode_all [] = []
encode_all (m ∷ ms) = encode m ++ encode_all ms

-- The integers are values of an `int`, and a controller's number is 0 or 1.
abbrev pub IsMsg : Msg → Type 0
IsMsg (capacity v) = IsInt v
IsMsg (share c sh) = IsInt c × IsInt sh
IsMsg (hardness a b) = IsInt a × IsInt b
IsMsg (incoming v) = IsInt v
IsMsg (takeover n) = n < 2
IsMsg (controller n) = n < 2

abbrev pub controller_ip : Link → ℕ → List ℕ
controller_ip l n = get_or l.ip_controller n []

-- A share counts if its sender is in charge, or was before TokenGen gave up on it.
abbrev pub in_charge : Link → ℤ → Bool
in_charge l c = if eqb_ℤ l.id no_id then eqb_ℤ c l.prev_id || eqb_ℤ c no_id else eqb_ℤ c l.id

abbrev pub reply : Link → ℕ → ℕ → List Effect
reply l n response = sent (controller_ip l n) l.port (response ∷ bytes_of_int l.my_id) ∷ []

module _ (net : Net) (client : ℕ) where
  -- What each message does.
  unfoldable pub apply : Msg → Link → Link
  apply (capacity v) l = record l { capacity = pos 720 }
  apply (share c sh) l =
      if in_charge l c
      then record l {
        share = if eqb_ℤ sh (pos 0) then l.share else sh;
        start_time = net.now;
        id = if eqb_ℤ l.id no_id then l.prev_id else l.id;
      }
      else l
  apply (hardness a b) l = record l { hardness = pos 1 ∷ pos 1 ∷ [] }
  apply (incoming v) l = record l { incoming_peers = set l.incoming_peers client v }
  apply (takeover n) l = record l {
    local_id = pos n;
    trace = l.trace ++ reply l n (if eqb_ℤ l.id no_id then b'p' else b'n');
  }
  apply (controller n) l = record l {
    id = pos n;
    start_time = net.now;
    flag = pos 1;
    trace =
        ((l.trace ++ (stored (decimal (pos n)) ∷ [])) ++ reply l n b'y')
        ++ (started (queue_sender (pos 0)) ∷ []);
  }

  unfoldable pub apply_all : List Msg → Link → Link
  apply_all [] l = l
  apply_all (m ∷ ms) l = apply_all ms (apply m l)

-- The arrays have their sizes.
pub record IsLink (l : Link) : Type 0 where
  pub two : length l.hardness ≡ 2
  pub five : length l.incoming_peers ≡ peers
  pub pair : length l.ip_controller ≡ 2
