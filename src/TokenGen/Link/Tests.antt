-- ===== src/TokenGen/Link/Tests.antt =====
-- A stream of messages to TokenGen, and the theorem about it.
use web_q_final.Prelude.{◌≡◌, refl, List, [], ◌∷◌, ◌++◌, arith, replicate}
use web_q_final.Prelude.Int.{pos, negsuc}
use web_q_final.Machine.{done, fault}
use web_q_final.TokenGen.Link.{Link, no_id, peers, read_from_client}
use web_q_final.TokenGen.Link.Protocol.{
  Msg, capacity, share, hardness, incoming, takeover, controller, encode, encode_all, apply,
  apply_all,
}
use web_q_final.TokenGen.Link.Decode.{whole, read_from_client-decode}
use web_q_final.TokenGen.Link.Cut.{cut_share, read_from_client-cut}
use web_q_final.TokenGen.Link.Overrun.{read_from_client-overrun, read_from_client-wild}
use web_q_final.TokenGen.Link.Typed.{IsRun, names_controller}
use web_q_final.TokenGen.Link.Robust.{read_from_client-IsRun}
use web_q_final.TokenGen.Link.Fuel.{read_from_client-ends}
use web_q_final.Wire.{Conn, bytes_of_int}
use web_q_final.Wire.Bytes.{any}
use web_q_final.Samples.{net, net-IsUp}

abbrev link : Link
link = record {
  id = no_id;
  prev_id = pos 0;
  local_id = pos 0;
  flag = pos 0;
  my_id = pos 2;
  share = pos 3;
  capacity = pos 100;
  hardness = pos 1 ∷ pos 2 ∷ [];
  incoming_peers = replicate peers (pos 0);
  start_time = pos 900;
  ip_controller = (b'1' ∷ []) ∷ (b'2' ∷ []) ∷ [];
  port = pos 5000;
  trace = [];
}

abbrev messages : List Msg
messages =
    takeover 1
    ∷ controller 1
    ∷ share (pos 1) (pos 40)
    ∷ incoming (pos 12)
    ∷ hardness (pos 3) (negsuc 4)
    ∷ capacity (pos 300)
    ∷ []

read_from_client-decode_example :
    read_from_client net 7 1 (whole (encode_all messages)) link
    ≡ done (whole [], apply_all net 1 messages link)
read_from_client-decode_example =
    read_from_client-decode net net-IsUp 7 1 messages link (omega arith)
      (
        omega arith,
        (
          omega arith,
          (
            (omega arith, omega arith),
            (omega arith, ((omega arith, omega arith), (omega arith, tt))),
          ),
        ),
      )
      (record { two = refl; five = refl; pair = refl }) (omega arith)

read_from_client-overrun_example :
    read_from_client net 2 5 (whole (encode (incoming (pos 12)) ++ (b'c' ∷ []))) link ≡ fault
read_from_client-overrun_example =
    read_from_client-overrun net 1 5 (pos 12) (b'c' ∷ []) link
      (record { two = refl; five = refl; pair = refl }) (omega arith) (omega arith)

-- A letter that says nothing, then a share that is cut short within its first integer.
abbrev cut_conn : Conn
cut_conn = record {
  stream = b'z' ∷ b's' ∷ 1 ∷ 0 ∷ 0 ∷ 0 ∷ 200 ∷ 255 ∷ [];
  sizes = 1 ∷ 1 ∷ 3 ∷ 4 ∷ 1 ∷ [];
}

read_from_client-IsRun_example :
    IsRun (any names_controller cut_conn.stream) (read_from_client net 9 1 cut_conn link)
read_from_client-IsRun_example =
    read_from_client-IsRun net 9 1 cut_conn link net-IsUp (omega arith) (omega arith) (omega arith)
      (record {
        shape = record { two = refl; five = refl; pair = refl };
        ids = (omega arith, omega arith, omega arith);
        amounts = (omega arith, omega arith, omega arith);
        weights = omega arith;
        rates = omega arith;
      })

read_from_client-ends_example :
    read_from_client net 9 1 cut_conn link ≡ read_from_client net 100 1 cut_conn link
read_from_client-ends_example =
    read_from_client-ends net 9 100 1 cut_conn link (omega arith) (omega arith)

read_from_client-wild_example :
    read_from_client net 2 0 (whole (b't' ∷ (bytes_of_int (pos 2) ++ (b'c' ∷ [])))) link ≡ fault
read_from_client-wild_example =
    read_from_client-wild net 1 0 b't' (pos 2) (b'c' ∷ []) link net-IsUp
      (record { two = refl; five = refl; pair = refl }) (omega arith) (omega arith) refl

-- A share of 300 whose first byte arrives alone is taken as 44.
read_from_client-cut_example :
    read_from_client net 5 0 (cut_share 1 (pos 0) (pos 300) [] []) link
    ≡ read_from_client net 4 0
        (record { stream = 1 ∷ 0 ∷ 0 ∷ []; sizes = [] })
        (record link { share = pos 44; start_time = net.now; id = pos 0 })
unfolding bytes_of_int apply
read_from_client-cut_example =
    read_from_client-cut 1 (pos 0) (pos 300) [] [] net 4 0 link (omega arith, omega arith)
      (omega arith) (omega arith)
