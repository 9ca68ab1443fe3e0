-- ===== src/Controller/Tests.antt =====
-- A controller with three TokenGens, messages to it, and the theorems about them. The numbers of the
-- floating-point operations are integers here, with a division that drops the fraction.
use web_q_final.Prelude.{
  false, ℕ, ◌≤◌, ◌≡◌, refl, List, [], ◌∷◌, ◌++◌, arith, get_or, get_or-replicate,
}
use web_q_final.Prelude.Int.{eqb_ℤ, ℤ, pos, pos_part}
use web_q_final.Machine.{done, fault}
use web_q_final.Wire.{bytes_of_int}
use web_q_final.Controller.{peers}
use web_q_final.Controller.Inbox.{read_from_client}
use web_q_final.Controller.Inbox.Protocol.{
  Msg, capacity, heartbeat, positive, negative, change, incoming, encode_all, apply_all,
}
use web_q_final.Controller.Inbox.Decode.{whole}
use web_q_final.Controller.Inbox.Fuel.{read_from_client-ends_control}
use web_q_final.Controller.Inbox.Wild.{read_from_client-wild_control}
use web_q_final.Controller.Inbox.Keep.{read_from_client-decode_control}
use web_q_final.Controller.Election.{await_votes, timeout}
use web_q_final.Controller.Election.Votes.{heard, IsHeard}
use web_q_final.Controller.Election.Ballot.{how_many, voted}
use web_q_final.Controller.Election.Decision.{begun}
use web_q_final.Controller.Election.Heard.{received_polls, votes-sincere, timeout-minority}
use web_q_final.Controller.Samples.{backup, backup-IsControl}
use web_q_final.Samples.{ops, net, net-IsUp}

abbrev messages : List Msg
messages = incoming 2 (pos 30) ∷ heartbeat ∷ change 0 ∷ capacity (pos 5) ∷ []

read_from_client-decode_control_example :
    read_from_client ops net 5 (whole (encode_all messages)) backup
    ≡ done (whole [], apply_all ops net messages backup)
read_from_client-decode_control_example =
    read_from_client-decode_control ops net net-IsUp 5 messages backup (omega arith)
      ((omega arith, omega arith), (tt, (omega arith, (omega arith, tt)))) backup-IsControl

-- TokenGen 2 says yes twice.
abbrev polls : List (ℤ × List Msg)
polls = (pos 1001, positive 2 ∷ []) ∷ (pos 1002, negative 0 ∷ positive 2 ∷ []) ∷ (pos 1003, []) ∷ []

polls-IsHeard : IsHeard ops net polls
polls-IsHeard = ((omega arith, tt), ((omega arith, (omega arith, tt)), (tt, tt)))

votes-sincere_example :
    pos_part (await_votes ops net (received_polls ops net polls) backup).1.votes_recv
    ≤ how_many (λ tg. voted tg (heard ops net polls)) peers 0
votes-sincere_example =
    votes-sincere ops net net-IsUp polls backup polls-IsHeard backup-IsControl refl refl

none_stored : (j : ℕ) → 3 ≤ j → get_or backup.votes j (pos 0) ≡ pos 0
none_stored j h = get_or-replicate peers j (pos 0)

timeout-minority_example :
    timeout ops net (received_polls ops net polls) [] backup
      ≡ done (await_votes ops net (received_polls ops net polls) (begun ops net backup))
    × (let s' = (await_votes ops net (received_polls ops net polls) (begun ops net backup)).1 in
        (eqb_ℤ s'.id s'.my_id ≡ false) × (s'.trace ≡ (begun ops net backup).trace))
timeout-minority_example =
    timeout-minority ops net net-IsUp polls [] backup polls-IsHeard backup-IsControl (omega arith)
      none_stored ((tt, tt), ((tt, (tt, tt)), (tt, tt))) (omega arith)

-- A rate that the stream cuts short.
read_from_client-ends_control_example :
    read_from_client ops net 7 (whole (b'i' ∷ 9 ∷ 0 ∷ b'p' ∷ 1 ∷ [])) backup
    ≡ read_from_client ops net 50 (whole (b'i' ∷ 9 ∷ 0 ∷ b'p' ∷ 1 ∷ [])) backup
read_from_client-ends_control_example =
    read_from_client-ends_control ops net 7 50 (whole (b'i' ∷ 9 ∷ 0 ∷ b'p' ∷ 1 ∷ [])) backup
      (omega arith) (omega arith)

-- TokenGen 5, at a backup that votes.
read_from_client-wild_control_example :
    read_from_client ops net 3
        (whole (b'i' ∷ ((bytes_of_int (pos 5) ++ bytes_of_int (pos 30)) ++ [])))
        backup
      ≡ fault
    × read_from_client ops net 3 (whole (b'p' ∷ (bytes_of_int (pos 5) ++ []))) backup ≡ fault
read_from_client-wild_control_example =
    read_from_client-wild_control ops net 2 (pos 5) (pos 30) [] backup backup-IsControl
      (omega arith, omega arith) (omega arith) (omega arith, omega arith)
