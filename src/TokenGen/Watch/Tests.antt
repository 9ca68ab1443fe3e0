-- ===== src/TokenGen/Watch/Tests.antt =====
-- A TokenGen with controller 0 in charge that hears nothing, and the theorems about it.
use web_q_final.Prelude.{ℕ, ◌≡◌, refl, List, [], ◌∷◌, arith, replicate, some}
use web_q_final.Prelude.Int.{ℤ, pos, ◌-ℤ◌}
use web_q_final.Machine.{done, fault, pure, ◌>>◌}
use web_q_final.TokenGen.Link.{Link, no_id, peers, on_controller, read_from_client}
use web_q_final.TokenGen.Link.Protocol.{share, controller, apply, encode_all, IsLink}
use web_q_final.TokenGen.Link.Decode.{whole}
use web_q_final.TokenGen.Watch.{Poll, timeout, timer_fn, polled}
use web_q_final.TokenGen.Watch.Recovery.{shares, timeout-recovers, timeout_twice-deaf}
use web_q_final.TokenGen.Watch.Race.{
  sequence, interrupted, controller_steps, watch, controller_steps-race,
}
use web_q_final.Wire.{bytes_of_int}
use web_q_final.Wire.RoundTrip.{read_int-bytes}
use web_q_final.Samples.{net, net-IsUp}

abbrev link : Link
link = record {
  id = pos 0;
  prev_id = pos 0;
  local_id = pos 0;
  flag = pos 0;
  my_id = pos 2;
  share = pos 3;
  capacity = pos 100;
  hardness = pos 1 ∷ pos 2 ∷ [];
  incoming_peers = replicate peers (pos 0);
  start_time = pos 900;
  ip_controller = (b'1' ∷ []) ∷ (b'2' ∷ []) ∷ [];
  port = pos 5000;
  trace = [];
}

-- Silence for two seconds, then for four.
abbrev silence : List Poll
silence =
    record { meanwhile = λ l. l; now = pos 902; restart = pos 0 }
    ∷ record { meanwhile = λ l. l; now = pos 904; restart = pos 905 }
    ∷ []

timer_fn_runs : (timer_fn (pos 900) silence link).id ≡ no_id
unfolding timer_fn polled timeout ◌-ℤ◌
timer_fn_runs = refl

link-IsLink : IsLink link
link-IsLink = record { two = refl; five = refl; pair = refl }

timeout-recovers_example :
    ((l' : Link) × (read_from_client net 2 0
          (whole (encode_all (share (pos 0) (pos 9) ∷ [])))
          (timeout link)
        ≡ done (whole [], l'))
      × (l'.id ≡ pos 0)
      × (l'.share ≡ pos 9))
    × (read_from_client net 2 0 (whole (encode_all (share (pos 1) (pos 9) ∷ []))) (timeout link)
        ≡ done (whole [], timeout link))
timeout-recovers_example =
    timeout-recovers net 0 0 1 (pos 9) link net-IsUp (omega arith, omega arith) (omega arith)
      link-IsLink (omega arith) refl (λ e. ground arith) (λ e. absurd (omega arith))

abbrev two_shares : List (ℕ × ℤ)
two_shares = (0, pos 40) ∷ (1, pos 50) ∷ []

timeout_twice-deaf_example :
    read_from_client net 3 1 (whole (encode_all (shares two_shares))) (timeout (timeout link))
    ≡ done (whole [], timeout (timeout link))
timeout_twice-deaf_example =
    timeout_twice-deaf net 3 1 two_shares link net-IsUp (omega arith)
      ((omega arith, omega arith), ((omega arith, omega arith), tt)) link-IsLink (omega arith)

-- Controller 1 takes over at second 1000, and `timer_fn` looks at the clock a second later.
controller_steps-race_example :
    let steps = controller_steps net (some (pos 1)) in
    (on_controller net (whole (bytes_of_int (pos 1))) link
      ≡ (sequence steps >> pure (whole [])) link)
    × (sequence steps link ≡ done (tt, apply net 0 (controller 1) link))
    × (sequence (interrupted 1 (watch net (pos 1001) (pos 1002)) steps) link ≡ fault)
    × (sequence (interrupted 2 (watch net (pos 1001) (pos 1002)) steps) link ≡ fault)
    × (sequence (interrupted 3 (watch net (pos 1001) (pos 1002)) steps) link ≡ sequence steps link)
    × (sequence (interrupted 4 (watch net (pos 1001) (pos 1002)) steps) link ≡ sequence steps link)
unfolding ◌-ℤ◌ bytes_of_int
controller_steps-race_example =
    controller_steps-race net 1 (whole (bytes_of_int (pos 1))) (whole []) link (pos 1001) (pos 1002)
      net-IsUp link-IsLink (omega arith) (read_int-bytes (pos 1) [] (omega arith, omega arith)) refl
      refl
