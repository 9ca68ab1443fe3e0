-- ===== src/Controller/Samples.antt =====
-- The controllers of the tests.
use web_q_final.Prelude.{refl, [], ◌∷◌, arith, replicate}
use web_q_final.Prelude.Int.{ℤ, pos}
use web_q_final.Controller.{Control, peers}
use web_q_final.Controller.Election.Handover.{IsLeader}
use web_q_final.Controller.Inbox.Protocol.{IsControl}

-- The backup, number 1, while 0 is in charge.
abbrev pub backup : Control ℤ
backup = record {
  id = pos 0;
  my_id = pos 1;
  flag = pos 0;
  time_out = pos 0;
  votes_recv = pos 0;
  majority = pos 2;
  no_of_proxy = pos 3;
  capacity = pos 720;
  hardness = pos 1 ∷ pos 1 ∷ [];
  soc = replicate peers (pos 0);
  votes = replicate peers (pos 0);
  flag_tg = replicate peers (pos 0);
  incoming_r = replicate peers (pos 0);
  incoming_rate = replicate peers (pos 0);
  sum_incoming_rate = pos 0;
  start_time = pos 990;
  ip_array = (b'3' ∷ []) ∷ (b'4' ∷ []) ∷ (b'5' ∷ []) ∷ [];
  ip_controller = (b'1' ∷ []) ∷ (b'2' ∷ []) ∷ [];
  port = pos 5000;
  trace = [];
}

abbrev pub primary : Control ℤ
primary = record backup { id = pos 1 }

-- In charge of two TokenGens, one of which is asked nothing.
abbrev pub one_busy : Control ℤ
one_busy = record primary {
  no_of_proxy = pos 2;
  incoming_r = pos 90 ∷ pos 0 ∷ pos 0 ∷ pos 0 ∷ pos 0 ∷ [];
}

pub backup-IsControl : IsControl backup
backup-IsControl = record {
  mine = omega arith;
  unsigned = refl;
  few = omega arith;
  hard = refl;
  socs = refl;
  ballots = refl;
  flags = refl;
  rates = refl;
  pair = refl;
}

pub primary-IsLeader : IsLeader 3 primary
primary-IsLeader = record {
  shape = record {
    mine = omega arith;
    unsigned = refl;
    few = omega arith;
    hard = refl;
    socs = refl;
    ballots = refl;
    flags = refl;
    rates = refl;
    pair = refl;
  };
  leads = refl;
  tokens = refl;
  known = omega arith;
}
