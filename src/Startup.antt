-- ===== src/Startup.antt =====
-- What TokenGen and a controller start with: the number of the controller in charge, from the file
-- IdStore, and the values that the two `main` functions set before they start their threads.
pub mod Store
pub mod Shape
mod Tests
use web_q_final.Prelude.{ℕ, ◌/◌, List, [], ◌∷◌, Option, none, some, replicate, if◌then◌else◌}
use web_q_final.Prelude.Int.{ℤ, pos, pos_part, neg_part, sub_ℕ, int32, ◌+ℤ◌}
use web_q_final.Floats.{FloatOps}
use web_q_final.Text.{atoi}
use web_q_final.Machine.{Outcome, done, fault}
use web_q_final.Config.{Config, parse_token_gen, parse_controller}
use web_q_final.TokenGen.Link.{Link, peers}
use web_q_final.Controller.{Control}

-- `fgetc`: the first byte; 255 is what `EOF` is as a `char`.
unfoldable pub first_char : List ℕ → ℕ
first_char [] = 255
first_char (c ∷ _) = c

-- `readID`. `atoi(&c)` reads on after the variable `c`, through the bytes `after` that are behind it in
-- memory, up to the first 0. `none` is a file that cannot be opened.
unfoldable pub read_id : List ℕ → Option (List ℕ) → ℤ → ℤ
unfolding first_char
read_id after none id = id
read_id after (some file) id = atoi (first_char file ∷ after)

-- The division of an `int` by 2.
abbrev pub half : ℤ → ℤ
half z = sub_ℕ (pos_part z / 2) (neg_part z / 2)

-- The variables of TokenGen after its `main` has read proxy.conf and, as `id`, IdStore.
abbrev pub link_of : Config → ℤ → Link
link_of c id = record {
  id = id;
  prev_id = pos 0;
  local_id = pos 0;
  flag = pos 0;
  my_id = c.my_id;
  share = pos 0;
  capacity = pos 720;
  hardness = pos 1 ∷ pos 1 ∷ [];
  incoming_peers = replicate peers (pos 0);
  start_time = pos 0;
  ip_controller = c.ip_controller;
  port = atoi c.sending_port;
  trace = [];
}

-- A copy past the memory of a value of proxy.conf is a fault. `heap` is what the memory held before.
unfoldable pub start_token_gen :
    (ℕ → List ℕ) → List ℕ → Option (List ℕ) → Option (List ℕ) → Outcome Link
unfolding parse_token_gen read_id
start_token_gen heap after conf store =
    let c = parse_token_gen heap conf in
    if c.in_bounds then done (link_of c (read_id after store (pos 0))) else fault

-- The variables of a controller at that point.
abbrev pub control_of : {F : Type 0} → FloatOps F → Config → ℤ → Control F
control_of ops c id = record {
  id = id;
  my_id = c.my_id;
  flag = pos 0;
  time_out = pos 0;
  votes_recv = pos 0;
  majority = int32 (half c.no_of_proxy +ℤ pos 1);
  no_of_proxy = c.no_of_proxy;
  capacity = pos 720;
  hardness = pos 1 ∷ pos 1 ∷ [];
  soc = replicate peers (pos 1);
  votes = replicate peers (pos 0);
  flag_tg = replicate peers (pos 0);
  incoming_r = replicate peers (pos 0);
  incoming_rate = replicate peers (ops.of_int (pos 0));
  sum_incoming_rate = ops.of_int (pos 0);
  start_time = pos 0;
  ip_array = c.ip_array;
  ip_controller = c.ip_controller;
  port = atoi c.sending_port;
  trace = [];
}

-- `main` of a controller.
unfoldable pub start_controller :
    {F : Type 0}
    → FloatOps F
    → (ℕ → List ℕ)
    → List ℕ
    → Option (List ℕ)
    → Option (List ℕ)
    → Outcome (Control F)
unfolding parse_controller read_id
start_controller ops heap after conf store =
    let c = parse_controller heap conf in
    if c.in_bounds then done (control_of ops c (read_id after store (pos 0))) else fault
