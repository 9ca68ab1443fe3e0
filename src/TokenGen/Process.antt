-- ===== src/TokenGen/Process.antt =====
-- TokenGen/src/proxy1.c and timer.h: the whole program, as the steps that its threads take on the
-- variables that they share: requests, messages, ticks of the logger, the watch on the
-- controller, and the reports to it.
pub mod Granted
pub mod Turn
pub mod Safety
pub mod Samples
mod Tests
use web_q_final.Prelude.{ℕ, suc, ◌+◌, List, [], ◌∷◌, ◌++◌, Bool, length, Option, replicate}
use web_q_final.Prelude.Int.{ℤ, pos, pos_part}
use web_q_final.Floats.{FloatOps}
use web_q_final.Machine.{Outcome, done, exit, fault}
use web_q_final.Net.{Net, Effect, sent}
use web_q_final.Wire.{Conn}
use web_q_final.Queue.{Queue, fresh}
use web_q_final.Startup.{start_token_gen}
use web_q_final.TokenGen.Book.{Book}
use web_q_final.TokenGen.Link.{Link, peers, read_from_client}
use web_q_final.TokenGen.Link.Protocol.{Msg, encode_all}
use web_q_final.TokenGen.Link.Decode.{whole}
use web_q_final.TokenGen.Outbox.{Outbox, report, write_to_server}
use web_q_final.TokenGen.Reply.{Hmac, Request, Reply, refresh, busy, Front, serve_request}
use web_q_final.TokenGen.Second.{Stats, LogLine, log_data}
use web_q_final.TokenGen.Watch.{polled}

-- The variables of all threads. `share`, `capacity`, `hardness` and `incoming_peers` are those of
-- `link`. `clock` and `due` are not the program's: the seconds since the start, and the second in
-- which each client that was sent away is to come back.
pub record Process (F : Type 0) : Type 0 where
  pub link : Link
  pub book : Book
  pub incoming : ℤ
  pub total_in : ℤ
  pub outgoing : ℤ
  pub failing : ℤ
  pub numbytes : ℤ
  pub tot_numbytes : ℤ
  pub peer_incoming_rate : List F
  pub sum_peer_incoming_rate : F
  pub host_incoming_rate : F
  pub total_waiting_time : F
  pub queue : Queue
  pub log : List (LogLine F)
  pub clock : ℕ
  pub due : List ℕ

-- `request`: a turn of the loop of `main`. `received`: messages that one connection brings, read
-- without an interruption; one at a time, they can come between the steps of the other threads. `logged`:
-- the logger runs, with its log open or not, and memory or not. `watched`: a test of `timer_fn`, with
-- what the clock shows then and at its next start. `opened`: a thread of `writeToServer` opens its
-- connection. `reported`: one turn of the loop of such a thread, on its connection to this address, from
-- its write with this number on.
pub data Action : Type 0 where
  request : Request → Action
  received : ℕ → List Msg → Action
  logged : Bool → Bool → Action
  watched : ℤ → ℤ → Action
  opened : Action
  reported : List ℕ → ℕ → Action

module _ {F : Type 0} where
  -- What `main` sees of the variables, and what it leaves in them.
  abbrev pub front : Process F → Front F
  front p = record {
    book = p.book;
    share = p.link.share;
    incoming = p.incoming;
    total_in = p.total_in;
    hardness = p.link.hardness;
    incoming_peers = p.link.incoming_peers;
    peer_incoming_rate = p.peer_incoming_rate;
    total_waiting_time = p.total_waiting_time;
  }

  abbrev pub with_front : Front F → Process F → Process F
  with_front f p = record p {
    link = record p.link { share = f.share };
    book = f.book;
    incoming = f.incoming;
    total_in = f.total_in;
    peer_incoming_rate = f.peer_incoming_rate;
    total_waiting_time = f.total_waiting_time;
  }

  -- What the logger sees, and what it leaves.
  abbrev pub stats : Process F → Stats F
  stats p = record {
    queue = p.queue;
    book = p.book;
    incoming = p.incoming;
    outgoing = p.outgoing;
    failing = p.failing;
    numbytes = p.numbytes;
    tot_numbytes = p.tot_numbytes;
    capacity = p.link.capacity;
    share = p.link.share;
    host_incoming_rate = p.host_incoming_rate;
    sum_peer_incoming_rate = p.sum_peer_incoming_rate;
    total_waiting_time = p.total_waiting_time;
    log = p.log;
  }

  abbrev pub with_stats : Stats F → Process F → Process F
  with_stats s p = record p {
    queue = s.queue;
    book = s.book;
    incoming = s.incoming;
    outgoing = s.outgoing;
    numbytes = s.numbytes;
    tot_numbytes = s.tot_numbytes;
    host_incoming_rate = s.host_incoming_rate;
    total_waiting_time = s.total_waiting_time;
    log = s.log;
  }

  -- A client that is told to come back is due after so many seconds.
  abbrev pub expect : Reply → Process F → Process F
  expect (refresh wait _) p = record p { due = (p.clock + pos_part wait) ∷ p.due }
  expect busy p = p

  abbrev pub replied : Process F → Outcome (Reply × Front F) → Outcome (Process F)
  replied p (done (reply, f)) = done (expect reply (with_front f p))
  replied p (exit n) = exit n
  replied p fault = fault

  -- What `writeToServer` sees of the variables, and what it leaves in them.
  abbrev pub outbox : Process F → Outbox
  outbox p = record {
    flag = p.link.flag;
    my_id = p.link.my_id;
    incoming = p.incoming;
    numbytes = p.numbytes;
  }

  abbrev pub with_outbox : List Effect → Outbox → Process F → Process F
  with_outbox es o p = record p {
    link = record p.link { flag = o.flag; trace = p.link.trace ++ es };
    numbytes = o.numbytes;
  }

  abbrev pub connected : Process F → Outcome (List Effect × Outbox) → Outcome (Process F)
  connected p (done (es, o)) = done (with_outbox es o p)
  connected p (exit n) = exit n
  connected p fault = fault

  abbrev pub linked : Process F → Outcome (Conn × Link) → Outcome (Process F)
  linked p (done (_, l)) = done (record p { link = l })
  linked p (exit n) = exit n
  linked p fault = fault

module _ {F : Type 0} (ops : FloatOps F) (hmac : Hmac) (check : List ℕ) (lim : ℕ) (net : Net) where
  unfoldable pub act : Action → Process F → Outcome (Process F)
  act (request r) p = replied p (serve_request ops hmac check lim r (front p))
  act (received client ms) p =
      linked p (read_from_client net (suc (length ms)) client (whole (encode_all ms)) p.link)
  act (logged log_open mem) p =
      let p' = with_stats (log_data ops lim log_open mem (stats p)) p in
      done (record p' { clock = p.clock + 1 })
  act (watched now restart) p = done (record p {
    link = polled (record { meanwhile = λ l. l; now = now; restart = restart }) p.link;
  })
  act opened p = connected p (write_to_server net p.link [] (outbox p))
  act (reported addr k) p =
      let (bytes, _, o) = report net k (outbox p) in
      done (with_outbox (sent addr p.link.port bytes ∷ []) o p)

  abbrev pub then_act :
      (Process F → Outcome (Process F)) → Outcome (Process F) → Outcome (Process F)
  then_act again (done p) = again p
  then_act again (exit n) = exit n
  then_act again fault = fault

  unfoldable pub act_all : List Action → Process F → Outcome (Process F)
  act_all [] p = done p
  act_all (a ∷ rest) p = then_act (act_all rest) (act a p)

  -- The variables when `main` has started its threads.
  abbrev pub opening : Link → Process F
  opening l = record {
    link = l;
    book = record { visitor_count = replicate lim (pos 0); current_time = 0 };
    incoming = pos 0;
    total_in = pos 0;
    outgoing = pos 0;
    failing = pos 0;
    numbytes = pos 0;
    tot_numbytes = pos 0;
    peer_incoming_rate = replicate peers (ops.of_int (pos 0));
    sum_peer_incoming_rate = ops.of_int (pos 0);
    host_incoming_rate = ops.of_int (pos 0);
    total_waiting_time = ops.of_int (pos 0);
    queue = fresh (pos 100);
    log = [];
    clock = 0;
    due = [];
  }

  abbrev pub started : Outcome Link → Outcome (Process F)
  started (done l) = done (opening l)
  started (exit n) = exit n
  started fault = fault

  -- From what memory held, what follows the variable of `readID`, and the files proxy.conf and IdStore.
  unfoldable pub start :
      (ℕ → List ℕ) → List ℕ → Option (List ℕ) → Option (List ℕ) → Outcome (Process F)
  start heap after conf store = started (start_token_gen heap after conf store)
