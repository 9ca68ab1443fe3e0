-- ===== src/Server.antt =====
-- TokenGen/src/proxy1.c and Controller/src/proxy1.c: the loop that accepts connections.
pub mod Order
mod Tests
use web_q_final.Prelude.{ℕ, ◌+◌, ◌/◌, ◌%◌, List, [], ◌∷◌, ◌++◌, Bool, if◌then◌else◌, not}
use web_q_final.Prelude.Int.{ℤ, pos, ltb_ℤ, eqb_ℤ, int32, ◌+ℤ◌}
use web_q_final.Machine.{Outcome, done, exit}

-- `struct clientDetails`: the socket and the four bytes of the address.
pub record Client : Type 0 where
  pub sockfd : ℕ
  pub ip : ℕ × ℕ × ℕ × ℕ

-- What `accept` answers: a socket and `s_addr`, with what `pthread_create` answers for the client
-- (0, or the number of an error, when no thread runs), or an error.
pub data Accepted : Type 0 where
  arrived : ℕ → ℕ → ℤ → Accepted
  failed : Accepted

-- What `socket`, `bind` and `setsockopt` answer.
pub record Setup : Type 0 where
  pub socket_ok : Bool
  pub bind_ok : Bool
  pub option_ok : Bool

-- `ipToid`, the clients whose threads run, and `connectedClients`.
pub record Clients : Type 0 where
  pub ip_to_id : List (Client × ℤ)
  pub threads : List Client
  pub connected : ℤ

-- `s_addr & 0xFF`, `(s_addr & 0xFF00) >> 8` and so on.
unfoldable pub address : ℕ → ℕ × ℕ × ℕ × ℕ
address a = (a % 256, a / 256 % 256, a / 65536 % 256, a / 16777216 % 256)

abbrev pub client : ℕ → ℕ → Client
client fd addr = record { sockfd = fd; ip = address addr }

-- What `pthread_create` does: the thread runs where its answer is 0.
abbrev pub create_thread : ℤ → Client → List Client → List Client
create_thread answer cd threads = if eqb_ℤ answer (pos 0) then threads ++ (cd ∷ []) else threads

-- A client gets its number, and its thread.
abbrev pub enrol : Client → ℤ → Clients → Clients
enrol cd answer c = record {
  ip_to_id = c.ip_to_id ++ ((cd, c.connected) ∷ []);
  threads = create_thread answer cd c.threads;
  connected = int32 (c.connected +ℤ pos 1);
}

unfoldable pub accept_loop : List Accepted → Clients → Outcome Clients
unfolding address
accept_loop [] c = done c
accept_loop (failed ∷ later) c = exit 1
accept_loop (arrived fd addr answer ∷ later) c =
    let rest = accept_loop later (enrol (client fd addr) answer c) in
    if ltb_ℤ answer (pos 0) then exit 1 else rest

-- `create_server_socket`, as far as these answers go. `done` is a loop that goes on.
unfoldable pub create_server_socket : Setup → List Accepted → Clients → Outcome Clients
unfolding accept_loop
create_server_socket s answers c =
    if not s.socket_ok
    then exit 1
    else if not s.bind_ok
    then exit 1
    else if not s.option_ok
    then exit 2
    else accept_loop answers c
