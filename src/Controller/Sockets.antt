-- ===== src/Controller/Sockets.antt =====
-- `create_server_socket` of Controller/src/proxy1.c, which logs the clients that it accepts. The
-- answers of the system calls are those of Server.
mod Tests
use mathlib.Core.List.{append_assoc, append-nil}
use mathlib.Core.Path.{subst}
use web_q_final.Prelude.{
  ℕ, ◌+◌, ◌^◌, ◌<◌, ◌≡◌, ◌∙◌, ap, sym, refl, arith, List, [], ◌∷◌, ◌++◌, true, not, length,
  if◌then◌else◌,
}
use web_q_final.Prelude.Int.{ℤ, pos, ltb_ℤ}
use web_q_final.Text.{codes, decimal_ℕ}
use web_q_final.Server.{Client, Accepted, arrived, failed, Clients, Setup, address, client, enrol}
use web_q_final.Server.Order.{
  Caller, joins, numbered, started, all_ok, nobody, after, enrol-after, with_all, with_all-nil,
  with_all-cons, answer_no_exit,
}
use web_q_final.Controller.Second.Log.{LogFile, debug_printf}

pub record Sockets : Type 0 where
  pub clients : Clients
  pub log : LogFile

-- The loop goes on, or the program has ended with a status.
pub data Listening : Type 0 where
  serving : Sockets → Listening
  ended : ℕ → Sockets → Listening

-- `"%d.%d.%d.%d\n"`
abbrev pub dotted : ℕ × ℕ × ℕ × ℕ → List ℕ
dotted (a, b, c, d) =
    decimal_ℕ a
    ++ (b'.' ∷ (decimal_ℕ b ++ (b'.' ∷ (decimal_ℕ c ++ (b'.' ∷ (decimal_ℕ d ++ (b'\n' ∷ [])))))))

abbrev pub greeting : ℕ → List ℕ
greeting addr = codes "peer connected: " ++ dotted (address addr)

abbrev pub say : List ℕ → Sockets → Sockets
say text k = record k { log = debug_printf text k.log }

unfoldable pub accept_loop : List Accepted → Sockets → Listening
unfolding debug_printf
accept_loop [] k = serving k
accept_loop (failed ∷ later) k = ended 1 (say (codes "ERROR on accept\n") k)
accept_loop (arrived fd addr answer ∷ later) k =
    let told = say (greeting addr) k in
    let k' = record told { clients = enrol (client fd addr) answer told.clients } in
    let rest = accept_loop later k' in
    if ltb_ℤ answer (pos 0) then ended 1 (say (codes "Thread creation failed") k') else rest

unfoldable pub create_server_socket : Setup → List Accepted → Sockets → Listening
unfolding accept_loop
create_server_socket s answers k =
    if not s.socket_ok
    then ended 1 k
    else if not s.bind_ok
    then ended 1 k
    else if not s.option_ok
    then ended 2 k
    else accept_loop answers k

abbrev pub greetings : List Caller → List (List ℕ)
greetings [] = []
greetings ((fd, addr, e) ∷ cs) = greeting addr ∷ greetings cs

-- The log file is open, with these texts in it.
abbrev pub logged : Clients → List (List ℕ) → Sockets
logged c texts = record { clients = c; log = record { log_ptr = true; debug = texts } }

accept_joins :
    (cs : List Caller) (later : List Accepted) (ids : List (Client × ℤ)) (ts : List Client) (n : ℕ)
    (texts : List (List ℕ))
    → n + length cs < 2 ^ 31
    → accept_loop (joins cs ++ later) (logged (after ids ts n) texts)
      ≡ accept_loop later (logged (with_all cs ids ts n) (texts ++ greetings cs))
unfolding accept_loop
accept_joins [] later ids ts n texts h = rw (append-nil texts, with_all-nil ids ts n) refl
accept_joins ((fd, addr, e) ∷ cs) later ids ts n texts h =
    answer_no_exit e _ _
    ∙ ap
        (λ (c : Clients).
          accept_loop (joins cs ++ later) (logged c (texts ++ (greeting addr ∷ []))))
        (enrol-after fd addr e ids ts n (omega arith))
    ∙ accept_joins cs later _ _ (n + 1) (texts ++ (greeting addr ∷ [])) (omega arith)
    ∙ rw (append_assoc texts, with_all-cons fd addr e cs ids ts n) refl

-- The clients `cs`, from the start on.
abbrev pub all_of : List Caller → Clients
all_of cs = after (numbered 0 cs) (started cs) (length cs)

all_joined :
    (cs : List Caller) (later : List Accepted) (texts : List (List ℕ))
    → length cs < 2 ^ 31
    → create_server_socket all_ok (joins cs ++ later) (logged nobody texts)
      ≡ accept_loop later (logged (all_of cs) (texts ++ greetings cs))
unfolding create_server_socket
all_joined cs later texts h =
    accept_joins cs later [] [] 0 texts (omega arith)
    ∙ ap
        (λ (m : ℕ).
          accept_loop later (logged (after (numbered 0 cs) (started cs) m) (texts ++ greetings cs)))
        (omega arith)

-- The log file is open and the socket is set up; `pthread_create` answers 0 or the number of an
-- error. After some clients, fewer than 2 ^ 31, the controller waits for the next one with all of them numbered from 0
-- on, with the threads of those whose answer is 0 alone, and with one line in the log for each, with
-- its address; no line tells of a thread that does not run. When `accept` then fails, the whole
-- controller ends with status 1, and "ERROR on accept" is the last text in the log.
pub create_server_socket-log :
    (cs : List Caller) (later : List Accepted) (texts : List (List ℕ))
    → length cs < 2 ^ 31
    → create_server_socket all_ok (joins cs) (logged nobody texts)
        ≡ serving (logged (all_of cs) (texts ++ greetings cs))
      × create_server_socket all_ok (joins cs ++ (failed ∷ later)) (logged nobody texts)
        ≡ ended 1 (logged (all_of cs) ((texts ++ greetings cs) ++ (codes "ERROR on accept\n" ∷ [])))
unfolding accept_loop
create_server_socket-log cs later texts h = (
  subst
      (λ (answers : List Accepted).
        create_server_socket all_ok answers (logged nobody texts)
        ≡ serving (logged (all_of cs) (texts ++ greetings cs)))
      (append-nil (joins cs)) (all_joined cs [] texts h),
  all_joined cs (failed ∷ later) texts h,
)
