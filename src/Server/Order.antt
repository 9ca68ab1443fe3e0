-- ===== src/Server/Order.antt =====
-- The numbers and the threads that `create_server_socket` gives to the clients.
use mathlib.Core.List.{append_assoc, append-nil}
use web_q_final.Prelude.{
  ℕ, zero, suc, ◌+◌, ◌^◌, ◌<◌, ◌≡◌, refl, ◌∙◌, ap, sym, arith, List, [], ◌∷◌, ◌++◌, true, length,
  if◌then◌else◌,
}
use web_q_final.Prelude.Int.{ℤ, pos, ltb_ℤ, int32, ◌+ℤ◌}
use web_q_final.Machine.{done}
use web_q_final.Server.{
  Client, Accepted, arrived, Clients, Setup, client, create_thread, enrol, accept_loop,
  create_server_socket,
}

-- A client that connects: its socket, its address, and the error of `pthread_create`, or 0.
abbrev pub Caller : Type 0
Caller = ℕ × ℕ × ℕ

abbrev pub joins : List Caller → List Accepted
joins [] = []
joins ((fd, addr, e) ∷ cs) = arrived fd addr (pos e) ∷ joins cs

-- Numbered from `n` on.
abbrev pub numbered : ℕ → List Caller → List (Client × ℤ)
numbered n [] = []
numbered n ((fd, addr, e) ∷ cs) = (client fd addr, pos n) ∷ numbered (n + 1) cs

-- The clients without an error.
abbrev pub started : List Caller → List Client
started [] = []
started ((fd, addr, zero) ∷ cs) = client fd addr ∷ started cs
started ((fd, addr, suc e) ∷ cs) = started cs

abbrev pub all_ok : Setup
all_ok = record { socket_ok = true; bind_ok = true; option_ok = true }

pub create_thread-started :
    (fd addr e : ℕ) (cs : List Caller) (ts : List Client)
    → create_thread (pos e) (client fd addr) ts ++ started cs ≡ ts ++ started ((fd, addr, e) ∷ cs)
create_thread-started fd addr zero cs ts = append_assoc ts _ _
create_thread-started fd addr (suc e) cs ts = ground arith

-- After `n` clients, and after the clients `cs` as well.
abbrev pub after : List (Client × ℤ) → List Client → ℕ → Clients
after ids ts n = record { ip_to_id = ids; threads = ts; connected = pos n }

abbrev pub with_all : List Caller → List (Client × ℤ) → List Client → ℕ → Clients
with_all cs ids ts n = after (ids ++ numbered n cs) (ts ++ started cs) (n + length cs)

abbrev pub nobody : Clients
nobody = after [] [] 0

pub with_all-nil :
    (ids : List (Client × ℤ)) (ts : List Client) (n : ℕ) → with_all [] ids ts n ≡ after ids ts n
with_all-nil ids ts n = rw (append-nil ids, append-nil ts) (ap (after ids ts) (omega arith))

next_number : (n : ℕ) → n + 1 < 2 ^ 31 → int32 (pos n +ℤ pos 1) ≡ pos (n + 1)
next_number n h = unfold int32 ◌+ℤ◌ in ground arith

-- One more client, while the numbers fit an `int`.
pub enrol-after :
    (fd addr e : ℕ) (ids : List (Client × ℤ)) (ts : List Client) (n : ℕ)
    → n + 1 < 2 ^ 31
    → enrol (client fd addr) (pos e) (after ids ts n)
      ≡ after
          (ids ++ ((client fd addr, pos n) ∷ []))
          (create_thread (pos e) (client fd addr) ts)
          (n + 1)
enrol-after fd addr e ids ts n h = rw (next_number n h) refl

pub with_all-cons :
    (fd addr e : ℕ) (cs : List Caller) (ids : List (Client × ℤ)) (ts : List Client) (n : ℕ)
    → with_all cs
        (ids ++ ((client fd addr, pos n) ∷ []))
        (create_thread (pos e) (client fd addr) ts)
        (n + 1)
      ≡ with_all ((fd, addr, e) ∷ cs) ids ts n
with_all-cons fd addr e cs ids ts n =
    rw (append_assoc ids, create_thread-started fd addr e cs ts)
      (ap (after (ids ++ numbered n ((fd, addr, e) ∷ cs)) (ts ++ started ((fd, addr, e) ∷ cs)))
        (omega arith))

-- An answer of 0 or of the number of an error is not negative.
pub answer_no_exit : {A : Type 0} (e : ℕ) (x y : A) → (if ltb_ℤ (pos e) (pos 0) then x else y) ≡ y
answer_no_exit e x y = ground arith

accept_all :
    (cs : List Caller) (ids : List (Client × ℤ)) (ts : List Client) (n : ℕ)
    → n + length cs < 2 ^ 31
    → accept_loop (joins cs) (after ids ts n) ≡ done (with_all cs ids ts n)
unfolding accept_loop
accept_all [] ids ts n h = ap done (sym (with_all-nil ids ts n))
accept_all ((fd, addr, e) ∷ cs) ids ts n h =
    answer_no_exit e _ _
    ∙ ap (accept_loop (joins cs)) (enrol-after fd addr e ids ts n (omega arith))
    ∙ accept_all cs _ _ (n + 1) (omega arith)
    ∙ ap done (with_all-cons fd addr e cs ids ts n)

-- Where `socket`, `bind`, `setsockopt` and `accept` succeed, `create_server_socket` numbers the clients
-- that connect, fewer than 2 ^ 31, from 0 on, in the order in which they are accepted, and goes on. The
-- answers of `pthread_create` are 0 or the number of an error, as POSIX has it: the clients whose answer
-- is 0 are served, and the others, for which no thread runs, keep their numbers and their connections
-- unnoticed.
pub create_server_socket-numbers :
    (cs : List Caller)
    → length cs < 2 ^ 31
    → create_server_socket all_ok (joins cs) nobody
      ≡ done (after (numbered 0 cs) (started cs) (length cs))
unfolding create_server_socket
create_server_socket-numbers cs h =
    accept_all cs [] [] 0 (omega arith)
    ∙ ap (λ (n : ℕ). done (after (numbered 0 cs) (started cs) n)) (omega arith)
