-- ===== src/Net.antt =====
-- What the operating system answers, as far as WebQ's threads depend on it, and what they do to the
-- outside. A thread that opens a connection runs its whole session with these answers.
use web_q_final.Prelude.{ℕ, ◌+◌, List, [], ◌∷◌, ◌++◌, Bool, true, if◌then◌else◌, not, ◌≡◌}
use web_q_final.Prelude.Int.{ℤ}
use web_q_final.Machine.{Outcome, done, exit}

-- `socket`, `inet_aton` and `connect`, whether the k-th `write` of the session succeeds, whether
-- `fopen` does, what `time(NULL)` returns, and what the local variables hold
-- that nothing has set.
pub record Net : Type 0 where
  pub socket_ok : Bool
  pub valid_ip : List ℕ → Bool
  pub connect_ok : List ℕ → Bool
  pub write_ok : ℕ → Bool
  pub fopen_ok : Bool
  pub now : ℤ
  pub junk : ℕ → ℤ

-- The threads that are started from within a handler or a loop.
pub data Thread : Type 0 where
  calculate_soc : Thread
  queue_sender : ℤ → Thread
  x_sender : List ℕ → Thread

-- `sent`: the bytes that one connection to this address and port carried. `stored`: the text that
-- replaced the file IdStore.
pub data Effect : Type 0 where
  sent : List ℕ → ℤ → List ℕ → Effect
  stored : List ℕ → Effect
  started : Thread → Effect

-- The bytes of the writes that succeed, from write `k` on.
unfoldable pub delivered : Net → ℕ → List (List ℕ) → List ℕ
delivered net k [] = []
delivered net k (part ∷ parts) =
    (if net.write_ok k then part else []) ++ delivered net (k + 1) parts

-- Open a connection, write the parts, close it. No socket, or an address that does not parse, ends
-- the program; a connection that fails is skipped.
unfoldable pub session : Net → List ℕ → ℤ → List (List ℕ) → Outcome (List Effect)
unfolding delivered
session net addr port parts =
    if not net.socket_ok
    then exit 1
    else if not (net.valid_ip addr)
    then exit 1
    else if net.connect_ok addr
    then done (sent addr port (delivered net 0 parts) ∷ [])
    else done []

-- Answers under which every call succeeds.
abbrev pub IsUp : Net → Type 0
IsUp net =
    (net.socket_ok ≡ true)
    × ((a : List ℕ) → net.valid_ip a ≡ true)
    × ((a : List ℕ) → net.connect_ok a ≡ true)
    × ((k : ℕ) → net.write_ok k ≡ true)
    × (net.fopen_ok ≡ true)
