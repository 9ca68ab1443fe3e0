-- ===== src/Access/Connect.antt =====
-- TokenCheck/lighttpd/src/btp.h: the connection to the capacity estimator, and what a request sends on
-- it. mod_status.c opens the connection when the module starts.
use mathlib.Core.List.{append-nil}
use web_q_final.Prelude.{
  ℕ, ◌+◌, ◌-◌, ◌*◌, ◌≤◌, ◌<◌, ◌^◌, ◌%◌, ◌≡◌, refl, arith, List, [], ◌∷◌, ◌++◌, Bool, false, not,
  if◌then◌else◌, Option, none, some, length, All, ◌&&◌, take,
}
use web_q_final.Prelude.Int.{ℤ, pos, eqb_ℤ, ltb_ℤ}
use web_q_final.Machine.{Outcome, done, exit, fault}
use web_q_final.Text.{codes, decimal}
use web_q_final.Access.{
  Visit, strstr, inform_proxy1_arrival, inform_proxy1_departure, verify_token, mod_status_handler,
  mod_status_account,
}
use web_q_final.Access.Notice.{IsPart, slashes, class_of, inform_proxy1-four}

-- What `socket` returns, and what `gethostbyname` and `connect` answer.
pub record Host : Type 0 where
  pub socket : ℤ
  pub resolves : List ℕ → Bool
  pub connect_ok : List ℕ → ℕ → Bool

-- The global `sockfd`, and the address and port that the socket is connected to.
pub record Line : Type 0 where
  pub sockfd : ℤ
  pub peer : Option (List ℕ × ℕ)

abbrev pub hostname : List ℕ
hostname = codes "10.129.28.150"

abbrev pub portno : ℕ
portno = 5006

-- Each failure is a `return` that nothing reports.
unfoldable pub connect_proxy1 : Host → Line → Line
connect_proxy1 h l =
    let opened = record l { sockfd = h.socket; peer = none } in
    if ltb_ℤ h.socket (pos 0)
    then opened
    else if not (h.resolves hostname)
    then opened
    else if h.connect_ok hostname portno
    then record opened { peer = some (hostname, portno) }
    else opened

-- The `close` is commented out.
unfoldable pub disconnect_proxy1 : Line → Line
disconnect_proxy1 l = l

-- The bytes of each `write` that go out, from write `k` on, where the socket has a peer: `sent k` of
-- them, and none where the write fails. The results of the writes are not read.
abbrev pub sent_parts : (ℕ → ℕ) → ℕ → List (List ℕ) → List ℕ
sent_parts sent k [] = []
sent_parts sent k (m ∷ ms) = take (sent k) m ++ sent_parts sent (k + 1) ms

abbrev pub delivered : (ℕ → ℕ) → Line → List (List ℕ) → List ℕ
delivered sent l ms = elim l.peer [ none ↦ [] | some _ ↦ sent_parts sent 0 ms ]

abbrev pub then_account : ℕ → ℕ → ℤ → Outcome Visit → Outcome Visit
then_account sec usec status (done v) =
    mod_status_account sec usec (record v { http_status = status })
then_account sec usec status (exit n) = exit n
then_account sec usec status fault = fault

-- A request from its arrival to its end: the server between the two calls leaves a status.
abbrev pub visit : ℕ × ℕ → ℕ × ℕ → ℤ → Visit → Outcome Visit
visit (sec, usec) (sec', usec') status v =
    then_account sec' usec' status (mod_status_handler sec usec v)

abbrev pub fresh_visit : List ℕ → List ℕ → List ℕ → Visit
fresh_visit path path_raw query = record {
  path = path;
  path_raw = path_raw;
  query = query;
  http_status = pos 0;
  file_finished = pos 0;
  start_time = 0;
  told = [];
}

abbrev pub is_connected : Host → Bool
is_connected h =
    not (ltb_ℤ h.socket (pos 0)) && (h.resolves hostname && h.connect_ok hostname portno)

delivered-connect_proxy1 :
    (sent : ℕ → ℕ) (h : Host) (l : Line) (ms : List (List ℕ))
    → delivered sent (connect_proxy1 h l) ms ≡ (if is_connected h then sent_parts sent 0 ms else [])
unfolding connect_proxy1
delivered-connect_proxy1 sent h l ms = ground arith

elapsed :
    (t t' : ℕ) → t ≤ t' → t' < 2 ^ 63 → (t' % 2 ^ 64 + (2 ^ 64 - t % 2 ^ 64)) % 2 ^ 64 ≡ t' - t
elapsed t t' h k = omega arith

-- A request from one instant to a later one, before 2 ^ 63 microseconds, whose path has at least four
-- parts, fewer than 300 characters and no `favicon`, comes to its end whether the estimator is there or
-- not. Where `socket`, `gethostbyname` and `connect` all succeeded at the start, one write has `A_` and
-- the class of the fourth part, and the next one the microseconds in between (for the status 200; else
-- `F`) and the class again, and the estimator gets those of their bytes that the two writes take, in
-- this order; where one of them failed, it gets nothing.
pub visit-delivered :
    (sent : ℕ → ℕ) (h : Host) (l : Line) (path query a b c d : List ℕ) (ps : List (List ℕ))
    (sec usec sec' usec' : ℕ) (status : ℤ)
    → strstr path (codes "favicon") ≡ false
    → All IsPart (a ∷ b ∷ c ∷ d ∷ ps)
    → length (slashes (a ∷ b ∷ c ∷ d ∷ ps)) < 300
    → sec * 1000000 + usec ≤ sec' * 1000000 + usec'
    → sec' * 1000000 + usec' < 2 ^ 63
    → (v : Visit) × (visit
          (sec, usec)
          (sec', usec')
          status
          (fresh_visit path (slashes (a ∷ b ∷ c ∷ d ∷ ps)) query)
        ≡ done v)
      × (delivered sent (connect_proxy1 h l) v.told ≡ (
          if is_connected h
          then take (sent 0) (b'A' ∷ b'_' ∷ (class_of d ++ (b'\n' ∷ [])))
            ++ take (sent 1) (
                (if eqb_ℤ status (pos 200)
                  then decimal (pos ((sec' * 1000000 + usec') - (sec * 1000000 + usec)))
                  else b'F' ∷ [])
                ++ (b'_' ∷ (class_of d ++ (b'\n' ∷ []))))
          else []))
unfolding mod_status_handler mod_status_account verify_token
visit-delivered sent h l path query a b c d ps sec usec sec' usec' status plain parts short order
      small =
    (
      record (fresh_visit path raw query) {
        http_status = status;
        start_time = t % 2 ^ 64;
        told = arrival ∷ departure ∷ [];
      },
      rw (plain, notices.0, plain, elapsed t t' order small, notices.1) refl,
      rw (delivered-connect_proxy1 sent h l (arrival ∷ departure ∷ []), append-nil) refl,
    )
  where
    t : ℕ
    t = sec * 1000000 + usec

    t' : ℕ
    t' = sec' * 1000000 + usec'

    raw : List ℕ
    raw = slashes (a ∷ b ∷ c ∷ d ∷ ps)

    arrival : List ℕ
    arrival = b'A' ∷ b'_' ∷ (class_of d ++ (b'\n' ∷ []))

    departure : List ℕ
    departure =
        (if eqb_ℤ status (pos 200) then decimal (pos (t' - t)) else b'F' ∷ [])
        ++ (b'_' ∷ (class_of d ++ (b'\n' ∷ [])))

    notices :
        (inform_proxy1_arrival raw ≡ done arrival)
        × (inform_proxy1_departure (t' - t) status raw ≡ done departure)
    notices = inform_proxy1-four a b c d ps (t' - t) status parts short (omega arith)
