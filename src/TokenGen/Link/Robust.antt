-- ===== src/TokenGen/Link/Robust.antt =====
-- `readFromClient` of TokenGen/src/proxy1.c on any bytes at all, with reads that may be short.
use web_q_final.Prelude.{
  ℕ, zero, suc, ◌<◌, ◌≡◌, refl, arith, List, [], ◌∷◌, Bool, true, false, ◌==◌, if◌then◌else◌,
  Option, none, some, All,
}
use web_q_final.Prelude.Int.{ℤ, IsInt}
use web_q_final.Machine.{Outcome, M, done, exit, fault}
use web_q_final.Net.{Net, IsUp}
use web_q_final.Wire.{Conn, read, read_int}
use web_q_final.Wire.Bytes.{
  IsByte, any, IsConn, read-IsConn, read_int-IsConn, read_int-IsInt, read-listed, IsIntOption,
}
use web_q_final.TokenGen.Link.{Link, peers, read_or, dispatch, turn, read_from_client}
use web_q_final.TokenGen.Link.Typed.{
  IsTyped, names_controller, IsRun, capacity-IsRun, share-IsRun, hardness-IsRun, incoming-IsRun,
  takeover-IsRun, controller-IsRun,
}

module _ (net : Net) (up : IsUp net) (r : Bool) where
  branch-IsRun :
      (test : Bool) (x y : M Link Conn) (l : Link)
      → (test ≡ true → IsRun r (x l))
      → (test ≡ false → IsRun r (y l))
      → IsRun r ((if test then x else y) l)
  branch-IsRun true x y l h k = h refl
  branch-IsRun false x y l h k = k refl

  read_or-IsInt : (d : ℤ) (w : Option ℤ) → IsInt d → IsIntOption w → IsInt (read_or d w)
  read_or-IsInt d none h k = h
  read_or-IsInt d (some x) h k = k

  dispatch-IsRun :
      (client b : ℕ) (c : Conn) (l : Link)
      → IsInt (net.junk 1)
      → client < peers
      → (names_controller b ≡ true → r ≡ true)
      → IsConn names_controller r c
      → IsTyped l
      → IsRun r (dispatch net client b c l)
  unfolding dispatch
  dispatch-IsRun client b c l junk few risky n t =
      let here = read_int-IsConn names_controller r c n in
      let there = read_int-IsConn names_controller r (read_int c).1 here in
      let v = read_int-IsInt names_controller r c n in
      let w = read_int-IsInt names_controller r (read_int c).1 here in
      branch-IsRun (b == b'c') _ _ l (λ _. capacity-IsRun net up r c _ _ l refl here t)
        (λ _.
          branch-IsRun (b == b's') _ _ l
            (λ _. share-IsRun net up r c _ _ _ _ l refl refl there (read_or-IsInt _ _ junk w) t)
            (λ _.
              branch-IsRun (b == b'h') _ _ l
                (λ _. hardness-IsRun net up r c _ _ _ _ l refl refl there (v, w) t)
                (λ _.
                  branch-IsRun (b == b'i') _ _ l
                    (λ _. incoming-IsRun net up r c _ _ l client few refl here v t)
                    (λ _.
                      branch-IsRun (b == b'x') _ _ l
                        (λ e. takeover-IsRun net up r c _ _ l (risky (rw e refl)) refl here v t)
                        (λ _.
                          branch-IsRun (b == b't') _ _ l
                            (λ e.
                              controller-IsRun net up r c _ _ l (risky (ground (arith, e))) refl
                                here v t)
                            (λ _. (n, t)))))))

  bind-IsRun :
      (o : Outcome (Conn × Link)) (k : Conn → M Link Conn)
      → IsRun r o
      → ((c : Conn) (l : Link) → IsConn names_controller r c → IsTyped l → IsRun r (k c l))
      → IsRun r (elim o [ done (c, l) ↦ k c l | exit n ↦ exit n | fault ↦ fault ])
  bind-IsRun (done (c, l)) k h next = next c l h.0 h.1
  bind-IsRun (exit n) k h next = h
  bind-IsRun fault k h next = h

  turn-IsRun :
      (again : Conn → M Link Conn) (client : ℕ) (chunk : List ℕ) (c : Conn) (l : Link)
      → ((c : Conn) (l : Link) → IsConn names_controller r c → IsTyped l → IsRun r (again c l))
      → IsInt (net.junk 1)
      → client < peers
      → ((b : ℕ) (bs : List ℕ) → chunk ≡ b ∷ bs → names_controller b ≡ true → r ≡ true)
      → IsConn names_controller r c
      → IsTyped l
      → IsRun r (turn net again client chunk c l)
  turn-IsRun again client [] c l next junk few risky n t = (n, t)
  turn-IsRun again client (b ∷ bs) c l next junk few risky n t =
      bind-IsRun (dispatch net client b c l) again
        (dispatch-IsRun client b c l junk few (risky b bs refl) n t) next

  loop-IsRun :
      (fuel client : ℕ) (c : Conn) (l : Link)
      → IsInt (net.junk 1)
      → client < peers
      → IsConn names_controller r c
      → IsTyped l
      → IsRun r (read_from_client net fuel client c l)
  unfolding read_from_client
  loop-IsRun zero client c l junk few n t = (n, t)
  loop-IsRun (suc fuel) client c l junk few n t =
      turn-IsRun (read_from_client net fuel client) client (read 1 c).0 (read 1 c).1 l
        (λ c' l' n' t'. loop-IsRun fuel client c' l' junk few n' t') junk few
        (λ b bs e. read-listed names_controller r 1 b bs c e n)
        (read-IsConn names_controller r 1 c n) t

-- On any bytes, however they are cut into reads, with every other system call successful, for one of
-- the first PEERS connections, from variables with values of their types: `readFromClient` never
-- calls `exit`; where it comes to an end, each variable has a value of its type again, and the
-- arrays their sizes; and where it does not, by an access outside an array, then some byte of the
-- stream is an `x` or a `t`, behind which the number of a controller is read.
pub read_from_client-IsRun :
    (net : Net) (fuel client : ℕ) (c : Conn) (l : Link)
    → IsUp net
    → IsInt (net.junk 1)
    → client < peers
    → All IsByte c.stream
    → IsTyped l
    → IsRun (any names_controller c.stream) (read_from_client net fuel client c l)
read_from_client-IsRun net fuel client c l up junk few bytes t =
    loop-IsRun net up (any names_controller c.stream) fuel client c l junk few
      (record { bytes = bytes; listed = λ h. h }) t
