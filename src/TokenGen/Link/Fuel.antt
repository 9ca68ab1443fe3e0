-- ===== src/TokenGen/Link/Fuel.antt =====
-- The loop of `readFromClient` of TokenGen/src/proxy1.c: each turn takes a byte or more.
use web_q_final.Prelude.{ℕ, zero, suc, ◌<◌, ◌≤◌, ◌≡◌, refl, arith, List, [], ◌∷◌, ◌==◌, length}
use web_q_final.Machine.{M}
use web_q_final.Net.{Net}
use web_q_final.Wire.{Conn, read, read_int}
use web_q_final.Wire.Loop.{Consumes, Consumes-branch, bind-cong}
use web_q_final.Wire.Bytes.{read_int-length, read-length_lt}
use web_q_final.TokenGen.Link.{
  Link, on_capacity, on_share, on_hardness, on_incoming, on_takeover, on_controller, dispatch, turn,
  read_from_client,
}

module _ (c : Conn) where
  module _ (net : Net) (l : Link) where
    one : length (read_int c).1.stream ≤ length c.stream
    one = read_int-length c

    two : length (read_int (read_int c).1).1.stream ≤ length c.stream
    two = omega (arith, read_int-length c, read_int-length (read_int c).1)

    capacity-Consumes : Consumes c (on_capacity net c l)
    unfolding on_capacity
    capacity-Consumes = ground (arith, one)

    share-Consumes : Consumes c (on_share net c l)
    unfolding on_share
    share-Consumes = two

    hardness-Consumes : Consumes c (on_hardness net c l)
    unfolding on_hardness
    hardness-Consumes = ground (arith, two)

    incoming-Consumes : (client : ℕ) → Consumes c (on_incoming net client c l)
    unfolding on_incoming
    incoming-Consumes client = ground (arith, one)

    takeover-Consumes : Consumes c (on_takeover net c l)
    unfolding on_takeover
    takeover-Consumes = ground (arith, one)

    controller-Consumes : Consumes c (on_controller net c l)
    unfolding on_controller
    controller-Consumes = ground (arith, one)

    dispatch-Consumes : (client b : ℕ) → Consumes c (dispatch net client b c l)
    unfolding dispatch
    dispatch-Consumes client b = Consumes-branch c (b == b'c') _ _ l capacity-Consumes (
        Consumes-branch c (b == b's') _ _ l share-Consumes (
          Consumes-branch c (b == b'h') _ _ l hardness-Consumes (
            Consumes-branch c (b == b'i') _ _ l (incoming-Consumes client) (
              Consumes-branch c (b == b'x') _ _ l takeover-Consumes
                (Consumes-branch c (b == b't') _ _ l controller-Consumes (omega arith))))))

turn-cong :
    (net : Net) (j k : Conn → M Link Conn) (client : ℕ) (chunk : List ℕ) (c : Conn) (l : Link)
    → ((b : ℕ) (bs : List ℕ)
        → chunk ≡ b ∷ bs
        → (c' : Conn) (l : Link) → length c'.stream ≤ length c.stream
        → j c' l ≡ k c' l)
    → turn net j client chunk c l ≡ turn net k client chunk c l
turn-cong net j k client [] c l agree = refl
turn-cong net j k client (b ∷ bs) c l agree =
    bind-cong c (dispatch net client b c l) j k (dispatch-Consumes c net l client b)
      (agree b bs refl)

-- On any bytes, however they are cut into reads, and whatever the system calls answer: fuel above the
-- number of the bytes is enough for the loop of `readFromClient`, as any more of it gives the same run.
pub read_from_client-ends :
    (net : Net) (fuel more client : ℕ) (c : Conn) (l : Link)
    → length c.stream < fuel
    → length c.stream < more
    → read_from_client net fuel client c l ≡ read_from_client net more client c l
unfolding read_from_client
read_from_client-ends net zero more client c l h k = absurd (omega arith)
read_from_client-ends net (suc fuel) zero client c l h k = absurd (omega arith)
read_from_client-ends net (suc fuel) (suc more) client c l h k =
    turn-cong net (read_from_client net fuel client) (read_from_client net more client) client
      (read 1 c).0 (read 1 c).1 l
      (λ b bs e c' l' n.
        read_from_client-ends net fuel more client c' l' (omega (arith, read-length_lt 1 c b bs e))
          (omega (arith, read-length_lt 1 c b bs e)))
