-- ===== src/TokenGen/Watch/Recovery.antt =====
-- `timeout` and the shares of `readFromClient` of TokenGen/src/proxy1.c: the controller that TokenGen
-- gave up on.
use web_q_final.Prelude.{ℕ, ◌≡◌, ◌≢◌, ◌<◌, ◌∙◌, ap, List, [], ◌∷◌, length, All, arith, refl, true}
use web_q_final.Prelude.Int.{ℤ, pos, eqb_ℤ, eqb_ℤ_iff, IsInt}
use web_q_final.Machine.{done}
use web_q_final.Net.{Net, IsUp}
use web_q_final.TokenGen.Link.{Link, peers, read_from_client}
use web_q_final.TokenGen.Link.Protocol.{Msg, share, encode_all, IsMsg, IsLink, apply, apply_all}
use web_q_final.TokenGen.Link.Decode.{whole, read_from_client-decode}
use web_q_final.TokenGen.Watch.{timeout}

same : (a : ℤ) → eqb_ℤ a a ≡ true
same a = (eqb_ℤ_iff a a).1 refl

recovered :
    (net : Net) (client n : ℕ) (sh : ℤ) (l : Link)
    → l.id ≡ pos n
    → sh ≢ pos 0
    → ((apply net client (share (pos n) sh) (timeout l)).id ≡ pos n)
      × ((apply net client (share (pos n) sh) (timeout l)).share ≡ sh)
unfolding apply timeout
recovered net client n sh l here some = ground (arith, here)

others_ignored :
    (net : Net) (client n m : ℕ) (sh : ℤ) (l : Link)
    → l.id ≡ pos n
    → n ≢ m
    → apply net client (share (pos m) sh) (timeout l) ≡ timeout l
unfolding apply timeout
others_ignored net client n m sh l here other = ground (arith, here)

timeout-IsLink : (l : Link) → IsLink l → IsLink (timeout l)
unfolding timeout
timeout-IsLink l v = record { two = v.two; five = v.five; pair = v.pair }

read_share :
    (net : Net) (client n : ℕ) (sh : ℤ) (l : Link)
    → IsUp net
    → IsInt (pos n) × IsInt sh
    → IsLink l
    → client < peers
    → read_from_client net 2 client (whole (encode_all (share (pos n) sh ∷ []))) l
      ≡ done (whole [], apply net client (share (pos n) sh) l)
read_share net client n sh l up h v c =
    read_from_client-decode net up 2 client (share (pos n) sh ∷ []) l (omega arith) (h, tt) v c
    ∙ (unfold apply_all in refl)

-- With every system call successful and reads that are not cut short, after a `timeout` with controller
-- `n` in charge: when `readFromClient`, for one of the first PEERS connections, reads a share other than
-- 0 from `n`, that controller is in charge again and the share counts; when it reads one from another
-- controller, nothing changes.
pub timeout-recovers :
    (net : Net) (client n m : ℕ) (sh : ℤ) (l : Link)
    → IsUp net
    → IsInt (pos n) × IsInt sh
    → IsInt (pos m)
    → IsLink l
    → client < peers
    → l.id ≡ pos n
    → sh ≢ pos 0
    → n ≢ m
    → ((l' : Link) × (read_from_client net 2 client
            (whole (encode_all (share (pos n) sh ∷ [])))
            (timeout l)
          ≡ done (whole [], l'))
        × (l'.id ≡ pos n)
        × (l'.share ≡ sh))
      × (read_from_client net 2 client (whole (encode_all (share (pos m) sh ∷ []))) (timeout l)
          ≡ done (whole [], timeout l))
timeout-recovers net client n m sh l up h hm v c here some other = (
  (
    apply net client (share (pos n) sh) (timeout l),
    read_share net client n sh (timeout l) up h (timeout-IsLink l v) c,
    (recovered net client n sh l here some).0,
    (recovered net client n sh l here some).1,
  ),
  read_share net client m sh (timeout l) up (hm, h.1) (timeout-IsLink l v) c
      ∙ ap (λ (t : Link). done (whole [], t)) (others_ignored net client n m sh l here other),
)

deaf :
    (net : Net) (client n : ℕ) (sh : ℤ) (l : Link)
    → apply net client (share (pos n) sh) (timeout (timeout l)) ≡ timeout (timeout l)
unfolding apply timeout
deaf net client n sh l = ground arith

abbrev pub shares : List (ℕ × ℤ) → List Msg
shares [] = []
shares ((n, sh) ∷ ss) = share (pos n) sh ∷ shares ss

all_deaf :
    (net : Net) (client : ℕ) (ss : List (ℕ × ℤ)) (l : Link)
    → apply_all net client (shares ss) (timeout (timeout l)) ≡ timeout (timeout l)
unfolding apply_all
all_deaf net client [] l = refl
all_deaf net client ((n, sh) ∷ ss) l =
    ap (apply_all net client (shares ss)) (deaf net client n sh l) ∙ all_deaf net client ss l

-- After two `timeout`s in a row, with every system call successful and reads that are not cut short:
-- `readFromClient` for one of the first PEERS connections, with fuel above the number of messages,
-- reads any number of shares from any controllers to the end, and they change nothing.
pub timeout_twice-deaf :
    (net : Net) (fuel client : ℕ) (ss : List (ℕ × ℤ)) (l : Link)
    → IsUp net
    → length (shares ss) < fuel
    → All IsMsg (shares ss)
    → IsLink l
    → client < peers
    → read_from_client net fuel client (whole (encode_all (shares ss))) (timeout (timeout l))
      ≡ done (whole [], timeout (timeout l))
timeout_twice-deaf net fuel client ss l up f h v c =
    read_from_client-decode net up fuel client (shares ss) (timeout (timeout l)) f h
      (timeout-IsLink (timeout l) (timeout-IsLink l v)) c
    ∙ ap (λ (t : Link). done (whole [], t)) (all_deaf net client ss l)
