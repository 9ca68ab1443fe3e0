-- ===== src/TokenGen/Link/Decode.antt =====
-- `readFromClient` of TokenGen/src/proxy1.c on the bytes of any number of messages.
use mathlib.Core.List.{append_assoc}
use web_q_final.Prelude.{
  ℕ, zero, suc, ◌<◌, ◌≡◌, ◌∙◌, ap, refl, arith, List, [], ◌∷◌, ◌++◌, if◌then◌else◌, set, length,
  some, get_elem?-eq-get_or, length-set, All,
}
use web_q_final.Prelude.Int.{ℤ, pos, eqb_ℤ, IsInt}
use web_q_final.Machine.{done, ◌>>=◌}
use web_q_final.Net.{Net, sent, stored, session, IsUp}
use web_q_final.Text.{decimal}
use web_q_final.Wire.{Conn, read, read_int, bytes_of_int}
use web_q_final.Wire.RoundTrip.{read_int-bytes}
use web_q_final.TokenGen.Link.{
  Link, no_id, peers, send_response, write_id, on_capacity, on_share, on_hardness, on_incoming,
  on_takeover, on_controller, dispatch, read_from_client,
}
use web_q_final.TokenGen.Link.Protocol.{
  Msg, capacity, share, hardness, incoming, takeover, controller, encode, encode_all, IsMsg,
  controller_ip, apply, apply_all, IsLink,
}

abbrev pub whole : List ℕ → Conn
whole s = record { stream = s; sizes = [] }

module _ (net : Net) (up : IsUp net) where
  pub send_response-up :
      (addr : List ℕ) (r : ℕ) (l : Link)
      → send_response net addr r l
        ≡ done
            (tt, record l { trace = l.trace ++ (sent addr l.port (r ∷ bytes_of_int l.my_id) ∷ []) })
  unfolding send_response session bytes_of_int
  send_response-up addr r l = rw (up.0, up.1 addr, up.2 addr, up.3 0, up.3 1) refl

  pub write_id-up :
      (l : Link)
      → write_id net l ≡ done (tt, record l { trace = l.trace ++ (stored (decimal l.id) ∷ []) })
  unfolding write_id
  write_id-up l = rw (up.4)

  capacity-decode :
      (v : ℤ) (rest : List ℕ) (l : Link)
      → IsInt v
      → on_capacity net (whole (bytes_of_int v ++ rest)) l
        ≡ done (whole rest, record l { capacity = pos 720 })
  unfolding on_capacity
  capacity-decode v rest l h = rw (read_int-bytes v rest h) refl

  -- Two integers in a row.
  read_two :
      (a b : ℤ) (rest : List ℕ)
      → IsInt a
      → IsInt b
      → (read_int (whole ((bytes_of_int a ++ bytes_of_int b) ++ rest))
          ≡ (some a, whole (bytes_of_int b ++ rest)))
  read_two a b rest ha hb = rw append_assoc (read_int-bytes a (bytes_of_int b ++ rest) ha)

  share-decode :
      (client : ℕ) (c sh : ℤ) (rest : List ℕ) (l : Link)
      → IsInt c
      → IsInt sh
      → on_share net (whole ((bytes_of_int c ++ bytes_of_int sh) ++ rest)) l
        ≡ done (whole rest, apply net client (share c sh) l)
  unfolding on_share apply
  share-decode client c sh rest l hc hs =
      rw (read_two c sh rest hc hs, read_int-bytes sh rest hs) (ground arith)

  hardness-decode :
      (client : ℕ) (a b : ℤ) (rest : List ℕ) (l : Link)
      → IsLink l
      → IsInt a
      → IsInt b
      → on_hardness net (whole ((bytes_of_int a ++ bytes_of_int b) ++ rest)) l
        ≡ done (whole rest, apply net client (hardness a b) l)
  unfolding on_hardness apply
  hardness-decode client a b rest l v ha hb =
      rw (read_two a b rest ha hb, read_int-bytes b rest hb)
        (ap (λ (hs : List ℤ). done (whole rest, record l { hardness = hs }))
          (reset l.hardness v.two))
    where
      reset :
          (hs : List ℤ)
          → length hs ≡ 2
          → set (set (set (set hs 0 a) 1 b) 0 (pos 1)) 1 (pos 1) ≡ pos 1 ∷ pos 1 ∷ []
      reset [] e = absurd (omega arith)
      reset (x ∷ []) e = absurd (omega arith)
      reset (x ∷ y ∷ []) e = refl
      reset (x ∷ y ∷ z ∷ r) e = absurd (omega arith)

  incoming-decode :
      (client : ℕ) (x : ℤ) (rest : List ℕ) (l : Link)
      → IsLink l
      → client < peers
      → IsInt x
      → on_incoming net client (whole (bytes_of_int x ++ rest)) l
        ≡ done (whole rest, apply net client (incoming x) l)
  unfolding on_incoming apply
  incoming-decode client x rest l v h hx =
      rw (read_int-bytes x rest hx) (
        rw (get_elem?-eq-get_or l.incoming_peers client (pos 0) (omega (arith, v.five)), ◌>>=◌)
          refl)

  takeover-decode :
      (client n : ℕ) (rest : List ℕ) (l : Link)
      → IsLink l
      → n < 2
      → on_takeover net (whole (bytes_of_int (pos n) ++ rest)) l
        ≡ done (whole rest, apply net client (takeover n) l)
  unfolding on_takeover apply
  takeover-decode client n rest l v h = rw (read_int-bytes (pos n) rest (omega arith)) (
      rw (get_elem?-eq-get_or l.ip_controller n [] (omega (arith, v.pair)), ◌>>=◌)
        (rw
          (
            send_response-up (controller_ip l n) (if eqb_ℤ l.id no_id then b'p' else b'n')
                (record l { local_id = pos n }),
            ◌>>=◌,
          )
          refl))

  controller-decode :
      (client n : ℕ) (rest : List ℕ) (l : Link)
      → IsLink l
      → n < 2
      → on_controller net (whole (bytes_of_int (pos n) ++ rest)) l
        ≡ done (whole rest, apply net client (controller n) l)
  unfolding on_controller apply
  controller-decode client n rest l v h = rw (read_int-bytes (pos n) rest (omega arith)) (
      rw (write_id-up (record l { id = pos n }), ◌>>=◌)
        (rw (get_elem?-eq-get_or l.ip_controller n [] (omega (arith, v.pair)), ◌>>=◌)
          (rw
            (
              send_response-up (controller_ip l n) b'y' (record l {
                id = pos n;
                start_time = net.now;
                flag = pos 1;
                trace = l.trace ++ (stored (decimal (pos n)) ∷ []);
              }),
              ◌>>=◌,
            )
            refl)))

  -- One turn of the loop takes one message off the stream.
  turn-decode :
      (fuel client : ℕ) (m : Msg) (rest : List ℕ) (l : Link)
      → IsMsg m
      → IsLink l
      → client < peers
      → read_from_client net (suc fuel) client (whole (encode m ++ rest)) l
        ≡ read_from_client net fuel client (whole rest) (apply net client m l)
  unfolding read_from_client dispatch read
  turn-decode fuel client (capacity z) rest l h v c =
      rw (capacity-decode z rest l h, ◌>>=◌) (unfold apply in refl)
  turn-decode fuel client (share a b) rest l h v c =
      rw (share-decode client a b rest l h.0 h.1, ◌>>=◌) refl
  turn-decode fuel client (hardness a b) rest l h v c =
      rw (hardness-decode client a b rest l v h.0 h.1, ◌>>=◌) refl
  turn-decode fuel client (incoming x) rest l h v c =
      rw (incoming-decode client x rest l v c h, ◌>>=◌) refl
  turn-decode fuel client (takeover n) rest l h v c =
      rw (takeover-decode client n rest l v h, ◌>>=◌) refl
  turn-decode fuel client (controller n) rest l h v c =
      rw (controller-decode client n rest l v h, ◌>>=◌) refl

  pub apply-IsLink : (client : ℕ) (m : Msg) (l : Link) → IsLink l → IsLink (apply net client m l)
  unfolding apply
  apply-IsLink client (capacity z) l v = record { two = v.two; five = v.five; pair = v.pair }
  apply-IsLink client (share a b) l v = ground arith
  apply-IsLink client (hardness a b) l v = record { two = refl; five = v.five; pair = v.pair }
  apply-IsLink client (incoming x) l v = record {
    two = v.two;
    five = length-set l.incoming_peers client x ∙ v.five;
    pair = v.pair;
  }
  apply-IsLink client (takeover n) l v = record { two = v.two; five = v.five; pair = v.pair }
  apply-IsLink client (controller n) l v = record { two = v.two; five = v.five; pair = v.pair }

  -- With every system call successful and reads that are not cut short: on the bytes of any messages
  -- with controller numbers 0 or 1, `readFromClient` for one of the first PEERS connections comes to
  -- the end of the stream, with fuel above their number, and leaves the state that the messages say.
  pub read_from_client-decode :
      (fuel client : ℕ) (ms : List Msg) (l : Link)
      → length ms < fuel
      → All IsMsg ms
      → IsLink l
      → client < peers
      → read_from_client net fuel client (whole (encode_all ms)) l
        ≡ done (whole [], apply_all net client ms l)
  read_from_client-decode zero client ms l f h v c = absurd (omega arith)
  read_from_client-decode (suc fuel) client [] l f h v c =
      unfold read_from_client read apply_all in refl
  read_from_client-decode (suc fuel) client (m ∷ ms) l f h v c =
      turn-decode fuel client m (encode_all ms) l h.0 v c
      ∙ read_from_client-decode fuel client ms (apply net client m l) (omega arith) h.1
          (apply-IsLink client m l v) c
      ∙ (unfold apply_all in refl)
