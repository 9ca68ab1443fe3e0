-- ===== src/TokenGen/Link/Cut.antt =====
-- `readFromClient` of TokenGen/src/proxy1.c where the bytes of a share arrive in two parts.
use mathlib.Core.List.{append_assoc}
use web_q_final.Prelude.{ℕ, suc, ◌<◌, ◌%◌, ◌^◌, ◌≡◌, refl, arith, List, ◌∷◌, ◌++◌, drop}
use web_q_final.Prelude.Int.{ℤ, pos, word32, IsInt}
use web_q_final.Machine.{done, ◌>>=◌}
use web_q_final.Net.{Net}
use web_q_final.Wire.{Conn, read, bytes_of_int}
use web_q_final.Wire.Cut.{left, read_int-four, read_int-cut}
use web_q_final.TokenGen.Link.{Link, on_share, dispatch, read_from_client}
use web_q_final.TokenGen.Link.Protocol.{share, encode, apply}

module _ (k : ℕ) (c sh : ℤ) (rest ks : List ℕ) where
  -- The message, and what follows it: the read of the share returns `k` bytes.
  abbrev pub cut_share : Conn
  cut_share = record { stream = encode (share c sh) ++ rest; sizes = 1 ∷ 4 ∷ k ∷ ks }

  module _ (net : Net) where
    share-cut :
        (client : ℕ) (l : Link)
        → IsInt c
        → 0 < k
        → k < 4
        → on_share net
            (record { stream = (bytes_of_int c ++ bytes_of_int sh) ++ rest; sizes = 4 ∷ k ∷ ks })
            l
          ≡ done (left k sh rest ks, apply net client (share c (pos (word32 sh % 256 ^ k))) l)
    unfolding on_share apply
    share-cut client l hc g h =
        rw
          (
            append_assoc (bytes_of_int c),
            read_int-four c (bytes_of_int sh ++ rest) (k ∷ ks) hc,
            read_int-cut k sh rest ks g h,
          )
          (ground arith)

    -- A share whose bytes arrive in two parts, the first of them of 1, 2 or 3 bytes: the turn of
    -- `readFromClient` that takes the message does what the share does whose value the first part
    -- holds, `sh` modulo 256 to the number of its bytes, and the next turn takes the other bytes of the
    -- share for the start of the messages that follow.
    pub read_from_client-cut :
        (fuel client : ℕ) (l : Link)
        → IsInt c
        → 0 < k
        → k < 4
        → read_from_client net (suc fuel) client cut_share l
          ≡ read_from_client net fuel client
              (record { stream = drop k (bytes_of_int sh) ++ rest; sizes = ks })
              (apply net client (share c (pos (word32 sh % 256 ^ k))) l)
    unfolding read_from_client dispatch read
    read_from_client-cut fuel client l hc g h = rw (share-cut client l hc g h, ◌>>=◌) refl
