-- ===== src/TokenGen/Reply/Tests.antt =====
-- The hash and the token at concrete values, with a code that repeats the message.
use web_q_final.Prelude.{
  ℕ, ◌≡◌, refl, List, [], ◌∷◌, ◌++◌, arith, take, replicate, length, length-take, length-append,
}
use web_q_final.Prelude.Int.{ℤ, pos}
use web_q_final.Machine.{done, fault}
use web_q_final.Text.{strchr, strcmp_eq}
use web_q_final.TokenGen.Book.Line.{IsBook, first_room, join_at}
use web_q_final.TokenGen.Reply.{
  Hmac, Front, Request, refresh, request_limit, url_to_visit, get_hash, serve_request, kind_of,
}
use web_q_final.TokenGen.Reply.Serve.{goal, serve_request_refines}
use web_q_final.TokenGen.Reply.Hash.{get_hash-overrun}
use web_q_final.Samples.{ops, book, line, book-IsBook}

-- A code that repeats the message.
abbrev hmac : Hmac
hmac = record { code = λ token. take 16 (token ++ replicate 16 255); spare = 1 }

abbrev visitor : Request
visitor = record {
  remote_addr = b'1' ∷ [];
  query_string = b'l' ∷ b'=' ∷ b'x' ∷ [];
  now = pos 1400000000;
}

abbrev front : Front ℤ
front = record {
  book = book;
  share = pos 2;
  incoming = pos 0;
  total_in = pos 0;
  hardness = pos 1 ∷ pos 1 ∷ [];
  incoming_peers = replicate 5 (pos 0);
  peer_incoming_rate = replicate 5 (pos 0);
  total_waiting_time = pos 0;
}

length-code : (token : List ℕ) → length (hmac.code token) ≡ 16
length-code token =
    omega
      (arith, length-take 16 (token ++ replicate 16 255), length-append token (replicate 16 255))

serve_request_refines_example :
    (f' : Front ℤ) × (serve_request ops hmac (b'h' ∷ []) 3 visitor front
      ≡ done (refresh (pos 2) (goal hmac (b'h' ∷ []) visitor (b'x' ∷ []) 2), f'))
    × IsBook 3 f'.book (join_at 2 line)
unfolding first_room kind_of strcmp_eq request_limit url_to_visit strchr
serve_request_refines_example =
    serve_request_refines ops hmac (b'h' ∷ []) 3 (length-code, omega arith) (omega arith)
      (λ n h. refl) visitor front line 2
      (b'x' ∷ [], 1400000000, refl, omega arith, omega arith, refl, omega arith) book-IsBook refl
      (omega arith) (omega arith) refl

-- The same with no spare byte.
get_hash-overrun_example : get_hash (record hmac { spare = 0 }) (b'1' ∷ []) ≡ fault
get_hash-overrun_example =
    get_hash-overrun (record hmac { spare = 0 }) (b'1' ∷ []) (length-code (b'1' ∷ [])) refl
