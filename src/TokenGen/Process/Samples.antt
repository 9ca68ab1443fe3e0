-- ===== src/TokenGen/Process/Samples.antt =====
-- A request that the tests of TokenGen send.
use web_q_final.Prelude.{
  ℕ, refl, List, [], ◌∷◌, ◌++◌, arith, take, replicate, length-take, length-append,
}
use web_q_final.Prelude.Int.{pos}
use web_q_final.Text.{strchr}
use web_q_final.TokenGen.Reply.{Hmac, Request, request_limit, url_to_visit}
use web_q_final.TokenGen.Reply.Serve.{Answerable}
use web_q_final.TokenGen.Reply.Hash.{IsHmac}
use web_q_final.Config.Read.{Line}
use web_q_final.Config.Parse.{File, IsFile}

abbrev pub hmac : Hmac
hmac = record { code = λ token. take 16 (token ++ replicate 16 255); spare = 1 }

abbrev pub visitor : Request
visitor = record {
  remote_addr = b'1' ∷ [];
  query_string = b'l' ∷ b'=' ∷ b'x' ∷ [];
  now = pos 1400000000;
}

pub visitor-Answerable : Answerable (b'h' ∷ []) visitor
unfolding request_limit url_to_visit strchr
visitor-Answerable = (b'x' ∷ [], 1400000000, refl, omega arith, omega arith, refl, omega arith)

pub hmac-IsHmac : IsHmac hmac
hmac-IsHmac = (
  λ token.
      omega
        (arith, length-take 16 (token ++ replicate 16 255), length-append token (replicate 16 255)),
  omega arith,
)

abbrev line_of : List ℕ → Line
line_of v = record { value = v; comment = [] }

-- A proxy.conf with no peers.
abbrev pub file : File
file = record {
  port = line_of (b'5' ∷ []);
  check = line_of (b'h' ∷ []);
  primary = line_of (b'1' ∷ []);
  backup = line_of (b'2' ∷ []);
  me = line_of (b'0' ∷ []);
  peers = [];
}

pub file-IsFile : IsFile file
file-IsFile = record {
  head = ground arith;
  tail = tt;
  short = (omega arith, omega arith);
  pair = (omega arith, omega arith);
  places = tt;
  five = omega arith;
}
