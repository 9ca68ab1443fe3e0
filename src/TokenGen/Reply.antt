-- ===== src/TokenGen/Reply.antt =====
-- TokenGen/src/proxy1.c and functions.h: the answer to a request, with its token and its hash.
pub mod Hash
pub mod Serve
mod Tests
use web_q_final.Prelude.{
  ℕ, ◌+◌, ◌-◌, ◌/◌, ◌%◌, List, [], ◌∷◌, ◌++◌, Bool, true, false, ◌||◌, ltb, if◌then◌else◌, none,
  some, map, length, get_or,
}
use web_q_final.Prelude.Int.{ℤ, pos, eqb_ℤ, int32, ◌+ℤ◌}
use web_q_final.Cells.{change_values, change_float_values}
use web_q_final.Floats.{FloatOps}
use web_q_final.Machine.{Outcome, done, exit, fault}
use web_q_final.Text.{codes, decimal, strchr, strcmp_eq}
use web_q_final.TokenGen.Book.{Book, admit}

-- `HMAC(EVP_md5(), key, …)` of OpenSSL: the bytes of the code of a message under the secret key.
-- `spare` is how many bytes behind `res_hexstring` a write changes nothing with, which is for the compiler
-- to choose.
pub record Hmac : Type 0 where
  pub code : List ℕ → List ℕ
  pub spare : ℕ

-- A string in an array of `size` bytes, of which the final 0 takes one.
abbrev pub in_array : ℕ → List ℕ → Outcome (List ℕ)
in_array size s = if ltb (length s) size then done s else fault

-- `encrypt` returns its argument.
abbrev pub encrypt : List ℕ → List ℕ
encrypt s = s

-- `sprintf(s, "%s%s%ld%s%d", addr, "%7C", result, "%7C", time_to_wait)`
unfoldable pub token_text : List ℕ → ℤ → ℤ → List ℕ
token_text addr now time_to_wait =
    addr ++ (codes "%7C" ++ (decimal now ++ (codes "%7C" ++ decimal time_to_wait)))

-- The token has an array of 50.
unfoldable pub get_token : List ℕ → ℤ → ℤ → Outcome (List ℕ)
get_token addr now time_to_wait = in_array 50 (token_text addr now time_to_wait)

unfoldable pub hex_digit : ℕ → ℕ
hex_digit d = if ltb d 10 then b'0' + d else b'a' + d - 10

-- `sprintf(&(res_hexstring[i * 2]), "%02x", result[i])` for each byte.
unfoldable pub hex : List ℕ → List ℕ
unfolding hex_digit
hex [] = []
hex (b ∷ bs) = hex_digit (b / 16) ∷ hex_digit (b % 16) ∷ hex bs

-- `getHash`, in its array of 32 and what is spare behind it.
unfoldable pub get_hash : Hmac → List ℕ → Outcome (List ℕ)
unfolding hex
get_hash hmac token = in_array (32 + hmac.spare) (hex (hmac.code token))

-- The string after the first `=` of QUERY_STRING. Where there is none, the program goes on from the
-- address 1, which is a fault.
unfoldable pub request_limit : List ℕ → Outcome (List ℕ)
request_limit query = elim (strchr query b'=') [
  | none ↦ fault
  | some [] ↦ fault
  | some (_ ∷ rest) ↦ done rest
]

abbrev has : List ℕ → ℕ → Bool
has s c = elim (strchr s c) [ none ↦ false | some _ ↦ true ]

-- `url_to_visit`, in its array of 100.
unfoldable pub url_to_visit : List ℕ → List ℕ → List ℕ → List ℕ
url_to_visit check query limit =
    if has query b'M' || has query b'S'
    then codes "http://" ++ (check ++ (codes "/" ++ limit))
    else codes "http://" ++ (check ++ (codes "/test.php?limit=" ++ limit))

-- The text after `url=` of the header `Refresh`.
abbrev pub target_text : List ℕ → List ℕ → List ℕ → List ℕ
target_text url hash token = url ++ (codes "&hash=" ++ (hash ++ (codes "&token=" ++ encrypt token)))

abbrev hashed : List ℕ → List ℕ → Outcome (List ℕ) → Outcome (List ℕ)
hashed url token (done hash) = done (target_text url hash token)
hashed url token (exit n) = exit n
hashed url token fault = fault

unfoldable pub target : Hmac → List ℕ → List ℕ → Outcome (List ℕ)
target hmac url token = hashed url token (get_hash hmac token)

-- What the client is told: to come back after so many seconds with a token, or that all is taken.
pub data Reply : Type 0 where
  refresh : ℤ → List ℕ → Reply
  busy : Reply

-- What a request brings: the client's address, the query, and the time.
pub record Request : Type 0 where
  pub remote_addr : List ℕ
  pub query_string : List ℕ
  pub now : ℤ

-- `url`: the index of the request's hardness.
unfoldable pub kind_of : List ℕ → ℕ
kind_of query = if strcmp_eq query (codes "req1.php") then 0 else 1

-- The variables that a request reads and changes. `incoming_peers` and `peer_incoming_rate` have
-- PEERS entries.
pub record Front (F : Type 0) : Type 0 where
  pub book : Book
  pub share : ℤ
  pub incoming : ℤ
  pub total_in : ℤ
  pub hardness : List ℤ
  pub incoming_peers : List ℤ
  pub peer_incoming_rate : List F
  pub total_waiting_time : F

module _ {F : Type 0} (ops : FloatOps F) (hmac : Hmac) (check : List ℕ) (lim : ℕ) where
  abbrev goes : F → Front F → Outcome (List ℕ) → Outcome (Reply × Front F)
  goes wait f (done goal) = done (
    refresh (ops.trunc wait) goal,
    record f {
      total_waiting_time = change_float_values ops f.total_waiting_time wait (ops.of_int (pos 0));
    },
  )
  goes wait f (exit n) = exit n
  goes wait f fault = fault

  abbrev with_token : F → Front F → List ℕ → Outcome (List ℕ) → Outcome (Reply × Front F)
  with_token wait f url (done token) = goes wait f (target hmac url token)
  with_token wait f url (exit n) = exit n
  with_token wait f url fault = fault

  -- The part of `main` after the search that answers with a token. A URL of 100 characters or more
  -- goes past its array.
  unfoldable pub redirect : Request → ℕ → List ℕ → Front F → Outcome (Reply × Front F)
  redirect r iter limit f =
      let wait = ops.of_int (pos iter) in
      let url = url_to_visit check r.query_string limit in
      if ltb (length url) 100
      then with_token wait f url (get_token r.remote_addr r.now (ops.trunc wait))
      else fault

  abbrev pub answer : Request → ℕ → Front F → Outcome (List ℕ) → Outcome (Reply × Front F)
  answer r iter f (done limit) = redirect r iter limit f
  answer r iter f (exit n) = exit n
  answer r iter f fault = fault

  -- The start of a turn: the request is counted, the peers' rates are copied, and the share is not 0.
  unfoldable pub arrive : Front F → Front F
  arrive f = record f {
    incoming = change_values f.incoming (pos 1);
    total_in = int32 (f.total_in +ℤ pos 1);
    peer_incoming_rate = map ops.of_int f.incoming_peers;
    share = if eqb_ℤ f.share (pos 0) then pos 1 else f.share;
  }

  -- One turn of the loop of `main`.
  unfoldable pub serve_request : Request → Front F → Outcome (Reply × Front F)
  unfolding arrive redirect
  serve_request r f =
      let f' = arrive f in
      let hard = get_or f'.hardness (kind_of r.query_string) (pos 0) in
      let (iter, book) = admit lim f'.share hard f'.book in
      if ltb iter lim
      then answer r iter (record f' { book = book }) (request_limit r.query_string)
      else done (busy, record f' { book = book })
