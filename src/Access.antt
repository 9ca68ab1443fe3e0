-- ===== src/Access.antt =====
-- TokenCheck/lighttpd/src/btp.h and the calls of it in mod_status.c: what the web server behind the
-- tokens tells the capacity estimator about each request.
pub mod Explode
pub mod Notice
pub mod Connect
mod Tests
use web_q_final.Prelude.{
  ℕ, ◌+◌, ◌-◌, ◌*◌, ◌%◌, ◌^◌, List, [], ◌∷◌, ◌++◌, Bool, true, false, ◌||◌, ◌&&◌, ◌==◌, ltb,
  if◌then◌else◌, Option, none, some, length, get_elem?,
}
use web_q_final.Prelude.Int.{ℤ, pos, eqb_ℤ, sub_ℕ}
use web_q_final.Machine.{Outcome, done, exit, fault}
use web_q_final.Text.{codes, decimal, strcmp_eq}

abbrev pub onto_first : ℕ → List (List ℕ) → List (List ℕ)
onto_first c [] = (c ∷ []) ∷ []
onto_first c (p ∷ ps) = (c ∷ p) ∷ ps

-- The array that `explode` makes; the number that it returns is the length.
unfoldable pub explode : List ℕ → ℕ → List (List ℕ)
explode [] delimiter = [] ∷ []
explode (c ∷ s) delimiter =
    let rest = explode s delimiter in if c == delimiter then [] ∷ rest else onto_first c rest

-- The check is switched off by a `return` in front of it.
unfoldable pub verify_token : List ℕ → ℤ
verify_token query = pos 1

abbrev pub drop_empty : List (List ℕ) → List (List ℕ)
drop_empty [] = []
drop_empty ([] ∷ ps) = drop_empty ps
drop_empty ((c ∷ p) ∷ ps) = (c ∷ p) ∷ drop_empty ps

-- What the calls of `strtok` with the delimiter `/` return, up to the first NULL.
unfoldable pub strtok_all : List ℕ → List (List ℕ)
unfolding explode
strtok_all s = drop_empty (explode s b'/')

-- `url`: 0 for req1.php in fourth place, and 1 for any other. The query is copied to 300 bytes, and a
-- fourth part that is not there is a NULL that is read.
abbrev class : Option (List ℕ) → Outcome (List ℕ)
class none = fault
class (some part) = done (if strcmp_eq part (codes "req1.php") then b'0' ∷ [] else b'1' ∷ [])

unfoldable pub url_of : List ℕ → Outcome (List ℕ)
unfolding strtok_all
url_of query = if ltb (length query) 300 then class (get_elem? (strtok_all query) 3) else fault

abbrev framed : List ℕ → Outcome (List ℕ) → Outcome (List ℕ)
framed first (done url) = done (first ++ (b'_' ∷ (url ++ (b'\n' ∷ []))))
framed first (exit n) = exit n
framed first fault = fault

-- `inform_proxy1_arrival`: the message that is written.
unfoldable pub inform_proxy1_arrival : List ℕ → Outcome (List ℕ)
unfolding url_of
inform_proxy1_arrival query = framed (b'A' ∷ []) (url_of query)

-- `%ld` of an `unsigned long`.
unfoldable pub as_long : ℕ → ℤ
as_long n = if ltb n (2 ^ 63) then pos n else sub_ℕ n (2 ^ 64)

-- `inform_proxy1_departure`: the message that is written.
unfoldable pub inform_proxy1_departure : ℕ → ℤ → List ℕ → Outcome (List ℕ)
unfolding url_of as_long
inform_proxy1_departure service_time http_status query =
    framed (if eqb_ℤ http_status (pos 200) then decimal (as_long service_time) else b'F' ∷ [])
      (url_of query)

abbrev starts_with : List ℕ → List ℕ → Bool
starts_with [] s = true
starts_with (w ∷ ws) [] = false
starts_with (w ∷ ws) (c ∷ s) = w == c && starts_with ws s

-- `strstr(s, w) != NULL`
unfoldable pub strstr : List ℕ → List ℕ → Bool
strstr [] w = starts_with w []
strstr (c ∷ s) w = starts_with w (c ∷ s) || strstr s w

-- The connection, as far as BTP reads and sets it.
pub record Visit : Type 0 where
  pub path : List ℕ
  pub path_raw : List ℕ
  pub query : List ℕ
  pub http_status : ℤ
  pub file_finished : ℤ
  pub start_time : ℕ
  pub told : List (List ℕ)

-- `tv_sec * 1000000 + tv_usec`, an `unsigned long`.
abbrev micros : ℕ → ℕ → ℕ
micros sec usec = (sec * 1000000 + usec) % 2 ^ 64

abbrev tell : Visit → Outcome (List ℕ) → Outcome Visit
tell v (done m) = done (record v { told = v.told ++ (m ∷ []) })
tell v (exit n) = exit n
tell v fault = fault

abbrev admitted : ℕ → ℕ → Outcome Visit → Outcome Visit
admitted sec usec (done v) =
    if eqb_ℤ (verify_token v.query) (pos 0)
    then done (record v { http_status = pos 404; file_finished = pos 1 })
    else done (record v { start_time = micros sec usec })
admitted sec usec (exit n) = exit n
admitted sec usec fault = fault

-- `mod_status_handler`, before what lighttpd's own module does.
unfoldable pub mod_status_handler : ℕ → ℕ → Visit → Outcome Visit
unfolding verify_token strstr inform_proxy1_arrival
mod_status_handler sec usec v =
    admitted sec usec (
      if strstr v.path (codes "favicon") then done v else tell v (inform_proxy1_arrival v.path_raw))

-- `mod_status_account`, before what lighttpd's own module does.
unfoldable pub mod_status_account : ℕ → ℕ → Visit → Outcome Visit
unfolding strstr inform_proxy1_departure
mod_status_account sec usec v =
    if strstr v.path (codes "favicon")
    then done v
    else tell v (
        inform_proxy1_departure ((micros sec usec + (2 ^ 64 - v.start_time)) % 2 ^ 64) v.http_status
          v.path_raw)
