-- ===== src/Config.antt =====
-- parser.h of TokenGen and of the controller: proxy.conf, one value to a line, each ended by a space.
pub mod Read
pub mod Parse
mod Tests
use web_q_final.Prelude.{
  ℕ, zero, suc, ◌+◌, List, [], ◌∷◌, ◌++◌, Bool, true, ◌&&◌, ◌==◌, ltb, if◌then◌else◌, Option, none,
  some, length, set,
}
use web_q_final.Prelude.Int.{ℤ, pos}
use web_q_final.Text.{atoi}

-- The inner loop: the bytes up to the first space, without tabs, and what follows the space; `none`
-- at the end of the file. A newline does not end a value.
unfoldable pub field : List ℕ → List ℕ × Option (List ℕ)
field [] = ([], none)
field (c ∷ s) =
    let (w, rest) = field s in
    if c == b' ' then ([], some s) else (if c == b'\t' then w else c ∷ w, rest)

-- The rest of the line is passed over.
unfoldable pub skip_line : List ℕ → Option (List ℕ)
skip_line [] = none
skip_line (c ∷ s) = if c == b'\n' then some s else skip_line s

-- A buffer as a string: the bytes before the first 0.
unfoldable pub c_string : List ℕ → List ℕ
c_string [] = []
c_string (c ∷ s) = let rest = c_string s in if c == 0 then [] else c ∷ rest

-- The outer loop on fuel: the values of the file in order.
abbrev after_field : (List ℕ → List (List ℕ)) → Option (List ℕ) → List (List ℕ)
after_field again none = []
after_field again (some s) = elim (skip_line s) [ none ↦ [] | some s' ↦ again s' ]

unfoldable pub fields : ℕ → List ℕ → List (List ℕ)
unfolding c_string
fields zero s = []
fields (suc fuel) s = let (w, rest) = field s in c_string w ∷ after_field (fields fuel) rest

-- What the parser sets; `in_bounds` is false once a copy has gone past the memory allocated for it.
pub record Config : Type 0 where
  pub listening_portno : ℤ
  pub sending_port : List ℕ
  pub token_check_ip : List ℕ
  pub ip_controller : List (List ℕ)
  pub my_id : ℤ
  pub no_of_proxy : ℤ
  pub ip_array : List (List ℕ)
  pub in_bounds : Bool

-- `strcpy` into `cap` bytes; the final 0 takes one.
abbrev pub fits : ℕ → List ℕ → Bool
fits cap s = ltb (length s) cap

abbrev pub set_port : List ℕ → Config → Config
set_port s c = record c {
  listening_portno = atoi s;
  sending_port = s;
  in_bounds = c.in_bounds && fits 8 s;
}

abbrev pub set_token_check : List ℕ → Config → Config
set_token_check s c = record c { token_check_ip = s; in_bounds = c.in_bounds && fits 8 s }

abbrev pub set_controller : ℕ → List ℕ → Config → Config
set_controller i s c = record c {
  ip_controller = set c.ip_controller i s;
  in_bounds = c.in_bounds && fits 20 s;
}

-- `ip_array` has room for five.
abbrev pub add_ip : List ℕ → Config → Config
add_ip s c = record c {
  ip_array = c.ip_array ++ (s ∷ []);
  in_bounds = c.in_bounds && (fits 20 s && ltb (length c.ip_array) 5);
}

-- The `switch` of TokenGen, at the value number `nl`.
unfoldable pub token_gen_line : ℕ → List ℕ → Config → Config
token_gen_line nl s c =
    if nl == 1
    then set_port s c
    else if nl == 2
    then set_token_check s c
    else if nl == 3
    then set_controller 0 s c
    else if nl == 4
    then set_controller 1 s c
    else if nl == 5
    then record c { my_id = atoi s }
    else add_ip s c

-- The `switch` of the controller.
unfoldable pub controller_line : ℕ → List ℕ → Config → Config
controller_line nl s c =
    if nl == 1
    then set_port s c
    else if nl == 2
    then set_token_check s c
    else if nl == 3
    then record c { my_id = atoi s }
    else if nl == 4
    then set_controller 0 s c
    else if nl == 5
    then set_controller 1 s c
    else if nl == 6
    then record c { no_of_proxy = atoi s }
    else add_ip s c

unfoldable pub assign : (ℕ → List ℕ → Config → Config) → ℕ → List (List ℕ) → Config → Config
assign line nl [] c = c
assign line nl (s ∷ ss) c = assign line (nl + 1) ss (line (nl + 1) s c)

-- The globals before: numbers are zeroed, and strings are whatever the memory that `malloc` returned, and
-- the pointers in it, hold (`heap`).
abbrev pub blank : (ℕ → List ℕ) → Config
blank heap = record {
  listening_portno = pos 0;
  sending_port = heap 0;
  token_check_ip = heap 1;
  ip_controller = heap 2 ∷ heap 3 ∷ [];
  my_id = pos 0;
  no_of_proxy = pos 0;
  ip_array = [];
  in_bounds = true;
}

-- `parse_config_file` of TokenGen; `none` is a file that cannot be opened.
unfoldable pub parse_token_gen : (ℕ → List ℕ) → Option (List ℕ) → Config
unfolding token_gen_line assign fields field skip_line
parse_token_gen heap none = blank heap
parse_token_gen heap (some s) = assign token_gen_line 0 (fields (suc (length s)) s) (blank heap)

-- `parse_config_file` of the controller.
unfoldable pub parse_controller : (ℕ → List ℕ) → Option (List ℕ) → Config
unfolding controller_line assign fields field skip_line
parse_controller heap none = blank heap
parse_controller heap (some s) = assign controller_line 0 (fields (suc (length s)) s) (blank heap)
