-- ===== src/Config/Tests.antt =====
-- Two small files proxy.conf, and the theorems about them.
use web_q_final.Prelude.{◌≡◌, [], ◌∷◌, some, arith, true, false}
use web_q_final.Text.{atoi}
use web_q_final.Config.{parse_token_gen}
use web_q_final.Config.Read.{Line, IsLine, render}
use web_q_final.Config.Parse.{File, text_of, parse_token_gen-render, parse_token_gen-overrun}

abbrev port : Line
port = record { value = b'5' ∷ b'0' ∷ []; comment = b'p' ∷ [] }

abbrev check : Line
check = record { value = b'h' ∷ b'o' ∷ b's' ∷ b't' ∷ []; comment = [] }

abbrev distant : Line
distant = record {
  value = b'1' ∷ b'0' ∷ b'.' ∷ b'1' ∷ b'0' ∷ b'.' ∷ b'1' ∷ b'0' ∷ [];
  comment = [];
}

abbrev first : Line
first = record { value = b'1' ∷ []; comment = b'm' ∷ [] }

abbrev second : Line
second = record { value = b'2' ∷ []; comment = [] }

port-IsLine : IsLine port
port-IsLine = ground arith

check-IsLine : IsLine check
check-IsLine = ground arith

distant-IsLine : IsLine distant
distant-IsLine = ground arith

first-IsLine : IsLine first
first-IsLine = ground arith

second-IsLine : IsLine second
second-IsLine = ground arith

abbrev file : File
file = record {
  port = port;
  check = check;
  primary = first;
  backup = second;
  me = first;
  peers = second ∷ [];
}

parse_token_gen-render_example :
    let c = parse_token_gen (λ k. []) (some (text_of file)) in
    (c.in_bounds ≡ true)
    × (c.listening_portno ≡ atoi port.value)
    × (c.sending_port ≡ port.value)
    × (c.token_check_ip ≡ check.value)
    × (c.ip_controller ≡ first.value ∷ second.value ∷ [])
    × (c.my_id ≡ atoi first.value)
    × (c.ip_array ≡ second.value ∷ [])
parse_token_gen-render_example =
    parse_token_gen-render (λ k. []) file
      (record {
        head = (port-IsLine, check-IsLine, first-IsLine, second-IsLine, first-IsLine);
        tail = (second-IsLine, tt);
        short = (omega arith, omega arith);
        pair = (omega arith, omega arith);
        places = (omega arith, tt);
        five = omega arith;
      })

parse_token_gen-overrun_example :
    (parse_token_gen
      (λ k. [])
      (some (render port (distant ∷ first ∷ second ∷ first ∷ [])))).in_bounds
    ≡ false
parse_token_gen-overrun_example =
    parse_token_gen-overrun (λ k. []) port distant first second first [] port-IsLine distant-IsLine
      first-IsLine second-IsLine first-IsLine tt (omega arith)
