-- ===== src/Config/Parse.antt =====
-- What TokenGen and the controller know after `parse_config_file`.
use mathlib.Core.List.{append_assoc, append-nil}
use web_q_final.Prelude.{
  ℕ, suc, ◌+◌, ◌≤◌, ◌<◌, ◌≡◌, ◌∙◌, ap, refl, arith, List, [], ◌∷◌, ◌++◌, true, false, ◌&&◌, some,
  length, All, length-append, map,
}
use web_q_final.Prelude.Int.{pos}
use web_q_final.Text.{atoi}
use web_q_final.Config.{
  Config, fields, assign, add_ip, token_gen_line, controller_line, parse_token_gen,
  parse_controller, fits,
}
use web_q_final.Config.Read.{Line, IsLine, render, fields-render}

abbrev pub values : List Line → List (List ℕ)
values ls = map (λ m. m.value) ls

lines-le : (l : Line) (ls : List Line) → length ls ≤ length (render l ls)
lines-le l [] = omega arith
lines-le l (m ∷ ms) = omega (
  arith,
  lines-le m ms,
  length-append l.value (b' ' ∷ (l.comment ++ (b'\n' ∷ render m ms))),
  length-append l.comment (b'\n' ∷ render m ms),
)

-- The lines from a certain one on are peers.
module _ (line : ℕ → List ℕ → Config → Config) (first : ℕ)
    (peers_from : (n : ℕ) (s : List ℕ) (c : Config) → first < n → line n s c ≡ add_ip s c) where
  assign-cons :
      (nl : ℕ) (s : List ℕ) (ss : List (List ℕ)) (c : Config)
      → first ≤ nl
      → assign line nl (s ∷ ss) c ≡ assign line (nl + 1) ss (add_ip s c)
  assign-cons nl s ss c h =
      unfold assign in ap (assign line (nl + 1) ss) (peers_from (nl + 1) s c (omega arith))

  assign-peers :
      (nl : ℕ) (ss : List (List ℕ)) (c : Config)
      → first ≤ nl
      → assign line nl ss c
        ≡ record c { ip_array = c.ip_array ++ ss; in_bounds = (assign line nl ss c).in_bounds }
  assign-peers nl [] c h = rw append-nil (unfold assign in refl)
  assign-peers nl (s ∷ ss) c h = rw (assign-cons nl s ss c h) (
      assign-peers (nl + 1) ss (add_ip s c) (omega arith)
      ∙ ap
          (λ (a : List (List ℕ)). record c {
            ip_array = a;
            in_bounds = (assign line (nl + 1) ss (add_ip s c)).in_bounds;
          })
          (append_assoc c.ip_array (s ∷ []) ss))

  -- An overrun among the peers, or before them, stays.
  overrun_stays :
      (nl : ℕ) (ss : List (List ℕ)) (c : Config)
      → first ≤ nl
      → c.in_bounds ≡ false
      → (assign line nl ss c).in_bounds ≡ false
  overrun_stays nl [] c h e = unfold assign in e
  overrun_stays nl (s ∷ ss) c h e =
      rw (assign-cons nl s ss c h)
        (overrun_stays (nl + 1) ss (add_ip s c) (omega arith) (rw e refl))

token_gen_peers : (n : ℕ) (s : List ℕ) (c : Config) → 5 < n → token_gen_line n s c ≡ add_ip s c
unfolding token_gen_line
token_gen_peers n s c h = ground arith

controller_peers : (n : ℕ) (s : List ℕ) (c : Config) → 6 < n → controller_line n s c ≡ add_ip s c
unfolding controller_line
controller_peers n s c h = ground arith

-- The lines of a file proxy.conf of TokenGen.
pub record File : Type 0 where
  pub port : Line
  pub check : Line
  pub primary : Line
  pub backup : Line
  pub me : Line
  pub peers : List Line

abbrev pub text_of : File → List ℕ
text_of f = render f.port (f.check ∷ f.primary ∷ f.backup ∷ f.me ∷ f.peers)

-- Each line is a value, a space and a comment, and the values fit the memory that they are copied to.
pub record IsFile (f : File) : Type 0 where
  pub head : IsLine f.port × IsLine f.check × IsLine f.primary × IsLine f.backup × IsLine f.me
  pub tail : All IsLine f.peers
  pub short : (length f.port.value < 8) × (length f.check.value < 8)
  pub pair : (length f.primary.value < 20) × (length f.backup.value < 20)
  pub places : All (λ s. length s < 20) (values f.peers)
  pub five : length (values f.peers) ≤ 5

add_ip-fits :
    (s : List ℕ) (c : Config)
    → c.in_bounds ≡ true
    → length s < 20
    → length c.ip_array < 5
    → (add_ip s c).in_bounds ≡ true
add_ip-fits s c e h k = ground (arith, e, h, k)

peers-fit :
    (nl : ℕ) (ss : List (List ℕ)) (c : Config)
    → 5 ≤ nl
    → c.in_bounds ≡ true
    → All (λ s. length s < 20) ss
    → length c.ip_array + length ss ≤ 5
    → (assign token_gen_line nl ss c).in_bounds ≡ true
peers-fit nl [] c h e a k = unfold assign in e
peers-fit nl (s ∷ ss) c h e a k = rw (assign-cons token_gen_line 5 token_gen_peers nl s ss c h) (
    peers-fit (nl + 1) ss (add_ip s c) (omega arith) (add_ip-fits s c e a.0 (omega arith)) a.1
      (omega (arith, k, length-append c.ip_array (s ∷ []))))

-- On a file whose lines are a value, a space and a comment each, with values that fit the memory that
-- they are copied to and at most five peers, TokenGen stays within that memory and takes the values
-- for, in this order: the port (as a number and as text), the address of TokenCheck, the two
-- controllers, its own number, and its peers.
pub parse_token_gen-render :
    (heap : ℕ → List ℕ) (f : File)
    → IsFile f
    → let c = parse_token_gen heap (some (text_of f)) in
      (c.in_bounds ≡ true)
      × (c.listening_portno ≡ atoi f.port.value)
      × (c.sending_port ≡ f.port.value)
      × (c.token_check_ip ≡ f.check.value)
      × (c.ip_controller ≡ f.primary.value ∷ f.backup.value ∷ [])
      × (c.my_id ≡ atoi f.me.value)
      × (c.ip_array ≡ values f.peers)
unfolding parse_token_gen
parse_token_gen-render heap f v =
    let same =
      assign-peers token_gen_line 5 token_gen_peers 5 (values f.peers) named (omega arith) in
    rw found (
      peers-fit 5 (values f.peers) named (omega arith) (ground (arith, v.short, v.pair)) v.places
          (omega (arith, v.five)),
      ap (λ (c : Config). c.listening_portno) same,
      ap (λ (c : Config). c.sending_port) same,
      ap (λ (c : Config). c.token_check_ip) same,
      ap (λ (c : Config). c.ip_controller) same,
      ap (λ (c : Config). c.my_id) same,
      ap (λ (c : Config). c.ip_array) same,
    )
  where
    -- After the first five values.
    named : Config
    named = record {
      listening_portno = atoi f.port.value;
      sending_port = f.port.value;
      token_check_ip = f.check.value;
      ip_controller = f.primary.value ∷ f.backup.value ∷ [];
      my_id = atoi f.me.value;
      no_of_proxy = pos 0;
      ip_array = [];
      in_bounds =
          (((true && fits 8 f.port.value) && fits 8 f.check.value) && fits 20 f.primary.value)
          && fits 20 f.backup.value;
    }

    found :
        fields (suc (length (text_of f))) (text_of f)
        ≡ f.port.value
          ∷ f.check.value
          ∷ f.primary.value
          ∷ f.backup.value
          ∷ f.me.value
          ∷ values f.peers
    found =
        fields-render (suc (length (text_of f))) f.port
          (f.check ∷ f.primary ∷ f.backup ∷ f.me ∷ f.peers) v.head.0
          (v.head.1, (v.head.2, (v.head.3, (v.head.4, v.tail))))
          (omega (arith, lines-le f.port (f.check ∷ f.primary ∷ f.backup ∷ f.me ∷ f.peers)))

-- On a file whose lines are a value, a space and a comment each, the controller takes the values for,
-- in this order: the port (as a number and as text), the address of TokenCheck, its own number, the two
-- controllers, the number of TokenGens, and their addresses; whether they fit their memory is not said.
pub parse_controller-render :
    (heap : ℕ → List ℕ) (port check me primary backup proxies : Line) (peers : List Line)
    → IsLine port
    → IsLine check
    → IsLine me
    → IsLine primary
    → IsLine backup
    → IsLine proxies
    → All IsLine peers
    → let c =
        parse_controller heap
          (some (render port (check ∷ me ∷ primary ∷ backup ∷ proxies ∷ peers))) in
      (c.listening_portno ≡ atoi port.value)
      × (c.sending_port ≡ port.value)
      × (c.token_check_ip ≡ check.value)
      × (c.my_id ≡ atoi me.value)
      × (c.ip_controller ≡ primary.value ∷ backup.value ∷ [])
      × (c.no_of_proxy ≡ atoi proxies.value)
      × (c.ip_array ≡ values peers)
unfolding parse_controller
parse_controller-render heap port check me primary backup proxies peers hp hc hm h0 h1 hn hs =
    rw (found, assign-peers controller_line 6 controller_peers 6 (values peers) _ (omega arith))
      (refl, refl, refl, refl, refl, refl, refl)
  where
    found :
        fields
          (suc (length (render port (check ∷ me ∷ primary ∷ backup ∷ proxies ∷ peers))))
          (render port (check ∷ me ∷ primary ∷ backup ∷ proxies ∷ peers))
        ≡ port.value
          ∷ check.value
          ∷ me.value
          ∷ primary.value
          ∷ backup.value
          ∷ proxies.value
          ∷ values peers
    found =
        fields-render (suc (length (render port (check ∷ me ∷ primary ∷ backup ∷ proxies ∷ peers))))
          port (check ∷ me ∷ primary ∷ backup ∷ proxies ∷ peers) hp (hc, (hm, (h0, (h1, (hn, hs)))))
          (omega (arith, lines-le port (check ∷ me ∷ primary ∷ backup ∷ proxies ∷ peers)))

-- On a file whose lines are a value, a space and a comment each, with an address of TokenCheck of eight
-- characters or more, TokenGen writes past the memory that it allocated.
pub parse_token_gen-overrun :
    (heap : ℕ → List ℕ) (port check primary backup me : Line) (peers : List Line)
    → IsLine port
    → IsLine check
    → IsLine primary
    → IsLine backup
    → IsLine me
    → All IsLine peers
    → 8 ≤ length check.value
    → (parse_token_gen heap (some (render port (check ∷ primary ∷ backup ∷ me ∷ peers)))).in_bounds
      ≡ false
unfolding parse_token_gen
parse_token_gen-overrun heap port check primary backup me peers hp hc h0 h1 hm hs long =
    rw found (
      overrun_stays token_gen_line 5 token_gen_peers 5 (values peers) _ (omega arith)
        (ground arith))
  where
    found :
        fields
          (suc (length (render port (check ∷ primary ∷ backup ∷ me ∷ peers))))
          (render port (check ∷ primary ∷ backup ∷ me ∷ peers))
        ≡ port.value ∷ check.value ∷ primary.value ∷ backup.value ∷ me.value ∷ values peers
    found =
        fields-render (suc (length (render port (check ∷ primary ∷ backup ∷ me ∷ peers)))) port
          (check ∷ primary ∷ backup ∷ me ∷ peers) hp (hc, (h0, (h1, (hm, hs))))
          (omega (arith, lines-le port (check ∷ primary ∷ backup ∷ me ∷ peers)))
