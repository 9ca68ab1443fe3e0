-- ===== src/Access/Tests.antt =====
-- A path with four parts, and one with three.
use web_q_final.Prelude.{ℕ, ◌≡◌, refl, List, [], ◌∷◌, ◌++◌, true, none, arith}
use web_q_final.Prelude.Int.{pos}
use web_q_final.Machine.{done, fault}
use web_q_final.Text.{codes, strcmp_eq, decimal}
use web_q_final.Access.{Visit, strstr, explode, inform_proxy1_arrival, inform_proxy1_departure}
use web_q_final.Access.Connect.{
  Host, Line, connect_proxy1, delivered, visit, fresh_visit, visit-delivered,
}
use web_q_final.Access.Notice.{slashes, inform_proxy1-short}

explode_runs : explode (b'a' ∷ b'&' ∷ b'&' ∷ b'b' ∷ []) b'&' ≡ (b'a' ∷ []) ∷ [] ∷ (b'b' ∷ []) ∷ []
unfolding explode
explode_runs = refl

abbrev short_path : List (List ℕ)
short_path = (b'x' ∷ []) ∷ (b'y' ∷ []) ∷ (b'z' ∷ []) ∷ []

abbrev host : Host
host = record { socket = pos 7; resolves = λ _. true; connect_ok = λ _ _. true }

abbrev unconnected : Line
unconnected = record { sockfd = pos 0; peer = none }

abbrev long_path : List (List ℕ)
long_path = (b'x' ∷ []) ∷ (b'y' ∷ []) ∷ (b'z' ∷ []) ∷ codes "req1.php" ∷ []

visit-delivered_example :
    (v : Visit) × (visit
        (10, 5)
        (12, 7)
        (pos 200)
        (fresh_visit (codes "/page") (slashes long_path) [])
      ≡ done v)
    × (delivered (λ _. 100) (connect_proxy1 host unconnected) v.told
        ≡ (b'A' ∷ b'_' ∷ b'0' ∷ b'\n' ∷ [])
          ++ (decimal (pos 2000002) ++ (b'_' ∷ b'0' ∷ b'\n' ∷ [])))
unfolding strcmp_eq decimal
visit-delivered_example =
    visit-delivered (λ _. 100) host unconnected (codes "/page") [] (b'x' ∷ []) (b'y' ∷ [])
      (b'z' ∷ []) (codes "req1.php") [] 10 5 12 7 (pos 200) (unfold strstr in refl) (ground arith)
      (omega arith) (omega arith) (omega arith)

inform_proxy1-short_example :
    (inform_proxy1_arrival (slashes short_path) ≡ fault)
    × (inform_proxy1_departure 42 (pos 200) (slashes short_path) ≡ fault)
inform_proxy1-short_example =
    inform_proxy1-short short_path 42 (pos 200) (ground arith) (omega arith)
