-- ===== src/Controller/Sockets/Tests.antt =====
-- Two clients, of which the second gets no thread, and an `accept` that fails.
use web_q_final.Prelude.{arith, ◌≡◌, refl, List, [], ◌∷◌, ◌++◌}
use web_q_final.Text.{codes, decimal_ℕ}
use web_q_final.Server.{address, client, failed}
use web_q_final.Server.Order.{Caller, joins, numbered, all_ok, after, nobody}
use web_q_final.Controller.Sockets.{
  serving, ended, greeting, logged, create_server_socket, create_server_socket-log,
}

abbrev clients : List Caller
clients = (4, 16777343, 0) ∷ (5, 33685514, 11) ∷ []

greeting_runs : greeting 16777343 ≡ codes "peer connected: 127.0.0.1\n"
unfolding address decimal_ℕ
greeting_runs = refl

create_server_socket-log_example :
    create_server_socket all_ok (joins clients) (logged nobody [])
      ≡ serving (
          logged
            (after (numbered 0 clients) (client 4 16777343 ∷ []) 2)
            (greeting 16777343 ∷ greeting 33685514 ∷ []))
    × create_server_socket all_ok (joins clients ++ (failed ∷ [])) (logged nobody [])
      ≡ ended 1 (
          logged
            (after (numbered 0 clients) (client 4 16777343 ∷ []) 2)
            (greeting 16777343 ∷ greeting 33685514 ∷ codes "ERROR on accept\n" ∷ []))
create_server_socket-log_example = create_server_socket-log clients [] [] (omega arith)
