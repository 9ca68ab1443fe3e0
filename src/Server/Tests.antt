-- ===== src/Server/Tests.antt =====
-- Three clients, of which the second gets no thread, and the theorem about them.
use web_q_final.Prelude.{arith, ◌≡◌, List, [], ◌∷◌}
use web_q_final.Machine.{done}
use web_q_final.Server.{client, create_server_socket}
use web_q_final.Server.Order.{
  Caller, joins, numbered, all_ok, after, nobody, create_server_socket-numbers,
}

abbrev clients : List Caller
clients = (4, 16777343, 0) ∷ (5, 33685514, 11) ∷ (6, 33685515, 0) ∷ []

create_server_socket-numbers_example :
    create_server_socket all_ok (joins clients) nobody
    ≡ done (after (numbered 0 clients) (client 4 16777343 ∷ client 6 33685515 ∷ []) 3)
create_server_socket-numbers_example = create_server_socket-numbers clients (omega arith)
