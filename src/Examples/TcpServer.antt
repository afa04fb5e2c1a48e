-- ===== src/Examples/TcpServer.antt =====
-- A server that accepts two connections and loses one.
use rpc_library.Common.{ℕ, ◌≡◌, refl, Bool, true, List, [], ◌∷◌, some, ok, ◌>>=◌, ◌==◌}
use rpc_library.TcpServer.{
  new_server, add_connection, accept_if_any, connection_closed, visit, visit_below,
  connections_with_data,
}
use rpc_library.TcpServer.Connections.{ServerEvent, accepts, closes, server_step, server_run}

abbrev events : List ServerEvent
events =
    accepts true (some 4) 100
    ∷ accepts true (some 5) 101
    ∷ closes (record { address = 100; fd = 4 })
    ∷ []

abbrev only_5 : ℕ → Bool
only_5 fd = fd == 5

looked_up :
    (server_run (new_server 3) events >>= connections_with_data only_5)
    ≡ ok (record { address = 101; fd = 5 } ∷ [])
unfolding connections_with_data visit_below visit server_run server_step accept_if_any
    add_connection connection_closed
looked_up = refl
