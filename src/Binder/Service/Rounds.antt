-- ===== src/Binder/Service/Rounds.antt =====
-- `main` of binder.cc as a whole, against the directory.
use mathlib.Core.List.{Perm}
use mathlib.Core.List.Perm
use rpc_library.Common.{ℕ, ◌<◌, ◌≡◌, ◌⊎◌, false, List, [], ◌++◌}
use rpc_library.Message.{RawMessage}
use rpc_library.Binder.Refinement.{view}
use rpc_library.Binder.Process.{Process}
use rpc_library.Binder.Service.{Service}
use rpc_library.Binder.Service.Clients.{Stands}
use rpc_library.TcpServer.{fd_setsize}

record Alike (n : ℕ) (p : Process) (s : Service) : Type 0 where
  same_server : p.tcp_server ≡ s.tcp_server
  fits : s.tcp_server.fd_max < fd_setsize
  state : Stands n p.state s

-- A process and a service are at the same point: they have the same connections, the database stands for
-- the directory, both run on or both have stopped, and both have sent the same, except that when it stops
-- the process sends what the service notifies the servers of, in some order, and more behind it.
abbrev pub IsAtOne : Process → Service → Type 0
IsAtOne p s =
    (p.tcp_server ≡ s.tcp_server)
    × (view p.state.database ≡ s.directory)
    × (p.state.running ≡ s.running)
    × ((to_servers : List (ℕ × RawMessage)) × (answer : List (ℕ × RawMessage)) × (p.state.sent
          ≡ s.sent ++ (to_servers ++ answer))
        × Perm to_servers s.notified
        × ((to_servers ++ answer ≡ []) ⊎ (p.state.running ≡ false)))
