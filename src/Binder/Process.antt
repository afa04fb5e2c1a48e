-- ===== src/Binder/Process.antt =====
-- `main` of binder.cc as a whole: a TcpServer and the loop over its clients. What the kernel answers in a
-- round is a parameter.
pub mod Answering
pub mod Live
pub mod Open
pub mod Sockets
pub mod Total
use mathlib.Core.List.{map}
use rpc_library.Common.{
  ℕ, Bool, true, false, List, [], ◌∷◌, Option, none, some, Outcome, ok, fault, select_error, ◌>>=◌,
}
use rpc_library.Binder.Server.{ServerData}
use rpc_library.Binder.Database.{empty_database}
use rpc_library.Binder.Terminating.{Reply}
use rpc_library.Binder.Loop.{Received, message, closed, recv_error, Sent, BinderState, serve_client}
use rpc_library.TcpServer.{
  Socket, TcpServer, new_server, accept_if_any, connections_with_data, connection_closed,
}

pub record Process : Type 0 where
  pub tcp_server : TcpServer
  pub state : BinderState

-- What one client's `recv` and `send` come to. A `recv` that reads a length below -1 throws `bad_alloc`,
-- which nobody catches.
abbrev pub Traffic : Type 0
Traffic = Outcome Received × Sent

-- What the kernel does in one round: `select` and `accept` in acceptIfAny (`none` if `select` fails, which
-- is caught), where the new TcpSocket lies, the descriptors that `select` reports to
-- connectionsWithData (`none` if it fails), and what becomes of each client's messages.
pub record RoundInput : Type 0 where
  pub accepts : Option (Bool × Option ℕ)
  pub address : ℕ
  pub ready : Option (ℕ → Bool)
  pub traffic : Socket → Traffic
  pub replies : ServerData → Reply

abbrev pub forget : Received → Socket → TcpServer → TcpServer
forget closed client server = connection_closed client server
forget _ client server = server

-- The body of the loop over the clients with data
unfoldable pub serve_socket : (ServerData → Reply) → Traffic → Socket → Process → Outcome Process
serve_socket replies (received, sent) client p = do
  got ← received
  st ← serve_client replies client.address got sent p.state
  ok (record { tcp_server = forget got client p.tcp_server; state = st })

-- The loop
unfoldable pub serve_sockets :
    (ServerData → Reply) → (Socket → Traffic) → List Socket → Process → Outcome Process
serve_sockets replies traffic [] p = ok p
serve_sockets replies traffic (client ∷ rest) p =
    serve_socket replies (traffic client) client p >>= λ p'. elim p'.state.running [
      | true ↦ serve_sockets replies traffic rest p'
      | false ↦ ok p'
    ]

unfoldable pub accept_one : RoundInput → TcpServer → Outcome TcpServer
accept_one input server = elim input.accepts [
  | none ↦ ok server
  | some (listening, accepted) ↦ accept_if_any listening accepted input.address server
]

-- connectionsWithData stands outside of every `try`.
unfoldable pub clients_of : RoundInput → TcpServer → Outcome (List Socket)
clients_of input server = elim input.ready [
  | none ↦ fault select_error
  | some ready ↦ connections_with_data ready server
]

-- One round of the outer loop
unfoldable pub binder_round : RoundInput → Process → Outcome Process
binder_round input p = do
  server ← accept_one input p.tcp_server
  clients ← clients_of input server
  serve_sockets input.replies input.traffic clients (record p { tcp_server = server })

-- The outer loop, over what the kernel does in each round; it ends with the input, or when it stops
-- running.
unfoldable pub binder_main : List RoundInput → Process → Outcome Process
binder_main [] p = ok p
binder_main (input ∷ inputs) p = elim p.state.running [
  | true ↦ (binder_round input p >>= λ p'. binder_main inputs p')
  | false ↦ ok p
]

-- The variables of `main` before its loop
abbrev pub new_process : ℕ → Process
new_process listener = record {
  tcp_server = new_server listener;
  state = record { database = empty_database; running = true; sent = []; forgotten = [] };
}
