-- ===== src/Binder/Service.antt =====
-- What binder.cc promises to its clients: the main loop over a directory, in place of a database. The
-- messages are decoded as the program decodes them, and every answer is the directory's.
pub mod Kept
pub mod Answers
pub mod Clients
pub mod Fitting
pub mod Rounds
use mathlib.Core.List.{map}
use rpc_library.Common.{◌≡◌, All}
use rpc_library.Common.{
  ℕ, Bool, true, false, List, [], ◌∷◌, ◌++◌, Outcome, ok, fault, bad_alloc, ◌>>=◌, if◌then◌else◌,
}
use rpc_library.Signature.{Signature, signature_of_arg_types}
use rpc_library.Message
use rpc_library.Message.{MessageType, RawMessage, raw_message}
use rpc_library.Messages.Status.{serialize_status, deserialize_status}
use rpc_library.Messages.Register.{deserialize_register}
use rpc_library.Messages.Locate.{deserialize_locate_request}
use rpc_library.Binder.Server.{ServerData, same_server}
use rpc_library.Binder.Terminating.{Reply, any_overflow}
use rpc_library.Binder.Directory.{Directory, enrol, name_next, dismiss}
use rpc_library.Binder.Farewell.{farewell}
use rpc_library.Binder.Promise.{empty_directory}
use rpc_library.Binder.Loop.{
  locate_response, Received, message, closed, recv_error, Sent, delivered, send_closed, send_error,
}
use rpc_library.Binder.Process.{Traffic, RoundInput, accept_one, clients_of, forget}
use rpc_library.TcpServer.{Socket, TcpServer, new_server}

-- What a message asks for. The servers have answered before the service stops.
pub data Request : Type 0 where
  registration : Signature → List ℕ → ℕ → Request
  inquiry : Signature → Request
  shutdown : Request
  no_request : Request

-- The servers in the line answer their Terminates, unless a `recv` reads a length below -1.
abbrev pub hear : (ServerData → Reply) → List ServerData → Outcome (Unit {0})
hear replies line = if any_overflow replies line then fault bad_alloc else ok tt

unfoldable pub request_of :
    (ServerData → Reply) → List ServerData → MessageType → RawMessage → Outcome Request
request_of replies line Message.register raw = do
  m ← deserialize_register raw
  sig ← signature_of_arg_types m.function_name m.arg_types
  ok (registration sig m.server_hostname m.server_port)
request_of replies line Message.locate_request raw = do
  m ← deserialize_locate_request raw
  sig ← signature_of_arg_types m.function_name m.arg_types
  ok (inquiry sig)
request_of replies line Message.terminate raw = do
  m ← deserialize_status raw
  heard ← hear replies line
  ok shutdown
request_of replies line _ raw = ok no_request

-- What a request leads to. The answer to a Terminate is not the directory's to give.
pub data Effect : Type 0 where
  answers : RawMessage → Directory → Effect
  stops : Effect
  passes : Effect

abbrev pub server_at : List ℕ → ℕ → ℕ → ServerData
server_at host port client = record {
  server_hostname = host;
  server_port = port;
  server_socket = client;
}

unfoldable pub effect_of : ℕ → Directory → Request → Effect
effect_of client d (registration sig host port) =
    let (code, d') = enrol sig (server_at host port client) d in
    answers (serialize_status Message.register_success code) d'
effect_of client d (inquiry sig) =
    let (who, d') = name_next sig d in answers (locate_response who) d'
effect_of client d shutdown = stops
effect_of client d no_request = passes

-- `notified`: what is sent to servers when the service stops, in some order.
pub record Service : Type 0 where
  pub tcp_server : TcpServer
  pub directory : Directory
  pub running : Bool
  pub sent : List (ℕ × RawMessage)
  pub notified : List (ℕ × RawMessage)

-- A client that is gone when the answer is sent takes its servers with it.
abbrev pub departing : Sent → ℕ → Directory → Directory
departing send_closed client d = dismiss client d
departing _ client d = d

unfoldable pub apply_effect : ℕ → Sent → Effect → Service → Service
apply_effect client outcome (answers m d) s = record s {
  directory = departing outcome client d;
  sent = s.sent ++ (client, m) ∷ [];
}
apply_effect client outcome stops s = record s {
  directory = departing outcome client s.directory;
  running = false;
  notified = map farewell s.directory.line;
}
apply_effect client outcome passes s = s

unfoldable pub serve_received :
    (ServerData → Reply) → ℕ → Received → Sent → Service → Outcome Service
serve_received replies client closed outcome s =
    ok (record s { directory = dismiss client s.directory })
serve_received replies client recv_error outcome s = ok s
serve_received replies client (message []) outcome s = ok s
serve_received replies client (message (c ∷ cs)) outcome s = do
  let raw = raw_message (c ∷ cs)
  request ← request_of replies s.directory.line raw.message_type raw
  ok (apply_effect client outcome (effect_of client s.directory request) s)

unfoldable pub serve_one : (ServerData → Reply) → Traffic → Socket → Service → Outcome Service
serve_one replies (received, outcome) client s = do
  got ← received
  s' ← serve_received replies client.address got outcome s
  ok (record s' { tcp_server = forget got client s.tcp_server })

unfoldable pub serve_each :
    (ServerData → Reply) → (Socket → Traffic) → List Socket → Service → Outcome Service
serve_each replies traffic [] s = ok s
serve_each replies traffic (client ∷ rest) s = serve_one replies (traffic client) client s >>= λ s'.
    elim s'.running [ true ↦ serve_each replies traffic rest s' | false ↦ ok s' ]

unfoldable pub service_round : RoundInput → Service → Outcome Service
service_round input s = do
  server ← accept_one input s.tcp_server
  clients ← clients_of input server
  serve_each input.replies input.traffic clients (record s { tcp_server = server })

unfoldable pub service_main : List RoundInput → Service → Outcome Service
service_main [] s = ok s
service_main (input ∷ inputs) s = elim s.running [
  | true ↦ (service_round input s >>= λ s'. service_main inputs s')
  | false ↦ ok s
]

abbrev pub new_service : ℕ → Service
new_service listener = record {
  tcp_server = new_server listener;
  directory = empty_directory;
  running = true;
  sent = [];
  notified = [];
}

-- What is in the line under the address of `s` is `s`: no other connection has registered it.
abbrev pub IsAlone : ServerData → List ServerData → Type 0
IsAlone s = All (λ x. same_server s x ≡ true → x ≡ s)

abbrev pub IsOrderlyRequest : ℕ → Directory → Request → Type 0
IsOrderlyRequest client d (registration sig host port) = IsAlone (server_at host port client) d.line
IsOrderlyRequest client d _ = Unit {0}

-- Orderly runs of the service: whenever a Register comes, its address is not in the line, or came over
-- the same connection.
abbrev pub IsOrderlyTraffic : (ServerData → Reply) → Traffic → Socket → Service → Type 0
IsOrderlyTraffic replies (received, outcome) client s =
    (bytes : List ℕ) (request : Request)
    → received ≡ ok (message bytes)
    → request_of replies s.directory.line (raw_message bytes).message_type (raw_message bytes)
      ≡ ok request
    → IsOrderlyRequest client.address s.directory request

abbrev pub IsOrderlyEach :
    (ServerData → Reply) → (Socket → Traffic) → List Socket → Service → Type 0
IsOrderlyEach replies traffic [] s = Unit {0}
IsOrderlyEach replies traffic (client ∷ rest) s =
    IsOrderlyTraffic replies (traffic client) client s
    × ((s' : Service)
        → serve_one replies (traffic client) client s ≡ ok s'
        → IsOrderlyEach replies traffic rest s')

abbrev pub IsOrderlyRound : RoundInput → Service → Type 0
IsOrderlyRound input s =
    (server : TcpServer) (clients : List Socket)
    → accept_one input s.tcp_server ≡ ok server
    → clients_of input server ≡ ok clients
    → IsOrderlyEach input.replies input.traffic clients (record s { tcp_server = server })

abbrev pub IsOrderlyMain : List RoundInput → Service → Type 0
IsOrderlyMain [] s = Unit {0}
IsOrderlyMain (input ∷ inputs) s =
    IsOrderlyRound input s
    × ((s' : Service) → service_round input s ≡ ok s' → IsOrderlyMain inputs s')
