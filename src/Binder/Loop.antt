-- ===== src/Binder/Loop.antt =====
-- The main loop of binder.cc: what it does for one client that has data. What the sockets do is a
-- parameter of each round.
pub mod Validity
use rpc_library.Common.{
  ℕ, ◌≡◌, refl, Bool, true, false, List, [], ◌∷◌, ◌++◌, Option, none, some, Outcome, ok, fault,
  ◌>>=◌, if◌then◌else◌,
}
use rpc_library.Signature.{Signature, signature_of_arg_types}
use rpc_library.Message
use rpc_library.Message.{MessageType, RawMessage, raw_message}
use rpc_library.Messages.Status.{serialize_status, deserialize_status}
use rpc_library.Messages.Register.{Register, deserialize_register}
use rpc_library.Messages.Locate.{
  LocateRequest, deserialize_locate_request, LocateSuccess, serialize_locate_success,
}
use rpc_library.Binder.Server.{ServerData}
use rpc_library.Binder.Database.{BinderDatabase, register_server, locate_server, remove_if_server}
use rpc_library.Binder.Terminating.{Reply, handle_terminate, terminate_messages}

-- handleRegister
unfoldable pub handle_register :
    Register → ℕ → BinderDatabase → Outcome (RawMessage × BinderDatabase)
handle_register m server_socket db = do
  signature ← signature_of_arg_types m.function_name m.arg_types
  let server : ServerData = record {
    server_hostname = m.server_hostname;
    server_port = m.server_port;
    server_socket = server_socket;
  }
  let (status, db') = register_server signature server db
  ok (serialize_status Message.register_success status, db')

-- The message of an answer of `handleLocate`
abbrev pub locate_response : Option ServerData → RawMessage
locate_response none = serialize_status Message.locate_failure 1
locate_response (some s) =
    serialize_locate_success
      (record { server_hostname = s.server_hostname; server_port = s.server_port })

-- handleLocate
unfoldable pub handle_locate :
    LocateRequest → BinderDatabase → Outcome (RawMessage × BinderDatabase)
handle_locate m db = do
  signature ← signature_of_arg_types m.function_name m.arg_types
  let (answer, db') = locate_server signature db
  ok (locate_response answer, db')

-- What a message leads to: an answer, the messages that went to servers before it, the new database
-- and whether the loop runs on; or nothing.
pub record Handled : Type 0 where
  pub response : RawMessage
  pub to_servers : List (ℕ × RawMessage)
  pub database : BinderDatabase
  pub running : Bool

abbrev pub handled : RawMessage × BinderDatabase → Outcome (Option Handled)
handled (m, db) =
    ok (some (record { response = m; to_servers = []; database = db; running = true }))

-- The switch on the message type; `none` is `continue`.
unfoldable pub dispatch :
    MessageType → (ServerData → Reply) → ℕ → RawMessage → BinderDatabase → Outcome (Option Handled)
dispatch Message.register replies client raw db = do
  m ← deserialize_register raw
  result ← handle_register m client db
  handled result
dispatch Message.locate_request replies client raw db = do
  m ← deserialize_locate_request raw
  result ← handle_locate m db
  handled result
dispatch Message.terminate replies client raw db = do
  m ← deserialize_status raw
  response ← handle_terminate replies db
  ok (
      some (record {
        response = response;
        to_servers = terminate_messages db;
        database = db;
        running = false;
      }))
dispatch _ replies client raw db = ok none

-- What a `client->recv()` that is caught or returns, and `client->send(…)`, came to. Where `recv` throws
-- what is not caught, there is an `Outcome` around it.
pub data Received : Type 0 where
  message : List ℕ → Received
  closed : Received
  recv_error : Received

pub data Sent : Type 0 where
  delivered : Sent
  send_closed : Sent
  send_error : Sent

-- The loop's variables, the messages that were handed to `send` and the sockets that the TCP server
-- was told to forget, newest last.
pub record BinderState : Type 0 where
  pub database : BinderDatabase
  pub running : Bool
  pub sent : List (ℕ × RawMessage)
  pub forgotten : List ℕ

-- The sending of the response.
unfoldable pub respond : ℕ → Sent → Handled → BinderState → BinderState
respond client send_closed h st = record st {
  database = remove_if_server client h.database;
  running = h.running;
  sent = st.sent ++ (h.to_servers ++ (client, h.response) ∷ []);
}
respond client _ h st = record st {
  database = h.database;
  running = h.running;
  sent = st.sent ++ (h.to_servers ++ (client, h.response) ∷ []);
}

unfoldable pub after_dispatch : ℕ → Sent → BinderState → Option Handled → BinderState
after_dispatch client outcome st none = st
after_dispatch client outcome st (some h) = respond client outcome h st

-- The body of the loop over the clients with data. An empty buffer is skipped.
unfoldable pub serve_client :
    (ServerData → Reply) → ℕ → Received → Sent → BinderState → Outcome BinderState
unfolding after_dispatch respond
serve_client replies client closed outcome st = ok (record st {
  database = remove_if_server client st.database;
  forgotten = st.forgotten ++ client ∷ [];
})
serve_client replies client recv_error outcome st = ok st
serve_client replies client (message []) outcome st = ok st
serve_client replies client (message (c ∷ cs)) outcome st = do
  let raw = raw_message (c ∷ cs)
  result ← dispatch raw.message_type replies client raw st.database
  ok (after_dispatch client outcome st result)
