-- ===== src/Binder/Process/Sockets.antt =====
-- The sockets of binder.cc: the database points to TcpSocket objects that the TcpServer owns.
use rpc_library.Common.{
  ℕ, ◌≡◌, refl, List, [], ◌∷◌, Option, none, some, ok, fault, Ends, Ends-bind, Ends-always,
  Bool-cases, inl, inr,
}
use rpc_library.Signature.{signature_of_arg_types}
use rpc_library.Message
use rpc_library.Message.{MessageType, RawMessage, raw_message}
use rpc_library.Messages.Status.{deserialize_status}
use rpc_library.Messages.Register.{Register, deserialize_register}
use rpc_library.Messages.Locate.{LocateRequest, deserialize_locate_request}
use rpc_library.Binder.Server.{ServerData}
use rpc_library.Binder.Database.{BinderDatabase}
use rpc_library.Binder.Terminating.{Reply, handle_terminate}
use rpc_library.Binder.Loop.{
  Handled, handled, handle_register, handle_locate, dispatch, Received, message, closed, recv_error,
  Sent, delivered, send_closed, send_error, BinderState, respond, after_dispatch, serve_client,
}
use rpc_library.Binder.Process.{
  Process, Traffic, RoundInput, serve_socket, serve_sockets, accept_one, clients_of, binder_round,
  binder_main, new_process,
}
use rpc_library.Binder.Process.Live.{
  AllStored, register_server-AllStored, locate_server-AllStored, remove_if_server-AllStored,
  empty_database-AllStored, AllStored-imp,
}
use rpc_library.Binder.Process.Open.{
  IsOpen, IsKeyed, Keeps, Clients, Apart, connection_closed-IsKeyed, IsOpen-connection_closed,
  Clients-connection_closed, accept_one-Keeps, clients_of-Clients,
}
use rpc_library.TcpServer.{Socket, TcpServer, new_server}

-- Every server in the database has an open connection.
abbrev pub IsLive : TcpServer → BinderDatabase → Type 0
IsLive st db = AllStored (λ s. IsOpen st s.server_socket) db

-- What one message of a client with an open connection does to the database.
module _ (st : TcpServer) (client : ℕ) (its_own : IsOpen st client) where
  abbrev HandledLive : Option Handled → Type 0
  HandledLive none = Unit {0}
  HandledLive (some h) = IsLive st h.database

  handle_register-IsLive :
      (m : Register) (db : BinderDatabase)
      → IsLive st db
      → Ends (λ result. IsLive st result.1) (handle_register m client db)
  unfolding handle_register
  handle_register-IsLive m db l =
      Ends-bind (λ sig. Unit {0}) (λ result. IsLive st result.1)
        (signature_of_arg_types m.function_name m.arg_types) _ (Ends-always _)
        (λ sig done. register_server-AllStored (λ s. IsOpen st s.server_socket) sig _ db its_own l)

  handle_locate-IsLive :
      (m : LocateRequest) (db : BinderDatabase)
      → IsLive st db
      → Ends (λ result. IsLive st result.1) (handle_locate m db)
  unfolding handle_locate
  handle_locate-IsLive m db l =
      Ends-bind (λ sig. Unit {0}) (λ result. IsLive st result.1)
        (signature_of_arg_types m.function_name m.arg_types) _ (Ends-always _)
        (λ sig done. locate_server-AllStored (λ s. IsOpen st s.server_socket) sig db l)

  dispatch-HandledLive :
      (type : MessageType) (replies : ServerData → Reply) (raw : RawMessage) (db : BinderDatabase)
      → IsLive st db
      → Ends HandledLive (dispatch type replies client raw db)
  unfolding dispatch
  dispatch-HandledLive Message.register replies raw db l =
      Ends-bind (λ m. Unit {0}) HandledLive (deserialize_register raw) _ (Ends-always _)
        (λ m read.
          Ends-bind (λ result. IsLive st result.1) HandledLive (handle_register m client db) handled
            (handle_register-IsLive m db l) (λ result live. live))
  dispatch-HandledLive Message.locate_request replies raw db l =
      Ends-bind (λ m. Unit {0}) HandledLive (deserialize_locate_request raw) _ (Ends-always _)
        (λ m read.
          Ends-bind (λ result. IsLive st result.1) HandledLive (handle_locate m db) handled
            (handle_locate-IsLive m db l) (λ result live. live))
  dispatch-HandledLive Message.terminate replies raw db l =
      Ends-bind (λ m. Unit {0}) HandledLive (deserialize_status raw) _ (Ends-always _)
        (λ m read.
          Ends-bind (λ response. Unit {0}) HandledLive (handle_terminate replies db) _
            (Ends-always _) (λ response told. l))
  dispatch-HandledLive _ replies raw db l = tt

  after_dispatch-IsLive :
      (outcome : Sent) (b : BinderState) (o : Option Handled)
      → IsLive st b.database
      → HandledLive o
      → IsLive st (after_dispatch client outcome b o).database
  unfolding after_dispatch respond
  after_dispatch-IsLive outcome b none l h = l
  after_dispatch-IsLive send_closed b (some x) l h =
      remove_if_server-AllStored client x.database (λ s p other. p) h
  after_dispatch-IsLive delivered b (some x) l h = h
  after_dispatch-IsLive send_error b (some x) l h = h

  message-IsLive :
      (replies : ServerData → Reply) (bytes : List ℕ) (outcome : Sent) (b : BinderState)
      → IsLive st b.database
      → Ends (λ b'. IsLive st b'.database) (serve_client replies client (message bytes) outcome b)
  unfolding serve_client
  message-IsLive replies [] outcome b l = l
  message-IsLive replies (c ∷ cs) outcome b l =
      Ends-bind HandledLive (λ b'. IsLive st b'.database)
        (dispatch (raw_message (c ∷ cs)).message_type replies client (raw_message (c ∷ cs))
          b.database)
        _ (dispatch-HandledLive _ replies (raw_message (c ∷ cs)) b.database l)
        (λ o h. after_dispatch-IsLive outcome b o l h)

-- The process between two clients, those of the round that are still to come at hand.
record Running (rest : List Socket) (p : Process) : Type 0 where
  keyed : IsKeyed p.tcp_server
  live : IsLive p.tcp_server p.state.database
  clients : Clients p.tcp_server rest
  apart : Apart rest

received-Running :
    (replies : ServerData → Reply) (received : Received) (sent : Sent) (client : Socket)
    (rest : List Socket) (p : Process)
    → Running (client ∷ rest) p
    → Ends (Running rest) (serve_socket replies (ok received, sent) client p)
unfolding serve_socket serve_client
received-Running replies closed sent client rest p r = record {
  keyed = connection_closed-IsKeyed client p.tcp_server r.keyed;
  live =
      remove_if_server-AllStored client.address p.state.database
        (λ s opened other.
          IsOpen-connection_closed client p.tcp_server s.server_socket r.clients.0 other opened)
        r.live;
  clients = Clients-connection_closed client p.tcp_server rest r.apart.0 r.clients.1;
  apart = r.apart.1;
}
received-Running replies recv_error sent client rest p r = record {
  keyed = r.keyed;
  live = r.live;
  clients = r.clients.1;
  apart = r.apart.1;
}
received-Running replies (message bytes) sent client rest p r =
    Ends-bind (λ b. IsLive p.tcp_server b.database) (Running rest)
      (serve_client replies client.address (message bytes) sent p.state) _
      (message-IsLive p.tcp_server client.address (client.fd, client, r.clients.0, refl) replies
        bytes sent p.state r.live)
      (λ b l. record { keyed = r.keyed; live = l; clients = r.clients.1; apart = r.apart.1 })

serve_socket-Running :
    (replies : ServerData → Reply) (traffic : Traffic) (client : Socket) (rest : List Socket)
    (p : Process)
    → Running (client ∷ rest) p
    → Ends (Running rest) (serve_socket replies traffic client p)
unfolding serve_socket
serve_socket-Running replies (ok received, sent) client rest p r =
    received-Running replies received sent client rest p r
serve_socket-Running replies (fault why, sent) client rest p r = tt

serve_sockets-Running :
    (replies : ServerData → Reply) (traffic : Socket → Traffic) (clients : List Socket)
    (p : Process)
    → Running clients p
    → Ends (Running []) (serve_sockets replies traffic clients p)
unfolding serve_sockets
serve_sockets-Running replies traffic [] p r = r
serve_sockets-Running replies traffic (client ∷ rest) p r =
    Ends-bind (Running rest) (Running []) (serve_socket replies (traffic client) client p) _
      (serve_socket-Running replies (traffic client) client rest p r)
      (λ p' r'. elim (Bool-cases p'.state.running) [
        | inl on ↦ rw on (serve_sockets-Running replies traffic rest p' r')
        | inr off ↦ rw off (record { keyed = r'.keyed; live = r'.live; clients = tt; apart = tt })
      ])

binder_round-Running :
    (input : RoundInput) (p : Process) → Running [] p → Ends (Running []) (binder_round input p)
unfolding binder_round
binder_round-Running input p r =
    Ends-bind (Keeps p.tcp_server) (Running []) (accept_one input p.tcp_server) _
      (accept_one-Keeps input p.tcp_server r.keyed)
      (λ server (keyed, same).
        Ends-bind (λ clients. Clients server clients × Apart clients) (Running [])
          (clients_of input server) _ (clients_of-Clients input server keyed)
          (λ clients c.
            serve_sockets-Running input.replies input.traffic clients
              (record p { tcp_server = server })
              (record {
                keyed = keyed;
                live =
                    AllStored-imp p.state.database
                      (λ s (fd, t, at_fd, e). (fd, t, same fd t at_fd, e)) r.live;
                clients = c.0;
                apart = c.1;
              })))

binder_main-Running :
    (inputs : List RoundInput) (p : Process)
    → Running [] p
    → Ends (Running []) (binder_main inputs p)
unfolding binder_main
binder_main-Running [] p r = r
binder_main-Running (input ∷ inputs) p r = elim (Bool-cases p.state.running) [
  | inl on ↦
      rw (binder_main, on)
        (Ends-bind (Running []) (Running []) (binder_round input p) _
          (binder_round-Running input p r) (λ p' r'. binder_main-Running inputs p' r'))
  | inr off ↦ rw (binder_main, off) r
]

new_process-Running : (listener : ℕ) → Running [] (new_process listener)
new_process-Running listener = record {
  keyed = λ fd s h. cc h;
  live = empty_database-AllStored (λ s. IsOpen (new_server listener) s.server_socket);
  clients = tt;
  apart = tt;
}

-- Whatever the clients send and whatever the kernel answers, whenever the main loop of the binder comes
-- to its condition, each server that the queue, the map of timestamps or a set names has a socket that is
-- an open connection of the TcpServer: no entry points to a TcpSocket that was destroyed.
pub database_sockets-IsOpen :
    (listener : ℕ) (inputs : List RoundInput) (p : Process)
    → binder_main inputs (new_process listener) ≡ ok p
    → AllStored (λ s. IsOpen p.tcp_server s.server_socket) p.state.database
database_sockets-IsOpen listener inputs p h =
    let ends : Ends (Running []) (binder_main inputs (new_process listener)) =
      binder_main-Running inputs (new_process listener) (new_process-Running listener) in
    let r : Running [] p = (rw h at ends) in r.live
