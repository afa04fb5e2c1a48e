-- ===== src/Binder/Process/Total.antt =====
-- When `main` of binder.cc throws nothing: what its clients and the kernel have to do for it.
use rpc_library.Common.{
  ◌<◌, Ends, ltb, arith, Option, ℕ, ◌+◌, ◌≡◌, refl, Bool, true, false, List, [], ◌∷◌, none, some,
  Outcome, ok, ◌>>=◌, Option-cases, inl, inr,
}
use rpc_library.Binder.Server.{ServerData}
use rpc_library.Binder.Terminating.{Reply}
use rpc_library.Binder.Loop.{Received, message, closed, recv_error}
use rpc_library.Binder.Process.{
  Process, Traffic, RoundInput, forget, serve_socket, serve_sockets, accept_one, clients_of,
  binder_round, binder_main, new_process,
}
use rpc_library.Binder.Process.Answering.{
  Returns, NoOverflow, AreReadable, IsReadableMessage, serve_client-Returns,
}
use rpc_library.TcpServer.{
  Socket, TcpServer, fd_setsize, add_connection, accept_if_any, connections_with_data,
}
use rpc_library.TcpServer.Connections.{
  IsConnected, accept_if_any-IsConnected, connection_closed-IsConnected, visit_below-total,
  new_server-IsConnected,
}

-- A computation that has a value, whose TcpServer is connected.
abbrev pub Serves : Outcome Process → Type 0
Serves o = (p : Process) × (o ≡ ok p) × IsConnected p.tcp_server

-- A loop that goes on or stops
Serves-elim :
    (b : Bool) (more last : Outcome Process)
    → Serves more
    → Serves last
    → Serves (elim b [ true ↦ more | false ↦ last ])
Serves-elim true more last m l = m
Serves-elim false more last m l = l

forget-IsConnected :
    (received : Received) (client : Socket) (st : TcpServer)
    → IsConnected st
    → IsConnected (forget received client st)
forget-IsConnected closed client st v = connection_closed-IsConnected client st v
forget-IsConnected recv_error client st v = v
forget-IsConnected (message bytes) client st v = v

serve_socket-Serves :
    (replies : ServerData → Reply) (traffic : Traffic) (client : Socket) (p : Process)
    → NoOverflow replies
    → (received : Received) × (traffic.0 ≡ ok received) × IsReadableMessage received
    → IsConnected p.tcp_server
    → Serves (serve_socket replies traffic client p)
unfolding serve_socket
serve_socket-Serves replies (o, outcome) client p fine (received, got, readable) v =
    let (st, served) =
      serve_client-Returns replies client.address received outcome p.state fine readable in
    rw (got, ◌>>=◌, served)
      (
        record { tcp_server = forget received client p.tcp_server; state = st },
        refl,
        forget-IsConnected received client p.tcp_server v,
      )

serve_sockets-Serves :
    (replies : ServerData → Reply) (traffic : Socket → Traffic)
    → NoOverflow replies
    → AreReadable traffic
    → (clients : List Socket) (p : Process) → IsConnected p.tcp_server
    → Serves (serve_sockets replies traffic clients p)
unfolding serve_sockets
serve_sockets-Serves replies traffic fine r [] p v = (p, refl, v)
serve_sockets-Serves replies traffic fine r (client ∷ rest) p v =
    let (p', served, v') =
      serve_socket-Serves replies (traffic client) client p fine (r client) v in
    rw (served, ◌>>=◌)
      (Serves-elim p'.state.running (serve_sockets replies traffic rest p') (ok p')
        (serve_sockets-Serves replies traffic fine r rest p' v') (p', refl, v'))

-- An accepted descriptor fits into an fd_set.
abbrev pub FitsSelect : RoundInput → Type 0
FitsSelect input = (fd : ℕ) → input.accepts ≡ some (true, some fd) → fd < fd_setsize

-- What a round asks for: what is accepted fits into the fd_set, the second `select` does not fail and
-- reports descriptors that it was asked about, no `recv` reads a length below -1, neither from a client
-- nor from a server that is told to terminate, and every message is readable.
pub record IsServiceable (input : RoundInput) (p : Process) : Type 0 where
  pub fits : FitsSelect input
  pub reported : ℕ → Bool
  pub answered : input.ready ≡ some reported
  pub asked :
      (server : TcpServer)
      → accept_one input p.tcp_server ≡ ok server
      → (fd : ℕ) → reported fd ≡ true
      → server.fd_master fd ≡ true
  pub no_overflow : NoOverflow input.replies
  pub readable : AreReadable input.traffic

accept_if_any-Returns :
    (listening : Bool) (accepted : Option ℕ) (address : ℕ) (st : TcpServer)
    → ((fd : ℕ) → (listening ≡ true) → accepted ≡ some fd → fd < fd_setsize)
    → Returns (accept_if_any listening accepted address st)
unfolding accept_if_any
accept_if_any-Returns false accepted address st f = (st, refl)
accept_if_any-Returns true none address st f = (st, refl)
accept_if_any-Returns true (some newfd) address st f =
    let fits : ltb newfd fd_setsize ≡ true = ground (arith, f newfd refl refl) in
    (add_connection newfd address st, rw fits refl)

accept_one-Returns :
    (input : RoundInput) (st : TcpServer) → FitsSelect input → Returns (accept_one input st)
unfolding accept_one
accept_one-Returns input st f = elim (Option-cases input.accepts) [
  | inl failed ↦ (st, rw (accept_one, failed) refl)
  | inr ((listening, accepted), e) ↦
      let (st', done) =
        accept_if_any-Returns listening accepted input.address st
          (λ fd on there. f fd (cc (e, on, there))) in
      (st', rw (accept_one, e) done)
]

accept_one-IsConnected :
    (input : RoundInput) (st : TcpServer) → IsConnected st → Ends IsConnected (accept_one input st)
unfolding accept_one
accept_one-IsConnected input st v = elim (Option-cases input.accepts) [
  | inl failed ↦ rw (accept_one, failed) v
  | inr ((listening, accepted), e) ↦
      rw (accept_one, e) (accept_if_any-IsConnected listening accepted input.address st v)
]

clients_of-Returns :
    (input : RoundInput) (st : TcpServer) (reported : ℕ → Bool)
    → IsConnected st
    → input.ready ≡ some reported
    → ((fd : ℕ) → reported fd ≡ true → st.fd_master fd ≡ true)
    → Returns (clients_of input st)
unfolding clients_of connections_with_data
clients_of-Returns input st reported v e asked =
    rw (clients_of, e) (visit_below-total reported st v asked (st.fd_max + 1))

binder_round-Serves :
    (input : RoundInput) (p : Process)
    → IsConnected p.tcp_server
    → IsServiceable input p
    → Serves (binder_round input p)
unfolding binder_round
binder_round-Serves input p v s =
    let (server, accepted) = accept_one-Returns input p.tcp_server s.fits in
    let ends = accept_one-IsConnected input p.tcp_server v in
    let v' : IsConnected server = (rw accepted at ends) in
    let (clients, found) =
      clients_of-Returns input server s.reported v' s.answered (s.asked server accepted) in
    rw (accepted, ◌>>=◌, found)
      (serve_sockets-Serves input.replies input.traffic s.no_overflow s.readable clients
        (record p { tcp_server = server }) v')

-- Every round is serviceable when it comes.
abbrev pub AreServiceable : List RoundInput → Process → Type 0
AreServiceable [] p = Unit {0}
AreServiceable (input ∷ inputs) p =
    IsServiceable input p
    × ((p' : Process) → binder_round input p ≡ ok p' → AreServiceable inputs p')

binder_main-Serves :
    (inputs : List RoundInput) (p : Process)
    → IsConnected p.tcp_server
    → AreServiceable inputs p
    → Serves (binder_main inputs p)
unfolding binder_main
binder_main-Serves [] p v s = (p, refl, v)
binder_main-Serves (input ∷ inputs) p v s =
    let (p', round, v') = binder_round-Serves input p v s.0 in
    Serves-elim p.state.running (binder_round input p >>= λ x. binder_main inputs x) (ok p)
      (rw (round, ◌>>=◌) (binder_main-Serves inputs p' v' (s.1 p' round))) (p, refl, v)

-- If in each round an accepted descriptor is below FD_SETSIZE, the second `select` succeeds and reports
-- descriptors that it was asked about, no `recv` of the binder reads a length below -1, or one without a
-- meaning, and every message that is not empty can be read, with argument types that make a signature,
-- then the loop of `main` of the binder throws nothing and has no undefined behaviour: every descriptor
-- that it looks up has a connection, in particular behind connections that were closed.
pub binder_main_total :
    (listener : ℕ) (inputs : List RoundInput)
    → AreServiceable inputs (new_process listener)
    → Returns (binder_main inputs (new_process listener))
binder_main_total listener inputs s =
    let (p, done, v) =
      binder_main-Serves inputs (new_process listener) (new_server-IsConnected listener) s in
    (p, done)
