-- ===== src/TcpServer.antt =====
-- tcp_server.h and tcp_server.cc: the connections of a server, by their descriptors. What the kernel
-- answers is a parameter: which descriptors `select` reports, and what `accept` returns.
pub mod Connections
pub mod Creating
use rpc_library.Common.{
  ℕ, zero, suc, ◌+◌, Bool, true, false, List, [], ◌∷◌, ◌++◌, Option, none, some, Outcome, ok, fault,
  out_of_range, undefined, ◌>>=◌, ◌==◌, ltb, if◌then◌else◌,
}

-- A TcpSocket: where it lies, and its descriptor
pub record Socket : Type 0 where
  pub address : ℕ
  pub fd : ℕ

-- The listening socket, the fd_set, its largest member ever, and the map from descriptors to sockets
pub record TcpServer : Type 0 where
  pub listener : ℕ
  pub fd_master : ℕ → Bool
  pub fd_max : ℕ
  pub connections : ℕ → Option Socket

-- FD_SET and FD_CLR
abbrev pub set_at {ℓ} : {A : Type ℓ} → ℕ → A → (ℕ → A) → ℕ → A
set_at fd a f x = if x == fd then a else f x

-- The end of TcpServer::TcpServer: FD_ZERO, and the listener in the fd_set.
abbrev pub new_server : ℕ → TcpServer
new_server listener = record {
  listener = listener;
  fd_master = set_at listener true (λ fd. false);
  fd_max = listener;
  connections = λ fd. none;
}

-- emplace: a descriptor that is in the map keeps its socket.
abbrev pub emplace : ℕ → Socket → (ℕ → Option Socket) → ℕ → Option Socket
emplace fd socket connections = elim (connections fd) [
  | none ↦ set_at fd (some socket) connections
  | some old ↦ connections
]

-- FD_SETSIZE: the bits of an fd_set
abbrev pub fd_setsize : ℕ
fd_setsize = 1024

-- What acceptIfAny does with a new descriptor
unfoldable pub add_connection : ℕ → ℕ → TcpServer → TcpServer
add_connection newfd address st = record st {
  fd_master = set_at newfd true st.fd_master;
  fd_max = if ltb st.fd_max newfd then newfd else st.fd_max;
  connections = emplace newfd (record { address = address; fd = newfd }) st.connections;
}

-- TcpServer::acceptIfAny behind a `select` that did not fail: whether the listener is ready, what
-- `accept` returns (`none` for -1), and where the new TcpSocket lies. FD_SET of a descriptor from
-- FD_SETSIZE on writes outside of the fd_set.
unfoldable pub accept_if_any : Bool → Option ℕ → ℕ → TcpServer → Outcome TcpServer
accept_if_any false accepted address st = ok st
accept_if_any true none address st = ok st
accept_if_any true (some newfd) address st =
    if ltb newfd fd_setsize then ok (add_connection newfd address st) else fault undefined

-- connections.at(fd).get()
abbrev pub connection_at : TcpServer → ℕ → Outcome Socket
connection_at st fd = elim (st.connections fd) [ none ↦ fault out_of_range | some s ↦ ok s ]

-- The body of the loop of connectionsWithData
unfoldable pub visit : (ℕ → Bool) → TcpServer → ℕ → Outcome (List Socket)
visit ready st fd =
    if fd == st.listener
    then ok []
    else if ready fd
    then (connection_at st fd >>= λ s. ok (s ∷ []))
    else ok []

-- The loop, over the descriptors below a number
unfoldable pub visit_below : (ℕ → Bool) → TcpServer → ℕ → Outcome (List Socket)
visit_below ready st zero = ok []
visit_below ready st (suc n) = do
  sockets ← visit_below ready st n
  more ← visit ready st n
  ok (sockets ++ more)

-- TcpServer::connectionsWithData behind a `select` that did not fail: `ready` is `read_fds`.
unfoldable pub connections_with_data : (ℕ → Bool) → TcpServer → Outcome (List Socket)
connections_with_data ready st = visit_below ready st (st.fd_max + 1)

-- TcpServer::connectionClosed and TcpServer::releaseConnection
unfoldable pub connection_closed : Socket → TcpServer → TcpServer
connection_closed client st = record st {
  fd_master = set_at client.fd false st.fd_master;
  connections = set_at client.fd none st.connections;
}

-- The socket is a null pointer, here `none`, if the map does not have the descriptor.
unfoldable pub release_connection : Socket → TcpServer → Option Socket × TcpServer
release_connection client st = (
  st.connections client.fd,
  record st {
    fd_master = set_at client.fd false st.fd_master;
    connections = set_at client.fd none st.connections;
  },
)
