-- ===== src/TcpServer/Connections.antt =====
-- The fd_set of tcp_server.cc beside the map of connections.
use rpc_library.Common.{
  ℕ, zero, suc, ◌+◌, ◌≤◌, ◌≡◌, ◌≢◌, refl, ◌∙◌, ap, Bool, true, false, List, [], ◌∷◌, ◌++◌, Option,
  none, some, Outcome, ok, ◌>>=◌, Ends, Ends-bind, ltb, ◌==◌, arith, Bool-cases, Option-cases, inl,
  inr,
}
use rpc_library.TcpServer.{
  Socket, TcpServer, new_server, fd_setsize, add_connection, accept_if_any, connection_at, visit,
  visit_below, connections_with_data, connection_closed, release_connection, emplace,
}

-- Every descriptor in the fd_set is at most `fd_max`, and has a connection unless it is the listener's.
pub record IsConnected (st : TcpServer) : Type 0 where
  pub bounded : (fd : ℕ) → st.fd_master fd ≡ true → fd ≤ st.fd_max
  pub connected :
      (fd : ℕ)
      → st.fd_master fd ≡ true
      → fd ≢ st.listener
      → (s : Socket) × (st.connections fd ≡ some s)

add_connection-IsConnected :
    (newfd address : ℕ) (st : TcpServer)
    → IsConnected st
    → IsConnected (add_connection newfd address st)
unfolding add_connection
add_connection-IsConnected newfd address st v = record {
  bounded = λ fd h. ground (arith, v.bounded fd);
  connected = λ fd h other. elim (Option-cases (st.connections newfd)) [
    | inl new ↦ elim (Bool-cases (fd == newfd)) [
      | inl same ↦
          (record { address = address; fd = newfd }, rw (add_connection, emplace, new, same) refl)
      | inr apart ↦
          let (s, there) = v.connected fd (rw apart at h) other in
          (s, rw (add_connection, emplace, new, apart) there)
    ]
    | inr (old, there) ↦ elim (Bool-cases (fd == newfd)) [
      | inl same ↦
          (old, rw (add_connection, emplace, there) (ap st.connections (ground arith) ∙ there))
      | inr apart ↦
          let (s, at_fd) = v.connected fd (rw apart at h) other in
          (s, rw (add_connection, emplace, there) at_fd)
    ]
  ];
}

pub accept_if_any-IsConnected :
    (listening : Bool) (accepted : Option ℕ) (socket : ℕ) (st : TcpServer)
    → IsConnected st
    → Ends IsConnected (accept_if_any listening accepted socket st)
unfolding accept_if_any
accept_if_any-IsConnected false accepted socket st v = v
accept_if_any-IsConnected true none socket st v = v
accept_if_any-IsConnected true (some newfd) address st v =
    elim (Bool-cases (ltb newfd fd_setsize)) [
      | inl fits ↦ rw fits (add_connection-IsConnected newfd address st v)
      | inr beyond ↦ rw beyond tt
    ]

pub connection_closed-IsConnected :
    (client : Socket) (st : TcpServer) → IsConnected st → IsConnected (connection_closed client st)
unfolding connection_closed
connection_closed-IsConnected client st v = record {
  bounded = λ x h. ground (arith, v.bounded x);
  connected = λ x h other. elim (Bool-cases (x == client.fd)) [
    | inl same ↦ cc (rw same at h)
    | inr apart ↦ let (s, there) = v.connected x (rw apart at h) other in (s, rw apart there)
  ];
}

visit-total :
    (ready : ℕ → Bool) (st : TcpServer)
    → IsConnected st
    → ((fd : ℕ) → ready fd ≡ true → st.fd_master fd ≡ true)
    → (fd : ℕ) → (sockets : List Socket) × (visit ready st fd ≡ ok sockets)
unfolding visit
visit-total ready st v subset fd = elim (Bool-cases (fd == st.listener)) [
  | inl own ↦ ([], rw own refl)
  | inr other ↦ elim (Bool-cases (ready fd)) [
    | inl data_there ↦
        let (s, there) = v.connected fd (subset fd data_there) (ground arith) in
        (s ∷ [], rw (other, data_there, connection_at, there) refl)
    | inr idle ↦ ([], rw (other, idle) refl)
  ]
]

pub visit_below-total :
    (ready : ℕ → Bool) (st : TcpServer)
    → IsConnected st
    → ((fd : ℕ) → ready fd ≡ true → st.fd_master fd ≡ true)
    → (n : ℕ) → (sockets : List Socket) × (visit_below ready st n ≡ ok sockets)
unfolding visit_below
visit_below-total ready st v subset zero = ([], refl)
visit_below-total ready st v subset (suc n) =
    let (sockets, before) = visit_below-total ready st v subset n in
    let (more, now) = visit-total ready st v subset n in
    (sockets ++ more, rw (before, ◌>>=◌, now) refl)

-- What happens to the connections of a server between two calls.
pub data ServerEvent : Type 0 where
  accepts : Bool → Option ℕ → ℕ → ServerEvent
  closes : Socket → ServerEvent
  releases : Socket → ServerEvent

unfoldable pub server_step : TcpServer → ServerEvent → Outcome TcpServer
server_step st (accepts listening accepted socket) = accept_if_any listening accepted socket st
server_step st (closes client) = ok (connection_closed client st)
server_step st (releases client) = ok (release_connection client st).1

unfoldable pub server_run : TcpServer → List ServerEvent → Outcome TcpServer
server_run st [] = ok st
server_run st (e ∷ es) = server_step st e >>= λ st'. server_run st' es

server_step-IsConnected :
    (st : TcpServer) (e : ServerEvent) → IsConnected st → Ends IsConnected (server_step st e)
unfolding server_step release_connection connection_closed
server_step-IsConnected st (accepts listening accepted socket) v =
    accept_if_any-IsConnected listening accepted socket st v
server_step-IsConnected st (closes client) v = connection_closed-IsConnected client st v
server_step-IsConnected st (releases client) v = connection_closed-IsConnected client st v

server_run-IsConnected :
    (st : TcpServer) (es : List ServerEvent) → IsConnected st → Ends IsConnected (server_run st es)
unfolding server_run
server_run-IsConnected st [] v = v
server_run-IsConnected st (e ∷ es) v =
    Ends-bind IsConnected IsConnected (server_step st e) _ (server_step-IsConnected st e v)
      (λ st' v'. server_run-IsConnected st' es v')

pub new_server-IsConnected : (listener : ℕ) → IsConnected (new_server listener)
new_server-IsConnected listener = record {
  bounded = λ fd h. ground arith;
  connected = λ fd h other. absurd (other (ground arith));
}

-- From a new server on, after any sequence of accepted, closed and released connections, the loop of
-- connectionsWithData finds a connection for each descriptor that it looks up, and throws nothing; the
-- descriptors that `select` reports are among those that it was asked about.
pub connections_with_data_total :
    (listener : ℕ) (es : List ServerEvent) (ready : ℕ → Bool) (st : TcpServer)
    → server_run (new_server listener) es ≡ ok st
    → ((fd : ℕ) → ready fd ≡ true → st.fd_master fd ≡ true)
    → (sockets : List Socket) × (connections_with_data ready st ≡ ok sockets)
unfolding connections_with_data
connections_with_data_total listener es ready st ran subset =
    let ends = server_run-IsConnected (new_server listener) es (new_server-IsConnected listener) in
    let v : IsConnected st = (rw ran at ends) in visit_below-total ready st v subset (st.fd_max + 1)
