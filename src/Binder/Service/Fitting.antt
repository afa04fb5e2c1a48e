-- ===== src/Binder/Service/Fitting.antt =====
-- How many clients of tcp_server.cc can have data in a round of binder.cc.
use rpc_library.Common.{
  ℕ, zero, suc, ◌+◌, ◌<◌, ◌≤◌, Bool, true, false, length, length-append, Option, none, some, Ends,
  Ends-bind, Ends-imp, Bool-cases, Option-cases, inl, inr, arith, ltb, ◌==◌,
}
use rpc_library.Binder.Process.{RoundInput, accept_one, clients_of, forget}
use rpc_library.Binder.Loop.{Received, message, closed, recv_error}
use rpc_library.TcpServer.{
  Socket, TcpServer, fd_setsize, add_connection, accept_if_any, connection_at, visit, visit_below,
  connections_with_data, connection_closed,
}

visit-few :
    (ready : ℕ → Bool) (st : TcpServer) (fd : ℕ) → Ends (λ ss. length ss ≤ 1) (visit ready st fd)
unfolding visit
visit-few ready st fd = elim (Bool-cases (fd == st.listener)) [
  | inl own ↦ rw own (omega arith)
  | inr other ↦ elim (Bool-cases (ready fd)) [
    | inr idle ↦ rw (other, idle) (omega arith)
    | inl data_there ↦ elim (Option-cases (st.connections fd)) [
      | inl missing ↦ rw (other, data_there, connection_at, missing) tt
      | inr (s, there) ↦ rw (other, data_there, connection_at, there) (omega arith)
    ]
  ]
]

visit_below-few :
    (ready : ℕ → Bool) (st : TcpServer) (n : ℕ)
    → Ends (λ ss. length ss ≤ n) (visit_below ready st n)
unfolding visit_below
visit_below-few ready st zero = omega arith
visit_below-few ready st (suc n) =
    Ends-bind (λ ss. length ss ≤ n) (λ ss. length ss ≤ suc n) (visit_below ready st n) _
      (visit_below-few ready st n)
      (λ ss few.
        Ends-bind (λ more. length more ≤ 1) (λ all. length all ≤ suc n) (visit ready st n) _
          (visit-few ready st n) (λ more one. rw (length-append ss more) (omega arith)))

-- No more clients have data than descriptors fit into an fd_set.
pub clients_of-few :
    (input : RoundInput) (st : TcpServer)
    → st.fd_max < fd_setsize
    → Ends (λ clients. length clients ≤ fd_setsize) (clients_of input st)
unfolding clients_of connections_with_data
clients_of-few input st small = elim (Option-cases input.ready) [
  | inl failed ↦ rw (clients_of, failed) tt
  | inr (ready, e) ↦
      rw (clients_of, e)
        (Ends-imp (λ ss. length ss ≤ st.fd_max + 1) (λ ss. length ss ≤ fd_setsize)
          (visit_below ready st (st.fd_max + 1)) (visit_below-few ready st (st.fd_max + 1))
          (λ ss few. omega arith))
]

accept_if_any-fits :
    (listening : Bool) (accepted : Option ℕ) (address : ℕ) (st : TcpServer)
    → st.fd_max < fd_setsize
    → Ends (λ st'. st'.fd_max < fd_setsize) (accept_if_any listening accepted address st)
unfolding accept_if_any add_connection
accept_if_any-fits false accepted address st small = small
accept_if_any-fits true none address st small = small
accept_if_any-fits true (some newfd) address st small = elim (Bool-cases (ltb newfd fd_setsize)) [
  | inl fits ↦ rw fits (ground (arith, fits))
  | inr beyond ↦ rw beyond tt
]

-- What is accepted fits into the fd_set.
pub accept_one-fits :
    (input : RoundInput) (st : TcpServer)
    → st.fd_max < fd_setsize
    → Ends (λ st'. st'.fd_max < fd_setsize) (accept_one input st)
unfolding accept_one
accept_one-fits input st small = elim (Option-cases input.accepts) [
  | inl failed ↦ rw (accept_one, failed) small
  | inr ((listening, accepted), e) ↦
      rw (accept_one, e) (accept_if_any-fits listening accepted input.address st small)
]

pub forget-fits :
    (received : Received) (client : Socket) (st : TcpServer)
    → st.fd_max < fd_setsize
    → (forget received client st).fd_max < fd_setsize
unfolding connection_closed
forget-fits closed client st small = small
forget-fits recv_error client st small = small
forget-fits (message bytes) client st small = small
