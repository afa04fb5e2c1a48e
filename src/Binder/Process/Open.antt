-- ===== src/Binder/Process/Open.antt =====
-- The open connections of the binder's process, from `accept` to the loop over those with data.
use rpc_library.Common.{
  ℕ, zero, suc, ◌+◌, ◌<◌, ◌≡◌, ◌≢◌, sym, ◌∙◌, ap, Bool, true, false, List, [], ◌∷◌, ◌++◌, Option,
  none, some, ok, ◌>>=◌, append-nil, Ends, Ends-bind, Ends-imp, ltb, ◌==◌, All, All-append, All-imp,
  Bool-cases, Option-cases, inl, inr, arith,
}
use rpc_library.Binder.Process.{RoundInput, accept_one, clients_of}
use rpc_library.TcpServer.{
  Socket, TcpServer, fd_setsize, add_connection, accept_if_any, emplace, connection_at, visit,
  visit_below, connections_with_data, connection_closed,
}

-- The object at an address is the socket of an open connection.
abbrev pub IsOpen : TcpServer → ℕ → Type 0
IsOpen st address = (fd : ℕ) × (s : Socket) × (st.connections fd ≡ some s) × (s.address ≡ address)

-- A connection stands under its own descriptor.
abbrev pub IsKeyed : TcpServer → Type 0
IsKeyed st = (fd : ℕ) (s : Socket) → st.connections fd ≡ some s → s.fd ≡ fd

add_connection-same :
    (newfd address : ℕ) (st : TcpServer) (fd : ℕ) (s : Socket)
    → st.connections fd ≡ some s
    → (add_connection newfd address st).connections fd ≡ some s
unfolding add_connection
add_connection-same newfd address st fd s h = elim (Option-cases (st.connections newfd)) [
  | inl new ↦ elim (Bool-cases (fd == newfd)) [
    | inl same ↦ let e : fd ≡ newfd = ground arith in cc (sym h ∙ ap st.connections e ∙ new)
    | inr apart ↦ rw (add_connection, emplace, new, apart) h
  ]
  | inr (old, there) ↦ rw (add_connection, emplace, there) h
]

add_connection-IsKeyed :
    (newfd address : ℕ) (st : TcpServer) → IsKeyed st → IsKeyed (add_connection newfd address st)
unfolding add_connection
add_connection-IsKeyed newfd address st k fd s h = elim (Option-cases (st.connections newfd)) [
  | inl new ↦ elim (Bool-cases (fd == newfd)) [
    | inl same ↦
        let e : ◌≡◌ {A = Socket} (record { address = address; fd = newfd }) s =
          cc (rw (add_connection, emplace, new, same) at h) in
        ap (λ (x : Socket). x.fd) (sym e) ∙ sym (ground arith)
    | inr apart ↦ k fd s (rw (add_connection, emplace, new, apart) at h)
  ]
  | inr (old, there) ↦ k fd s (rw (add_connection, emplace, there) at h)
]

-- The connections that stand in one TcpServer stand in the other.
abbrev pub Keeps : TcpServer → TcpServer → Type 0
Keeps st st' =
    IsKeyed st' × ((fd : ℕ) (s : Socket) → st.connections fd ≡ some s → st'.connections fd ≡ some s)

accept_if_any-Keeps :
    (listening : Bool) (accepted : Option ℕ) (address : ℕ) (st : TcpServer)
    → IsKeyed st
    → Ends (Keeps st) (accept_if_any listening accepted address st)
unfolding accept_if_any
accept_if_any-Keeps false accepted address st k = (k, λ fd s h. h)
accept_if_any-Keeps true none address st k = (k, λ fd s h. h)
accept_if_any-Keeps true (some newfd) address st k = elim (Bool-cases (ltb newfd fd_setsize)) [
  | inl fits ↦
      rw fits (add_connection-IsKeyed newfd address st k, add_connection-same newfd address st)
  | inr beyond ↦ rw beyond tt
]

pub connection_closed-IsKeyed :
    (client : Socket) (st : TcpServer) → IsKeyed st → IsKeyed (connection_closed client st)
unfolding connection_closed
connection_closed-IsKeyed client st k fd s h = elim (Bool-cases (fd == client.fd)) [
  | inl same ↦ cc (rw same at h)
  | inr apart ↦ k fd s (rw apart at h)
]

-- Sockets that are open.
abbrev pub Clients : TcpServer → List Socket → Type 0
Clients st clients = All (λ s. st.connections s.fd ≡ some s) clients

-- Sockets with different descriptors
abbrev pub Apart : List Socket → Type 0
Apart [] = Unit {0}
Apart (s ∷ ss) = All (λ t. t.fd ≢ s.fd) ss × Apart ss

Apart-snoc :
    (ss : List Socket) (s : Socket) → Apart ss → All (λ t. s.fd ≢ t.fd) ss → Apart (ss ++ s ∷ [])
Apart-snoc [] s a h = (tt, tt)
Apart-snoc (t ∷ ss) s a h =
    (All-append (λ x. x.fd ≢ t.fd) ss (s ∷ []) a.0 (h.0, tt), Apart-snoc ss s a.1 h.1)

record Visited (st : TcpServer) (n : ℕ) (ss : List Socket) : Type 0 where
  open_still : Clients st ss
  below : All (λ s. s.fd < n) ss
  apart : Apart ss

Visited-idle :
    (st : TcpServer) (n : ℕ) (ss : List Socket) → Visited st n ss → Visited st (suc n) (ss ++ [])
Visited-idle st n ss v = rw (append-nil ss) (record {
  open_still = v.open_still;
  below = All-imp {P = λ x. x.fd < n} {Q = λ x. x.fd < suc n} (λ x h. omega arith) ss v.below;
  apart = v.apart;
})

Visited-busy :
    (st : TcpServer) (n : ℕ) (s : Socket) (ss : List Socket)
    → Visited st n ss
    → s.fd ≡ n
    → st.connections n ≡ some s
    → Visited st (suc n) (ss ++ s ∷ [])
Visited-busy st n s ss v same there = record {
  open_still =
      All-append (λ x. st.connections x.fd ≡ some x) ss (s ∷ []) v.open_still
        (ap st.connections same ∙ there, tt);
  below =
      All-append (λ x. x.fd < suc n) ss (s ∷ [])
        (All-imp {P = λ x. x.fd < n} {Q = λ x. x.fd < suc n} (λ x h. omega arith) ss v.below)
        (omega arith, tt);
  apart =
      Apart-snoc ss s v.apart
        (All-imp {P = λ x. x.fd < n} {Q = λ x. s.fd ≢ x.fd} (λ x h e. omega arith) ss v.below);
}

visit-Visited :
    (ready : ℕ → Bool) (st : TcpServer) (n : ℕ) (ss : List Socket)
    → IsKeyed st
    → Visited st n ss
    → Ends (Visited st (suc n)) (visit ready st n >>= λ more. ok (ss ++ more))
unfolding visit
visit-Visited ready st n ss k v = elim (Bool-cases (n == st.listener)) [
  | inl own ↦ rw own (Visited-idle st n ss v)
  | inr other ↦ elim (Bool-cases (ready n)) [
    | inr idle ↦ rw (other, idle) (Visited-idle st n ss v)
    | inl data_there ↦ elim (Option-cases (st.connections n)) [
      | inl missing ↦ rw (other, data_there, connection_at, missing) tt
      | inr (s, there) ↦
          rw (other, data_there, connection_at, there)
            (Visited-busy st n s ss v (k n s there) there)
    ]
  ]
]

visit_below-Visited :
    (ready : ℕ → Bool) (st : TcpServer)
    → IsKeyed st
    → (n : ℕ) → Ends (Visited st n) (visit_below ready st n)
unfolding visit_below
visit_below-Visited ready st k zero = record { open_still = tt; below = tt; apart = tt }
visit_below-Visited ready st k (suc n) =
    Ends-bind (Visited st n) (Visited st (suc n)) (visit_below ready st n) _
      (visit_below-Visited ready st k n) (λ ss v. visit-Visited ready st n ss k v)

pub connections_with_data-Clients :
    (ready : ℕ → Bool) (st : TcpServer)
    → IsKeyed st
    → Ends (λ clients. Clients st clients × Apart clients) (connections_with_data ready st)
unfolding connections_with_data
connections_with_data-Clients ready st k =
    Ends-imp (Visited st (st.fd_max + 1)) (λ clients. Clients st clients × Apart clients)
      (visit_below ready st (st.fd_max + 1)) (visit_below-Visited ready st k (st.fd_max + 1))
      (λ ss v. (v.open_still, v.apart))

-- A client other than the one that closed is open still.
pub IsOpen-connection_closed :
    (client : Socket) (st : TcpServer) (address : ℕ)
    → st.connections client.fd ≡ some client
    → address ≢ client.address
    → IsOpen st address
    → IsOpen (connection_closed client st) address
unfolding connection_closed
IsOpen-connection_closed client st address there other (fd, s, at_fd, same) =
    elim (Bool-cases (fd == client.fd)) [
      | inl own ↦
          let e : fd ≡ client.fd = ground arith in
          let both : some client ≡ some s = sym there ∙ sym (ap st.connections e) ∙ at_fd in
          let one : client ≡ s = cc both in
          absurd (other (sym same ∙ ap (λ (x : Socket). x.address) (sym one)))
      | inr apart ↦ (fd, s, rw apart at_fd, same)
    ]

pub Clients-connection_closed :
    (client : Socket) (st : TcpServer) (rest : List Socket)
    → All (λ t. t.fd ≢ client.fd) rest
    → Clients st rest
    → Clients (connection_closed client st) rest
unfolding connection_closed
Clients-connection_closed client st [] a c = tt
Clients-connection_closed client st (t ∷ rest) a c =
    let other : (t.fd == client.fd) ≡ false = ground (arith, a.0) in
    (rw other c.0, Clients-connection_closed client st rest a.1 c.1)

pub accept_one-Keeps :
    (input : RoundInput) (st : TcpServer) → IsKeyed st → Ends (Keeps st) (accept_one input st)
unfolding accept_one
accept_one-Keeps input st k = elim (Option-cases input.accepts) [
  | inl failed ↦ rw (accept_one, failed) (k, λ fd s h. h)
  | inr ((listening, accepted), e) ↦
      rw (accept_one, e) (accept_if_any-Keeps listening accepted input.address st k)
]

pub clients_of-Clients :
    (input : RoundInput) (st : TcpServer)
    → IsKeyed st
    → Ends (λ clients. Clients st clients × Apart clients) (clients_of input st)
unfolding clients_of
clients_of-Clients input st k = elim (Option-cases input.ready) [
  | inl failed ↦ rw (clients_of, failed) tt
  | inr (ready, e) ↦ rw (clients_of, e) (connections_with_data-Clients ready st k)
]
