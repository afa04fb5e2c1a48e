-- ===== src/Rpc/Descriptors.antt =====
-- What rpcInit leaves open (rpc.cc, tcp_client.cc, tcp_server.cc).
use rpc_library.Common.{
  Outcome, ok, ◌>>=◌, Outcome-cases, ℕ, ◌≡◌, ◌↔◌, refl, ◌∙◌, ◌&&◌, ◌||◌, not, Bool, true, false,
  List, [], ◌∷◌, Option, none, some, if◌then◌else◌, Option-cases, Bool-cases, inl, inr, arith,
}
use rpc_library.Binder.Keyed.{erase, is_some}
use rpc_library.TcpServer.Creating.{
  Descriptors, close, Address, no_socket, unbound, bound, ListenerInput, LocalServer, find_listener,
  listen_on, name_listener, new_tcp_server,
}
use rpc_library.TcpClient.{
  Connecting, unknown_host, no_descriptor, unconnected, connected, connect_create_socket,
}
use rpc_library.Rpc.{RpcState}
use rpc_library.Rpc.Starting.{
  Environment, Hosts, read_port, connect_to_binder, keep_server, keep_binder, rpc_init,
}

-- A descriptor that is closed right after it was opened
close-opened : (fd : ℕ) (opened : Descriptors) → close fd (fd ∷ opened) ≡ opened
unfolding close erase
close-opened fd opened = ground arith

-- The first address that can be bound
abbrev pub first_bound : List Address → Option ℕ
first_bound [] = none
first_bound (bound fd ∷ rest) = some fd
first_bound (_ ∷ rest) = first_bound rest

abbrev pub pushed : Option ℕ → Descriptors → Descriptors
pushed none opened = opened
pushed (some fd) opened = fd ∷ opened

find_listener_lem :
    (addresses : List Address) (opened : Descriptors)
    → find_listener addresses opened
      ≡ (first_bound addresses, pushed (first_bound addresses) opened)
unfolding find_listener
find_listener_lem [] opened = refl
find_listener_lem (no_socket ∷ rest) opened = find_listener_lem rest opened
find_listener_lem (unbound fd ∷ rest) opened =
    rw (close-opened fd opened) (find_listener_lem rest opened)
find_listener_lem (bound fd ∷ rest) opened = refl

-- Whether the address of a listener can be told
abbrev pub is_named : ListenerInput → Bool
is_named input = is_some input.hostname && is_some input.port

-- The listener that the kernel lets the constructor of TcpServer have
abbrev pub bound_listener : ListenerInput → Option ℕ
bound_listener input = elim input.addresses [ none ↦ none | some addresses ↦ first_bound addresses ]

-- What the constructor leaves open: the listener of an object, and one that cannot listen
abbrev pub left_by_server : ListenerInput → Option ℕ
left_by_server input = if is_named input || not input.listens then bound_listener input else none

-- Whether there is an object
abbrev pub is_served : ListenerInput → Bool
is_served input = is_some (bound_listener input) && (input.listens && is_named input)

module _ (input : ListenerInput) where
  name_listener_lem :
      (listener : ℕ) (opened : Descriptors)
      → (is_some (name_listener input listener (listener ∷ opened)).0 ≡ is_named input)
        × ((name_listener input listener (listener ∷ opened)).1
            ≡ (if is_named input then listener ∷ opened else opened))
  unfolding name_listener
  name_listener_lem listener opened = elim (Option-cases input.hostname) [
    | inl e ↦ rw (name_listener, e) (refl, close-opened listener opened)
    | inr (hostname, e) ↦ elim (Option-cases input.port) [
      | inl f ↦ rw (name_listener, e, f) (refl, close-opened listener opened)
      | inr (port, f) ↦ rw (name_listener, e, f) (refl, refl)
    ]
  ]

  listen_on_lem :
      (found : Option ℕ) (opened : Descriptors)
      → (is_some (listen_on input (found, pushed found opened)).0
          ≡ (is_some found && (input.listens && is_named input)))
        × ((listen_on input (found, pushed found opened)).1
            ≡ pushed (if is_named input || not input.listens then found else none) opened)
  unfolding listen_on
  listen_on_lem none opened = (refl, ground arith)
  listen_on_lem (some listener) opened = elim (Bool-cases input.listens) [
    | inl listens ↦
        rw (listen_on, listens)
          (
            (name_listener_lem listener opened).0,
            (name_listener_lem listener opened).1 ∙ ground arith,
          )
    | inr cannot ↦ rw (listen_on, cannot) (refl, ground arith)
  ]

  pub new_tcp_server_lem :
      (opened : Descriptors)
      → (is_some (new_tcp_server input opened).0 ≡ is_served input)
        × ((new_tcp_server input opened).1 ≡ pushed (left_by_server input) opened)
  unfolding new_tcp_server
  new_tcp_server_lem opened = elim (Option-cases input.addresses) [
    | inl e ↦ rw (new_tcp_server, e) (refl, ground arith)
    | inr (addresses, e) ↦
        rw (new_tcp_server, e, find_listener_lem addresses opened)
          (listen_on_lem (first_bound addresses) opened)
  ]

-- What connect_to_binder asks the kernel, without a host where a variable is not set
abbrev pub attempt : Environment → Hosts → Outcome Connecting
attempt environment hosts = elim environment.binder_address [
  | none ↦ ok unknown_host
  | some host ↦ elim environment.binder_port [
    | none ↦ ok unknown_host
    | some port ↦ (read_port port >>= λ n. ok (hosts host n))
  ]
]

abbrev pub is_connected : Connecting → Bool
is_connected (connected sock) = true
is_connected _ = false

-- The descriptor of a socket that was created
abbrev pub left_by_client : Connecting → Option ℕ
left_by_client (connected sock) = some sock
left_by_client (unconnected sock) = some sock
left_by_client _ = none

connect_to_binder_lem :
    (environment : Environment) (hosts : Hosts) (opened : Descriptors)
    → connect_to_binder environment hosts opened
      ≡ (attempt environment hosts >>= λ c. ok (connect_create_socket c opened))
unfolding connect_to_binder connect_create_socket
connect_to_binder_lem environment hosts opened = elim (Option-cases environment.binder_address) [
  | inl e ↦ rw (connect_to_binder, e) refl
  | inr (host, e) ↦ elim (Option-cases environment.binder_port) [
    | inl f ↦ rw (connect_to_binder, e, f) refl
    | inr (port, f) ↦ elim (Outcome-cases (read_port port)) [
      | inl (n, g) ↦ rw (connect_to_binder, e, f, g) refl
      | inr (why, g) ↦ rw (connect_to_binder, e, f, g) refl
    ]
  ]
]

-- The status of a start and what it leaves open
pub record IsStart (c : Connecting) (input : ListenerInput) (opened : Descriptors)
    (result : ℕ × RpcState × Descriptors) : Type 0 where
  pub zero_iff : (result.0 ≡ 0) ↔ ((is_connected c && is_served input) ≡ true)
  pub binder : result.1.binder ≡ is_connected c
  pub descriptors :
      result.2
      ≡ pushed
          (if is_connected c then left_by_server input else none)
          (pushed (left_by_client c) opened)

keep_server-zero :
    (st : RpcState) (created : Option LocalServer) (opened : Descriptors)
    → ((keep_server st (created, opened)).0 ≡ 0) ↔ (is_some created ≡ true)
unfolding keep_server
keep_server-zero st none opened = (λ h. cc h, λ h. cc h)
keep_server-zero st (some s) opened = (λ h. refl, λ h. refl)

keep_binder-IsStart :
    (c : Connecting) (input : ListenerInput) (st : RpcState) (opened : Descriptors)
    → IsStart c input opened (keep_binder input st (connect_create_socket c opened))
unfolding keep_binder keep_server connect_create_socket
keep_binder-IsStart unknown_host input st opened = record {
  zero_iff = (λ h. cc h, λ h. cc h);
  binder = refl;
  descriptors = refl;
}
keep_binder-IsStart no_descriptor input st opened = record {
  zero_iff = (λ h. cc h, λ h. cc h);
  binder = refl;
  descriptors = refl;
}
keep_binder-IsStart (unconnected sock) input st opened = record {
  zero_iff = (λ h. cc h, λ h. cc h);
  binder = refl;
  descriptors = refl;
}
keep_binder-IsStart (connected sock) input st opened =
    let (made, left) = new_tcp_server_lem input (sock ∷ opened) in
    record {
      zero_iff = rw made at (
          keep_server-zero (record st { binder = true }) (new_tcp_server input (sock ∷ opened)).0
            (new_tcp_server input (sock ∷ opened)).1);
      binder = refl;
      descriptors = left;
    }

-- Unless BINDER_ADDRESS is set and BINDER_PORT is blank, connect_to_binder asks for a connection or a
-- variable is not set, and rpcInit returns. Behind it, the status is 0 exactly if the connection to the binder was made and an address could
-- be bound, listened on and named; there is a connection to the binder exactly if it was made; and the
-- descriptors that are open beside the earlier ones are that of a socket that was made for the binder,
-- connected or not, and that of a listener that was bound, unless it could not be named: a socket that
-- could not be connected and a listener that cannot listen stay open for good.
pub rpc_init_descriptors :
    (environment : Environment) (hosts : Hosts) (input : ListenerInput) (st : RpcState)
    (opened : Descriptors) (c : Connecting)
    → attempt environment hosts ≡ ok c
    → (result : ℕ × RpcState × Descriptors) × (rpc_init environment hosts input st opened
        ≡ ok result)
      × IsStart c input opened result
unfolding rpc_init
rpc_init_descriptors environment hosts input st opened c asked = (
  keep_binder input st (connect_create_socket c opened),
  rw (connect_to_binder_lem environment hosts opened, asked, ◌>>=◌) refl,
  keep_binder-IsStart c input st opened,
)
