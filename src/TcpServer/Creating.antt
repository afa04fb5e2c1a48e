-- ===== src/TcpServer/Creating.antt =====
-- The constructors of TcpServer (tcp_server.cc) and of TcpClient (tcp_client.cc), and the file descriptors
-- that they leave open. What the kernel answers to each call is a parameter.
use rpc_library.Common.{ℕ, ◌==◌, Bool, true, false, List, [], ◌∷◌, Option, none, some}
use rpc_library.Binder.Keyed.{erase}
use rpc_library.TcpServer.{TcpServer, new_server}

-- The descriptors that are open, newest first; `close`
abbrev pub Descriptors : Type 0
Descriptors = List ℕ

unfoldable pub close : ℕ → Descriptors → Descriptors
close fd opened = erase (λ x. x == fd) opened

-- What comes of an address that getaddrinfo found: no socket, a socket that cannot be bound, or one that
-- is bound
pub data Address : Type 0 where
  no_socket : Address
  unbound : ℕ → Address
  bound : ℕ → Address

-- The kernel's answers to the constructor, in the order of the calls: getaddrinfo, socket and bind for
-- each address, whether `listen` succeeds, gethostname, and the port that getsockname reports
pub record ListenerInput : Type 0 where
  pub addresses : Option (List Address)
  pub listens : Bool
  pub hostname : Option (List ℕ)
  pub port : Option ℕ

-- The object behind the constructor
pub record LocalServer : Type 0 where
  pub tcp_server : TcpServer
  pub hostname : List ℕ
  pub port : ℕ

-- The loop over the addresses
unfoldable pub find_listener : List Address → Descriptors → Option ℕ × Descriptors
find_listener [] opened = (none, opened)
find_listener (no_socket ∷ rest) opened = find_listener rest opened
find_listener (unbound fd ∷ rest) opened = find_listener rest (close fd (fd ∷ opened))
find_listener (bound fd ∷ rest) opened = (some fd, fd ∷ opened)

-- From the naming of the host on
unfoldable pub name_listener : ListenerInput → ℕ → Descriptors → Option LocalServer × Descriptors
name_listener input listener opened = elim input.hostname [
  | none ↦ (none, close listener opened)
  | some hostname ↦ elim input.port [
    | none ↦ (none, close listener opened)
    | some port ↦ (
      some (record { tcp_server = new_server listener; hostname = hostname; port = port }),
      opened,
    )
  ]
]

-- From the test for a listener on
unfoldable pub listen_on : ListenerInput → Option ℕ × Descriptors → Option LocalServer × Descriptors
listen_on input (none, opened) = (none, opened)
listen_on input (some listener, opened) = elim input.listens [
  | false ↦ (none, opened)
  | true ↦ name_listener input listener opened
]

-- TcpServer::TcpServer; `none` stands for ServerCreation.
unfoldable pub new_tcp_server : ListenerInput → Descriptors → Option LocalServer × Descriptors
new_tcp_server input opened = elim input.addresses [
  | none ↦ (none, opened)
  | some addresses ↦ listen_on input (find_listener addresses opened)
]

-- TcpServer::~TcpServer, behind the destruction of its connections
unfoldable pub destroy_server : LocalServer → Descriptors → Descriptors
destroy_server server opened = close server.tcp_server.listener opened
