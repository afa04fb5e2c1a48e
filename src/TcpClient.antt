-- ===== src/TcpClient.antt =====
-- tcp_client.h and tcp_client.cc: the connection of a client to a host and port. What the kernel answers
-- is a parameter.
use rpc_library.Common.{ℕ, ◌∷◌, Option, none, some}
use rpc_library.TcpServer.Creating.{Descriptors}

-- What comes of getaddrinfo, socket and connect, the first that fails if one does
pub data Connecting : Type 0 where
  unknown_host : Connecting
  no_descriptor : Connecting
  unconnected : ℕ → Connecting
  connected : ℕ → Connecting

-- connect_create_socket; `none` stands for ConnectionError.
unfoldable pub connect_create_socket : Connecting → Descriptors → Option ℕ × Descriptors
connect_create_socket unknown_host opened = (none, opened)
connect_create_socket no_descriptor opened = (none, opened)
connect_create_socket (unconnected sock) opened = (none, sock ∷ opened)
connect_create_socket (connected sock) opened = (some sock, sock ∷ opened)
