-- ===== src/Examples/Starting.antt =====
-- A server that starts, one whose listener cannot listen, and the reading of a port.
use rpc_library.Common.{ℕ, true, ◌≡◌, refl, false, [], ◌∷◌, none, some, ok, fault, undefined}
use rpc_library.Message.{int_of_code, server_socket_creation_error}
use rpc_library.TcpServer.Creating.{
  Descriptors, close, unbound, bound, ListenerInput, find_listener, listen_on, name_listener,
  new_tcp_server,
}
use rpc_library.Examples.Data.{host_a}
use rpc_library.Binder.Keyed.{erase}
use rpc_library.TcpClient.{connected, connect_create_socket}
use rpc_library.Rpc.{RpcState}
use rpc_library.Rpc.Starting.{
  Environment, Hosts, skip_space, read_digits, read_port, connect_to_binder, keep_server,
  keep_binder, rpc_init, rpc_execute,
}
use rpc_library.Rpc.Executing.{executed, init_then_execute}
use rpc_library.Rpc.Descriptors.{IsStart, rpc_init_descriptors}

-- " 5000x", "-1"
port_read : read_port (32 ∷ 53 ∷ 48 ∷ 48 ∷ 48 ∷ 120 ∷ []) ≡ ok 5000
unfolding read_port skip_space read_digits
port_read = refl

negative_port_read : read_port (45 ∷ 49 ∷ []) ≡ ok 4294967295
unfolding read_port skip_space read_digits
negative_port_read = refl

blank_port : read_port (32 ∷ []) ≡ fault undefined
unfolding read_port skip_space
blank_port = refl

abbrev environment : Environment
environment = record { binder_address = some host_a; binder_port = some (53 ∷ 48 ∷ []) }

abbrev hosts : Hosts
hosts host port = connected port

abbrev cannot_listen : ListenerInput
cannot_listen = record {
  addresses = some (unbound 4 ∷ bound 4 ∷ []);
  listens = false;
  hostname = some host_a;
  port = some 6000;
}

abbrev before : RpcState
before = record { binder = false; local_server = none; database = [] }

abbrev not_listening : ℕ × RpcState × Descriptors
not_listening = (
  int_of_code server_socket_creation_error,
  record { binder = true; local_server = none; database = [] },
  4 ∷ 50 ∷ [],
)

listener_stays_open : rpc_init environment hosts cannot_listen before [] ≡ ok not_listening
unfolding rpc_init connect_to_binder connect_create_socket keep_binder keep_server new_tcp_server
    listen_on find_listener name_listener close erase read_port skip_space read_digits
listener_stays_open = refl

rpc_init_descriptors_example :
    (result : ℕ × RpcState × Descriptors) × (rpc_init environment hosts cannot_listen before []
      ≡ ok result)
    × IsStart (connected 50) cannot_listen [] result
unfolding read_port skip_space read_digits
rpc_init_descriptors_example =
    rpc_init_descriptors environment hosts cannot_listen before [] (connected 50) refl

init_then_execute_example : rpc_execute false 0 not_listening.1 ≡ executed false 0 not_listening
init_then_execute_example =
    init_then_execute false 0 [] environment hosts cannot_listen [] not_listening
      listener_stays_open
