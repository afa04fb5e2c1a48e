-- ===== src/Rpc/Starting.antt =====
-- The start of a client or a server in rpc.cc: connect_to_binder, rpcInit and rpcExecute.
use rpc_library.Common.{
  ◌>>=◌, ℕ, ◌+◌, ◌-◌, ◌*◌, ◌%◌, ◌^◌, ◌==◌, ◌&&◌, ◌||◌, leb, ltb, Bool, true, false, List, [], ◌∷◌,
  Option, none, some, if◌then◌else◌, Outcome, ok, fault, undefined,
}
use rpc_library.Message.{int_of_code, binder_connection_error, server_socket_creation_error}
use rpc_library.TcpServer.Creating.{Descriptors, ListenerInput, LocalServer, new_tcp_server}
use rpc_library.TcpClient.{Connecting, connect_create_socket}
use rpc_library.Rpc.{RpcState, with_binder}

-- isspace in the "C" locale, and the value of a digit
abbrev pub is_space : ℕ → Bool
is_space c = (c == 32) || (leb 9 c && leb c 13)

abbrev pub is_digit : ℕ → Bool
is_digit c = leb 48 c && leb c 57

unfoldable pub skip_space : List ℕ → List ℕ
skip_space [] = []
skip_space (c ∷ cs) = let rest = skip_space cs in if is_space c then rest else c ∷ cs

-- The value of the digits in front, on top of those that were read; `none` without a digit
unfoldable pub read_digits : Option ℕ → List ℕ → Option ℕ
read_digits value [] = value
read_digits value (c ∷ cs) =
    let before : ℕ = elim value [ none ↦ 0 | some n ↦ n ] in
    let rest = read_digits (some (10 * before + (c - 48))) cs in if is_digit c then rest else value

-- What `ss >> port` leaves in an int, as its 32 bits: 0 without a number, and the nearest int for one
-- that does not fit. Of a text that is blank nothing is read, and the int has no value.
unfoldable pub read_port : List ℕ → Outcome ℕ
read_port text = go (skip_space text)
  where
    up : Option ℕ → ℕ
    up none = 0
    up (some n) = if ltb n (2 ^ 31) then n else 2 ^ 31 - 1

    down : Option ℕ → ℕ
    down none = 0
    down (some n) = if leb n (2 ^ 31) then (2 ^ 32 - n) % 2 ^ 32 else 2 ^ 31

    go : List ℕ → Outcome ℕ
    go [] = fault undefined
    go (c ∷ cs) =
        if c == 45
        then ok (down (read_digits none cs))
        else if c == 43
        then ok (up (read_digits none cs))
        else ok (up (read_digits none (c ∷ cs)))

-- The environment: BINDER_ADDRESS and BINDER_PORT
pub record Environment : Type 0 where
  pub binder_address : Option (List ℕ)
  pub binder_port : Option (List ℕ)

-- What becomes of the connection to a host and port
abbrev pub Hosts : Type 0
Hosts = List ℕ → ℕ → Connecting

-- connect_to_binder, with the descriptor of the connection for the TcpClient; `none` for a null pointer
unfoldable pub connect_to_binder :
    Environment → Hosts → Descriptors → Outcome (Option ℕ × Descriptors)
connect_to_binder environment hosts opened = elim environment.binder_address [
  | none ↦ ok (none, opened)
  | some host ↦ elim environment.binder_port [
    | none ↦ ok (none, opened)
    | some port ↦ (read_port port >>= λ n. ok (connect_create_socket (hosts host n) opened))
  ]
]

abbrev address_of : Option LocalServer → Option (List ℕ × ℕ)
address_of none = none
address_of (some s) = some (s.hostname, s.port)

abbrev server_status : Option LocalServer → ℕ
server_status none = int_of_code server_socket_creation_error
server_status (some s) = 0

-- rpcInit behind the constructor of the local server
unfoldable pub keep_server :
    RpcState → Option LocalServer × Descriptors → ℕ × RpcState × Descriptors
keep_server st (created, opened) =
    (server_status created, record st { local_server = address_of created }, opened)

-- rpcInit behind the connection to the binder
unfoldable pub keep_binder :
    ListenerInput → RpcState → Option ℕ × Descriptors → ℕ × RpcState × Descriptors
keep_binder input st (none, opened) =
    (int_of_code binder_connection_error, record st { binder = false }, opened)
keep_binder input st (some fd, opened) =
    keep_server (record st { binder = true }) (new_tcp_server input opened)

-- rpcInit
unfoldable pub rpc_init :
    Environment
    → Hosts
    → ListenerInput
    → RpcState
    → Descriptors
    → Outcome (ℕ × RpcState × Descriptors)
rpc_init environment hosts input st opened = do
  connection ← connect_to_binder environment hosts opened
  ok (keep_binder input st connection)

-- rpcExecute, where `connects` says what connect_to_binder comes to and `served` is what `serve` returns.
-- A null pointer to the server is read through.
unfoldable pub rpc_execute : Bool → ℕ → RpcState → Outcome (ℕ × RpcState)
rpc_execute connects served st =
    let st' = with_binder connects st in
    elim st'.binder [
      | false ↦ ok (int_of_code binder_connection_error, st')
      | true ↦ elim st'.local_server [ none ↦ fault undefined | some address ↦ ok (served, st') ]
    ]
