-- ===== src/Rpc.antt =====
-- rpc.h and rpc.cc: the calls of the library's users. What the connections do is a parameter of each
-- call: whether the binder can be reached, and the answer to each message, or `none` where send or recv
-- throws an Error.
pub mod CopyingBack
pub mod Calling
pub mod Declining
pub mod Peers
pub mod Failing
pub mod Registering
pub mod Starting
pub mod Descriptors
pub mod Executing
use rpc_library.Common.{
  ℕ, Bool, true, false, ◌||◌, not, List, [], ◌∷◌, ◌++◌, take, drop, length, Option, none, some,
  Outcome, ok, fault, undefined, ◌>>=◌, ltb, if◌then◌else◌,
}
use rpc_library.Arg.{number_of_args, is_only_output, is_input_output, size_in_bytes}
use rpc_library.Signature.{signature_of_arg_types}
use rpc_library.Message
use rpc_library.Message.{
  MessageType, StatusCode, RawMessage, raw_message, int_of_code, binder_connection_error,
  server_socket_creation_error, server_connection_error, unexpected_message, locate_failure_code,
}
use rpc_library.Messages.Status.{serialize_status, deserialize_status}
use rpc_library.Messages.Locate.{
  new_locate_request, serialize_locate_request, deserialize_locate_success,
}
use rpc_library.Messages.Register.{new_register, serialize_register}
use rpc_library.Messages.Execute.{Execute, new_execute, serialize_execute, deserialize_execute}
use rpc_library.Libserver.{Skeleton, ServerDatabase, set_skeleton}

-- A message that is sent, and what is received.
abbrev pub Exchange : Type 0
Exchange = List ℕ → Option (List ℕ)

-- The connections that a host and port lead to: `none` where the constructor of TcpClient throws.
abbrev pub Network : Type 0
Network = List ℕ → ℕ → Option Exchange

-- The globals: whether there is a connection to the binder, the address of the local server's socket
-- if there is one, and the skeletons.
pub record RpcState : Type 0 where
  pub binder : Bool
  pub local_server : Option (List ℕ × ℕ)
  pub database : ServerDatabase

-- rpcRegister, the switch on the binder's answer
unfoldable pub register_answer :
    MessageType → RawMessage → List ℕ → List ℕ → Skeleton → RpcState → Outcome (ℕ × RpcState)
register_answer Message.register_success raw name arg_types f st = do
  signature ← signature_of_arg_types name arg_types
  ok (0, record st { database = set_skeleton signature f st.database })
register_answer Message.register_failure raw name arg_types f st = do
  status ← deserialize_status raw
  ok (status, st)
register_answer _ raw name arg_types f st = ok (int_of_code unexpected_message, st)

-- rpcRegister
unfoldable pub rpc_register :
    List ℕ → List ℕ → Skeleton → Exchange → RpcState → Outcome (ℕ × RpcState)
rpc_register name arg_types f exchange st = elim st.local_server [
  | none ↦ ok (int_of_code server_socket_creation_error, st)
  | some (host, port) ↦ elim st.binder [
    | false ↦ ok (int_of_code binder_connection_error, st)
    | true ↦ do
      message ← new_register host port name arg_types
      binder_message ← serialize_register message
      elim (exchange binder_message.buffer) [
        | none ↦ ok (int_of_code binder_connection_error, st)
        | some response ↦
            let raw = raw_message response in
            register_answer raw.message_type raw name arg_types f st
      ]
  ]
]

-- memcpy(args_dest[i], args_src[i], nbytes)
unfoldable pub copy_block : ℕ → List ℕ → List ℕ → Outcome (List ℕ)
copy_block n src dest =
    if ltb (length src) n
    then fault undefined
    else if ltb (length dest) n
    then fault undefined
    else ok (take n src ++ drop n dest)

-- The body of the loop of copy_output_arguments_back
unfoldable pub copy_output_back : ℕ → List ℕ → List ℕ → Outcome (List ℕ)
copy_output_back t src dest =
    if not (is_only_output t || is_input_output t)
    then ok dest
    else copy_block (size_in_bytes t) src dest

-- The loop of copy_output_arguments_back: what args_dest leads to behind it. The pointer of an argument
-- that is skipped is not read, so it need not be there.
unfoldable pub copy_outputs_back : List ℕ → List (List ℕ) → List (List ℕ) → Outcome (List (List ℕ))
copy_outputs_back [] src dest = ok dest
copy_outputs_back (t ∷ ts) (s ∷ ss) (d ∷ ds) = do
  copied ← copy_output_back t s d
  rest ← copy_outputs_back ts ss ds
  ok (copied ∷ rest)
copy_outputs_back (t ∷ ts) (s ∷ ss) [] =
    let rest = copy_outputs_back ts ss [] in
    if is_only_output t || is_input_output t then fault undefined else rest
copy_outputs_back (t ∷ ts) [] dest = fault undefined

unfoldable pub copy_output_arguments_back : Execute → List (List ℕ) → Outcome (List (List ℕ))
copy_output_arguments_back result args_dest = do
  num_args ← number_of_args result.arg_types
  copy_outputs_back (take num_args result.arg_types) result.args args_dest

-- rpcCall: its status and what the arguments hold behind it.
abbrev pub Returned : Type 0
Returned = ℕ × List (List ℕ)

-- The switch on the server's answer
unfoldable pub execute_answer : MessageType → RawMessage → List (List ℕ) → Outcome Returned
execute_answer Message.execute raw args = do
  result ← deserialize_execute raw
  outputs ← copy_output_arguments_back result args
  ok (0, outputs)
execute_answer Message.execute_failure raw args = do
  status ← deserialize_status raw
  ok (status, args)
execute_answer _ raw args = ok (int_of_code unexpected_message, args)

-- From the connection to the server on
unfoldable pub call_server :
    Network → List ℕ → ℕ → List ℕ → List ℕ → List (List ℕ) → Outcome Returned
call_server network host port name arg_types args = elim (network host port) [
  | none ↦ ok (int_of_code server_connection_error, args)
  | some server ↦ do
    message ← new_execute name arg_types args
    raw_request ← serialize_execute message
    elim (server raw_request.buffer) [
      | none ↦ ok (int_of_code server_connection_error, args)
      | some response ↦ let raw = raw_message response in execute_answer raw.message_type raw args
    ]
]

-- The switch on the binder's answer, and what follows it
unfoldable pub locate_answer :
    MessageType → RawMessage → Network → List ℕ → List ℕ → List (List ℕ) → Outcome Returned
locate_answer Message.locate_failure raw network name arg_types args =
    ok (int_of_code locate_failure_code, args)
locate_answer Message.locate_success raw network name arg_types args = do
  place ← deserialize_locate_success raw
  call_server network place.server_hostname place.server_port name arg_types args
locate_answer _ raw network name arg_types args = ok (int_of_code unexpected_message, args)

-- From the inquiry on
unfoldable pub locate_and_call :
    Exchange → Network → List ℕ → List ℕ → List (List ℕ) → Outcome Returned
locate_and_call binder network name arg_types args = do
  locate ← new_locate_request name arg_types
  raw_request ← serialize_locate_request locate
  elim (binder raw_request.buffer) [
    | none ↦ ok (int_of_code binder_connection_error, args)
    | some response ↦
        let raw = raw_message response in
        locate_answer raw.message_type raw network name arg_types args
  ]

-- `if (!binder) binder = connect_to_binder();`, where `connects` says what that comes to
abbrev pub with_binder : Bool → RpcState → RpcState
with_binder connects st = record st { binder = st.binder || connects }

-- rpcCall
unfoldable pub rpc_call :
    List ℕ
    → List ℕ
    → List (List ℕ)
    → Bool
    → Exchange
    → Network
    → RpcState
    → Outcome (Returned × RpcState)
rpc_call name arg_types args connects exchange network st =
    let st' = with_binder connects st in
    elim st'.binder [
      | false ↦ ok ((int_of_code binder_connection_error, args), st')
      | true ↦ do
        returned ← locate_and_call exchange network name arg_types args
        ok (returned, st')
    ]

-- rpcTerminate, the switch on the binder's answer
unfoldable pub terminate_answer : MessageType → RawMessage → Outcome ℕ
terminate_answer Message.terminate_success raw = ok 0
terminate_answer Message.terminate_failure raw = deserialize_status raw
terminate_answer _ raw = ok (int_of_code unexpected_message)

-- rpcTerminate
unfoldable pub rpc_terminate : Bool → Exchange → RpcState → Outcome (ℕ × RpcState)
rpc_terminate connects exchange st =
    let st' = with_binder connects st in
    elim st'.binder [
      | false ↦ ok (int_of_code binder_connection_error, st')
      | true ↦ elim (exchange (serialize_status Message.terminate 0).buffer) [
        | none ↦ ok (int_of_code binder_connection_error, st')
        | some response ↦ do
          let raw = raw_message response
          status ← terminate_answer raw.message_type raw
          ok (status, st')
      ]
    ]
