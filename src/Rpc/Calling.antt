-- ===== src/Rpc/Calling.antt =====
-- A call through the binder (binder.cc) to a server (libserver.cc) and back: `rpcCall` of rpc.cc with
-- the other two programs at the ends of its connections.
use rpc_library.Common.{
  ℕ, ◌+◌, ◌*◌, ◌^◌, ◌<◌, ◌≡◌, refl, ◌∙◌, ap, Bool, true, List, ◌∷◌, ◌++◌, length, none, some, ok,
  ◌>>=◌, arith,
}
use rpc_library.Common.Ints.{IsInt}
use rpc_library.Arg.{AreArgTypes, terminated}
use rpc_library.Signature.{Signature, signature_of_arg_types}
use rpc_library.Message
use rpc_library.Message.{raw_message, byte_of_type, RawMessage, int_of_code, unexpected_message}
use rpc_library.Wire.{encode_string}
use rpc_library.Messages.Fields.{type_fields}
use rpc_library.Messages.Status.{serialize_status, deserialize_status}
use rpc_library.Messages.Locate.{
  LocateSuccess, deserialize_locate_request, serialize_locate_success, deserialize_locate_success,
}
use rpc_library.Messages.LocateRoundTrip.{
  request, new_locate_request-request, serialize_locate_request-request, locate_request_round_trip,
  locate_success_round_trip,
}
use rpc_library.Messages.Execute.{deserialize_execute}
use rpc_library.Messages.ExecuteRoundTrip.{
  BlocksFit, joined, call, new_execute-call, serialize_execute-call,
}
use rpc_library.Binder.Server.{ServerData}
use rpc_library.Binder.Database.{BinderDatabase, locate_server}
use rpc_library.Binder.Terminating.{Reply}
use rpc_library.Binder.Loop.{dispatch, handle_locate, locate_response}
use rpc_library.Libserver.{Skeleton, ServerDatabase, skeleton_of, answer_execute}
use rpc_library.Libserver.Serving.{
  execute_bytes, read_back, answer_execute_runs, answer_execute_unknown,
}
use rpc_library.Rpc.{
  Network, RpcState, with_binder, rpc_call, locate_and_call, locate_answer, call_server,
  execute_answer,
}
use rpc_library.Rpc.Peers.{response_of, asks_binder, asks_server, raw_bytes}
use rpc_library.Rpc.CopyingBack.{merged, copy_output_arguments_back-merged}

abbrev request_raw : List ℕ → List ℕ → RawMessage
request_raw name args =
    raw_message (byte_of_type Message.locate_request ∷ encode_string name ++ type_fields args)

module _ (name args : List ℕ) (valid : AreArgTypes args) (sig : Signature)
    (signed : signature_of_arg_types name (terminated args) ≡ ok sig) where
  -- The binder's answer to the bytes of an inquiry.
  module _ (replies : ServerData → Reply) (client : ℕ) (db : BinderDatabase)
      (fits : length name + 4 * length args + 9 < 2 ^ 31) where
    request_read : deserialize_locate_request (request_raw name args) ≡ ok (request name args)
    request_read =
        rw (serialize_locate_request-request name args valid) at
          (locate_request_round_trip name args valid fits)

    dispatched :
        (raw : RawMessage)
        → deserialize_locate_request raw ≡ ok (request name args)
        → response_of (dispatch Message.locate_request replies client raw db)
          ≡ some (locate_response (locate_server sig db).0).buffer
    unfolding dispatch handle_locate
    dispatched raw h = rw (h, ◌>>=◌, signed) refl

    asked :
        asks_binder replies client db (request_raw name args).buffer
        ≡ some (locate_response (locate_server sig db).0).buffer
    unfolding asks_binder raw_message byte_of_type
    asked = dispatched (request_raw name args) request_read

  -- The server's answer to the bytes of a call, and what the client makes of it.
  module _ (blocks : List (List ℕ)) (filled : BlocksFit args blocks)
      (fits : length name + 4 * length args + length (joined blocks) + 9 < 2 ^ 31)
      (database : ServerDatabase) where
    answered :
        (bytes : List ℕ)
        → answer_execute (raw_message (execute_bytes name args blocks)) database ≡ ok bytes
        → (network : Network) (host : List ℕ) (port : ℕ)
        → network host port ≡ some (asks_server database)
        → call_server network host port name (terminated args) blocks
          ≡ execute_answer (raw_message bytes).message_type (raw_message bytes) blocks
    unfolding call_server asks_server
    answered bytes h network host port there =
        rw
          (
            call_server,
            there,
            new_execute-call name args blocks valid filled,
            ◌>>=◌,
            serialize_execute-call name args blocks valid filled,
            ◌>>=◌,
            raw_bytes _,
            h,
          )
          refl

    after_read :
        (outs : List (List ℕ)) (raw : RawMessage)
        → BlocksFit args outs
        → deserialize_execute raw ≡ ok (call name args outs)
        → execute_answer Message.execute raw blocks ≡ ok (0, merged args outs blocks)
    unfolding execute_answer
    after_read outs raw kept h =
        rw (h, ◌>>=◌, copy_output_arguments_back-merged name args outs blocks valid kept filled)
          refl

    ran :
        (outs : List (List ℕ))
        → BlocksFit args outs
        → length name + 4 * length args + length (joined outs) + 9 < 2 ^ 31
        → execute_answer
            (raw_message (execute_bytes name args outs)).message_type
            (raw_message (execute_bytes name args outs))
            blocks
          ≡ ok (0, merged args outs blocks)
    unfolding raw_message byte_of_type
    ran outs kept fits' = after_read outs _ kept (read_back name args outs valid kept fits')

    located_raw :
        (bytes : List ℕ)
        → answer_execute (raw_message (execute_bytes name args blocks)) database ≡ ok bytes
        → (network : Network) (s : LocateSuccess)
        → network s.server_hostname s.server_port ≡ some (asks_server database)
        → (raw : RawMessage) → deserialize_locate_success raw ≡ ok s
        → locate_answer Message.locate_success raw network name (terminated args) blocks
          ≡ execute_answer (raw_message bytes).message_type (raw_message bytes) blocks
    unfolding locate_answer
    located_raw bytes h network s there raw read =
        rw (read, ◌>>=◌) (answered bytes h network s.server_hostname s.server_port there)

    located :
        (bytes : List ℕ)
        → answer_execute (raw_message (execute_bytes name args blocks)) database ≡ ok bytes
        → (network : Network) (s : ServerData) → IsInt s.server_port
        → length s.server_hostname + 9 < 2 ^ 31
        → network s.server_hostname s.server_port ≡ some (asks_server database)
        → let raw = raw_message (locate_response (some s)).buffer in
          locate_answer raw.message_type raw network name (terminated args) blocks
          ≡ execute_answer (raw_message bytes).message_type (raw_message bytes) blocks
    unfolding raw_message serialize_locate_success byte_of_type
    located bytes h network s port host there =
        located_raw bytes h network _ there _ (locate_success_round_trip _ port host)

    -- The call behind an inquiry that the binder answers with `s`, where a server with `database`
    -- listens.
    module _ (replies : ServerData → Reply) (client : ℕ) (db : BinderDatabase) (network : Network)
        (s : ServerData) (port : IsInt s.server_port) (host : length s.server_hostname + 9 < 2 ^ 31)
        (named : (locate_server sig db).0 ≡ some s)
        (there : network s.server_hostname s.server_port ≡ some (asks_server database))
        (bytes : List ℕ)
        (h : answer_execute (raw_message (execute_bytes name args blocks)) database
          ≡ ok bytes) where
      behind_locate :
          locate_and_call (asks_binder replies client db) network name (terminated args) blocks
          ≡ execute_answer (raw_message bytes).message_type (raw_message bytes) blocks
      unfolding locate_and_call
      behind_locate =
          rw
            (
              new_locate_request-request name args valid,
              ◌>>=◌,
              serialize_locate_request-request name args valid,
              ◌>>=◌,
              asked replies client db (omega arith),
              named,
            )
            (located bytes h network s port host there)

      module _ (connects : Bool) (st : RpcState)
          (connected : (with_binder connects st).binder ≡ true) where
        pub called :
            rpc_call name
              (terminated args)
              blocks
              connects
              (asks_binder replies client db)
              network
              st
            ≡ (execute_answer (raw_message bytes).message_type (raw_message bytes) blocks
                >>= λ returned. ok (returned, with_binder connects st))
        unfolding rpc_call
        called =
            rw (rpc_call, connected, behind_locate)
              (ap
                (λ (b : Bool).
                  execute_answer (raw_message bytes).message_type (raw_message bytes) blocks
                  >>= λ returned. ok (returned, record st { binder = b }))
                connected)

module _ (name args : List ℕ) (blocks : List (List ℕ)) (valid : AreArgTypes args) (sig : Signature)
    (signed : signature_of_arg_types name (terminated args) ≡ ok sig)
    (filled : BlocksFit args blocks)
    (fits : length name + 4 * length args + length (joined blocks) + 9 < 2 ^ 31)
    (db : BinderDatabase) (s : ServerData) (named : (locate_server sig db).0 ≡ some s)
    (port : IsInt s.server_port) (host : length s.server_hostname + 9 < 2 ^ 31)
    (database : ServerDatabase) (network : Network)
    (there : network s.server_hostname s.server_port ≡ some (asks_server database))
    (replies : ServerData → Reply) (client : ℕ) (connects : Bool) (st : RpcState)
    (connected : (with_binder connects st).binder ≡ true) where
  -- A call of a well-formed procedure that the binder knows a server for, where that server has a
  -- skeleton for it which returns 0, returns 0: each output argument holds what the skeleton left in
  -- it, and each argument that is only input is as it was. The binder can be reached, the arguments
  -- before and behind the skeleton have the announced sizes, and the messages are shorter than 2 ^ 31
  -- bytes.
  pub call_reaches_skeleton :
      (f : Skeleton) (outs : List (List ℕ))
      → skeleton_of sig database ≡ some f
      → f (terminated args) blocks ≡ (0, outs)
      → BlocksFit args outs
      → length name + 4 * length args + length (joined outs) + 9 < 2 ^ 31
      → rpc_call name (terminated args) blocks connects (asks_binder replies client db) network st
        ≡ ok ((0, merged args outs blocks), with_binder connects st)
  call_reaches_skeleton f outs found returned kept fits' =
      called name args valid sig signed blocks filled fits database replies client db network s port
        host named there _
        (answer_execute_runs name args blocks valid filled fits sig database signed f outs found
          returned kept)
        connects st connected
      ∙ rw (ran name args valid sig signed blocks filled fits database outs kept fits') refl

  -- Where the server that the binder names has no skeleton for the procedure, the call returns 21 and
  -- leaves the arguments as they were: the code UNEXPECTED_MESSAGE, -1003, arrives as a warning.
  pub call_unknown_is_warning :
      skeleton_of sig database ≡ none
      → rpc_call name (terminated args) blocks connects (asks_binder replies client db) network st
        ≡ ok ((21, blocks), with_binder connects st)
  unfolding serialize_status raw_message byte_of_type execute_answer deserialize_status
  call_unknown_is_warning missing =
      called name args valid sig signed blocks filled fits database replies client db network s port
        host named there _
        (answer_execute_unknown name args blocks valid filled fits sig database signed missing)
        connects st connected
