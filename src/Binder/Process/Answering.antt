-- ===== src/Binder/Process/Answering.antt =====
-- When the body of the loop of binder.cc over the clients throws nothing.
use mathlib.Core.List.{map}
use rpc_library.Common.{ℕ, ◌≡◌, refl, false, List, [], ◌∷◌, none, Outcome, ok, ◌>>=◌}
use rpc_library.Signature.{signature_of_arg_types}
use rpc_library.Message
use rpc_library.Message.{MessageType, RawMessage, raw_message}
use rpc_library.Messages.Status.{deserialize_status}
use rpc_library.Messages.Register.{Register, deserialize_register}
use rpc_library.Messages.Locate.{LocateRequest, deserialize_locate_request}
use rpc_library.Binder.Server.{ServerData}
use rpc_library.Binder.Database.{BinderDatabase, server_of}
use rpc_library.Binder.Terminating.{Reply, is_overflow, any_overflow, handle_terminate-last_failure}
use rpc_library.Binder.Loop.{
  handle_register, handle_locate, dispatch, Received, message, closed, recv_error, Sent,
  BinderState, after_dispatch, serve_client,
}
use rpc_library.Binder.Process.{Traffic}
use rpc_library.TcpServer.{Socket}

-- A computation that has a value
abbrev pub Returns : {A : Type 0} → Outcome A → Type 0
Returns {A} o = (a : A) × (o ≡ ok a)

-- A message whose fields can be read, and whose argument types make a signature.
abbrev pub IsReadable : MessageType → RawMessage → Type 0
IsReadable Message.register raw =
    (m : Register) × (deserialize_register raw ≡ ok m)
    × Returns (signature_of_arg_types m.function_name m.arg_types)
IsReadable Message.locate_request raw =
    (m : LocateRequest) × (deserialize_locate_request raw ≡ ok m)
    × Returns (signature_of_arg_types m.function_name m.arg_types)
IsReadable Message.terminate raw = Returns (deserialize_status raw)
IsReadable _ raw = Unit {0}

-- No reply to a Terminate reads a length below -1.
abbrev pub NoOverflow : (ServerData → Reply) → Type 0
NoOverflow replies = (s : ServerData) → is_overflow (replies s) ≡ false

none_overflows :
    (replies : ServerData → Reply)
    → NoOverflow replies
    → (ss : List ServerData) → any_overflow replies ss ≡ false
none_overflows replies fine [] = refl
none_overflows replies fine (s ∷ ss) = rw (fine s) (none_overflows replies fine ss)

dispatch-Returns :
    (type : MessageType) (replies : ServerData → Reply) (client : ℕ) (raw : RawMessage)
    (db : BinderDatabase)
    → NoOverflow replies
    → IsReadable type raw
    → Returns (dispatch type replies client raw db)
unfolding dispatch handle_register handle_locate
dispatch-Returns Message.register replies client raw db fine (m, read, (sig, signed)) =
    rw (read, ◌>>=◌, signed) (_, refl)
dispatch-Returns Message.locate_request replies client raw db fine (m, read, (sig, signed)) =
    rw (read, ◌>>=◌, signed) (_, refl)
dispatch-Returns Message.terminate replies client raw db fine (m, read) =
    rw
      (
        read,
        ◌>>=◌,
        handle_terminate-last_failure replies db,
        none_overflows replies fine (map server_of db.server_to_timestamp),
      )
      (_, refl)
dispatch-Returns _ replies client raw db fine r = (none, refl)

abbrev pub IsReadableMessage : Received → Type 0
IsReadableMessage (message (c ∷ cs)) =
    IsReadable (raw_message (c ∷ cs)).message_type (raw_message (c ∷ cs))
IsReadableMessage _ = Unit {0}

-- Every `recv` returns, and every message that is not empty is readable.
abbrev pub AreReadable : (Socket → Traffic) → Type 0
AreReadable traffic =
    (s : Socket)
    → (received : Received) × ((traffic s).0 ≡ ok received) × IsReadableMessage received

pub serve_client-Returns :
    (replies : ServerData → Reply) (client : ℕ) (received : Received) (outcome : Sent)
    (st : BinderState)
    → NoOverflow replies
    → IsReadableMessage received
    → Returns (serve_client replies client received outcome st)
unfolding serve_client
serve_client-Returns replies client closed outcome st fine r = (_, refl)
serve_client-Returns replies client recv_error outcome st fine r = (_, refl)
serve_client-Returns replies client (message []) outcome st fine r = (_, refl)
serve_client-Returns replies client (message (c ∷ cs)) outcome st fine r =
    let raw = raw_message (c ∷ cs) in
    let (o, done) = dispatch-Returns raw.message_type replies client raw st.database fine r in
    (after_dispatch client outcome st o, rw done refl)
