-- ===== src/Binder/Loop/Validity.antt =====
-- The invariant of the database in the main loop of binder.cc.
use rpc_library.Common.{
  ℕ, ◌+◌, ◌^◌, ◌<◌, ◌≡◌, refl, List, [], ◌∷◌, Option, none, some, Outcome, ok, fault, ◌>>=◌,
  Outcome-cases, inl, inr,
}
use rpc_library.Signature.{signature_of_arg_types}
use rpc_library.Message
use rpc_library.Message.{MessageType, RawMessage, raw_message}
use rpc_library.Messages.Status.{deserialize_status}
use rpc_library.Messages.Register.{Register, deserialize_register}
use rpc_library.Messages.Locate.{LocateRequest, deserialize_locate_request}
use rpc_library.Binder.Server.{ServerData}
use rpc_library.Binder.Database.{BinderDatabase}
use rpc_library.Binder.Terminating.{Reply, handle_terminate}
use rpc_library.Binder.Validity.Invariant.{IsValid, IsUnclaimed}
use rpc_library.Binder.Validity.Methods.{
  register_server-IsValid, locate_server-IsValid, remove_if_server-IsValid,
}
use rpc_library.Binder.Loop.{
  handle_register, handle_locate, Handled, handled, dispatch, Received, message, closed, recv_error,
  Sent, delivered, send_closed, send_error, BinderState, respond, after_dispatch, serve_client,
}

-- The server that a Register names, on the connection that it came over.
abbrev pub sender : Register → ℕ → ServerData
sender m client = record {
  server_hostname = m.server_hostname;
  server_port = m.server_port;
  server_socket = client;
}

abbrev state_of : BinderDatabase → Outcome (RawMessage × BinderDatabase) → BinderDatabase
state_of db (ok (m, db')) = db'
state_of db (fault e) = db

abbrev handled_state : BinderDatabase → Outcome (Option Handled) → BinderDatabase
handled_state db (ok (some h)) = h.database
handled_state db (ok none) = db
handled_state db (fault e) = db

module _ (client : ℕ) (raw : RawMessage) (db : BinderDatabase) (v : IsValid db)
    (small : db.time + 1 < 2 ^ 32)
    (own : (m : Register)
      → deserialize_register raw ≡ ok m
      → IsUnclaimed (sender m client) db) where
  handle_register-IsValid :
      (m : Register)
      → deserialize_register raw ≡ ok m
      → IsValid (state_of db (handle_register m client db))
  unfolding handle_register
  handle_register-IsValid m read =
      elim (Outcome-cases (signature_of_arg_types m.function_name m.arg_types)) [
        | inl (sig, e) ↦
            rw e (register_server-IsValid sig (sender m client) db v (own m read) small)
        | inr (f, e) ↦ rw e v
      ]

  handle_locate-IsValid : (m : LocateRequest) → IsValid (state_of db (handle_locate m db))
  unfolding handle_locate
  handle_locate-IsValid m =
      elim (Outcome-cases (signature_of_arg_types m.function_name m.arg_types)) [
        | inl (sig, e) ↦ rw e (locate_server-IsValid sig db v small)
        | inr (f, e) ↦ rw e v
      ]

  handled-IsValid :
      (o : Outcome (RawMessage × BinderDatabase))
      → IsValid (state_of db o)
      → IsValid (handled_state db (o >>= handled))
  handled-IsValid (ok (m, db')) h = h
  handled-IsValid (fault e) h = v

  dispatch-IsValid :
      (type : MessageType) (replies : ServerData → Reply)
      → IsValid (handled_state db (dispatch type replies client raw db))
  unfolding dispatch
  dispatch-IsValid Message.register replies = elim (Outcome-cases (deserialize_register raw)) [
    | inl (m, e) ↦
        rw e (handled-IsValid (handle_register m client db) (handle_register-IsValid m e))
    | inr (f, e) ↦ rw e v
  ]
  dispatch-IsValid Message.locate_request replies =
      elim (Outcome-cases (deserialize_locate_request raw)) [
        | inl (m, e) ↦ rw e (handled-IsValid (handle_locate m db) (handle_locate-IsValid m))
        | inr (f, e) ↦ rw e v
      ]
  dispatch-IsValid Message.terminate replies = elim (Outcome-cases (deserialize_status raw)) [
    | inl (m, e) ↦ elim (Outcome-cases (handle_terminate replies db)) [
      | inl (response, told) ↦ rw (e, ◌>>=◌, told) v
      | inr (f, told) ↦ rw (e, ◌>>=◌, told) v
    ]
    | inr (f, e) ↦ rw e v
  ]
  dispatch-IsValid _ replies = v

abbrev pub loop_state : BinderState → Outcome BinderState → BinderDatabase
loop_state st (ok st') = st'.database
loop_state st (fault e) = st.database

after-IsValid :
    (client : ℕ) (outcome : Sent) (st : BinderState) (o : Outcome (Option Handled))
    → IsValid st.database
    → IsValid (handled_state st.database o)
    → IsValid (loop_state st (o >>= λ r. ok (after_dispatch client outcome st r)))
unfolding after_dispatch respond
after-IsValid client outcome st (fault e) v h = v
after-IsValid client outcome st (ok none) v h = v
after-IsValid client send_closed st (ok (some x)) v h = remove_if_server-IsValid client x.database h
after-IsValid client delivered st (ok (some x)) v h = h
after-IsValid client send_error st (ok (some x)) v h = h

-- One round of the loop keeps a valid database valid, whatever the client sent and whatever becomes
-- of the response, if the clock is not about to wrap and the message is no registration of an
-- address that is known under another connection.
pub serve_client-IsValid :
    (replies : ServerData → Reply) (client : ℕ) (received : Received) (outcome : Sent)
    (st : BinderState)
    → IsValid st.database
    → st.database.time + 1 < 2 ^ 32
    → ((bytes : List ℕ) (m : Register)
        → received ≡ message bytes
        → deserialize_register (raw_message bytes) ≡ ok m
        → IsUnclaimed (sender m client) st.database)
    → IsValid (loop_state st (serve_client replies client received outcome st))
unfolding serve_client
serve_client-IsValid replies client closed outcome st v small own =
    remove_if_server-IsValid client st.database v
serve_client-IsValid replies client recv_error outcome st v small own = v
serve_client-IsValid replies client (message []) outcome st v small own = v
serve_client-IsValid replies client (message (c ∷ cs)) outcome st v small own =
    let raw = raw_message (c ∷ cs) in
    after-IsValid client outcome st (dispatch raw.message_type replies client raw st.database) v (
      dispatch-IsValid client raw st.database v small (λ m e. own (c ∷ cs) m refl e)
        raw.message_type replies)
