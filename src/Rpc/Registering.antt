-- ===== src/Rpc/Registering.antt =====
-- `rpcRegister` and `rpcTerminate` of rpc.cc with the binder at the end of the connection.
use mathlib.Core.Logic.{ite}
use mathlib.Core.List.{map}
use rpc_library.Common.{
  ℕ, ◌+◌, ◌*◌, ◌^◌, ◌<◌, ◌≡◌, refl, ◌∙◌, ap, Bool, true, List, [], ◌∷◌, length, Option, none, some,
  Outcome, Outcome-cases, ok, fault, bad_alloc, ◌>>=◌, if◌then◌else◌, inl, inr, false, arith,
}
use rpc_library.Common.Ints.{IsInt, int_of_char, char_of_int}
use rpc_library.Arg.{AreArgTypes, terminated}
use rpc_library.Signature.{Signature, signature_of_arg_types}
use rpc_library.Message
use rpc_library.Message.{
  RawMessage, raw_message, byte_of_type, int_of_code, StatusCode, binder_connection_error,
}
use rpc_library.Messages.Status.{serialize_status, deserialize_status}
use rpc_library.Messages.Register.{deserialize_register}
use rpc_library.Messages.RegisterRoundTrip.{
  registration, register_fields, new_register-registration, serialize_register-registration,
  register_round_trip,
}
use rpc_library.Binder.Server.{ServerData}
use rpc_library.Binder.Database.{BinderDatabase, server_of, register_server, Signature-discrete}
use rpc_library.Binder.Terminating.{
  Reply, last_failure, verdict, any_overflow, handle_terminate, handle_terminate-last_failure,
}
use rpc_library.Binder.Loop.{dispatch, handle_register}
use rpc_library.Libserver.{Skeleton, ServerDatabase, skeleton_of, set_skeleton}
use rpc_library.Rpc.{
  RpcState, with_binder, rpc_register, register_answer, rpc_terminate, terminate_answer,
}
use rpc_library.Rpc.Peers.{response_of, asks_binder}

-- The procedure gets the skeleton, and no other procedure's changes.
skeleton_of-set_skeleton :
    (sig k : Signature) (f : Skeleton) (db : ServerDatabase)
    → skeleton_of k (set_skeleton sig f db)
      ≡ ite (Signature-discrete k sig) (some f) (skeleton_of k db)
unfolding skeleton_of set_skeleton
skeleton_of-set_skeleton sig k f [] = refl
skeleton_of-set_skeleton sig k f ((j, g) ∷ db) = ground (arith, skeleton_of-set_skeleton sig k f db)

-- A server with a socket and a connection to the binder.
abbrev pub registering : List ℕ → ℕ → ServerDatabase → RpcState
registering host port database = record {
  binder = true;
  local_server = some (host, port);
  database = database;
}

module _ (host : List ℕ) (port : ℕ) (name args : List ℕ) (valid : AreArgTypes args)
    (is_int : IsInt port) (fits : length host + length name + 4 * length args + 17 < 2 ^ 31)
    (sig : Signature) (signed : signature_of_arg_types name (terminated args) ≡ ok sig)
    (replies : ServerData → Reply) (client : ℕ) (db : BinderDatabase) where
  abbrev register_raw : RawMessage
  register_raw =
      raw_message (byte_of_type Message.register ∷ register_fields host port name args valid)

  register_read : deserialize_register register_raw ≡ ok (registration host port name args)
  register_read =
      rw (serialize_register-registration host port name args valid) at
        (register_round_trip host port name args valid is_int fits)

  abbrev server : ServerData
  server = record { server_hostname = host; server_port = port; server_socket = client }

  dispatched :
      (raw : RawMessage)
      → deserialize_register raw ≡ ok (registration host port name args)
      → response_of (dispatch Message.register replies client raw db)
        ≡ some (serialize_status Message.register_success (register_server sig server db).0).buffer
  unfolding dispatch handle_register
  dispatched raw h = rw (h, ◌>>=◌, signed) refl

  asked :
      asks_binder replies client db register_raw.buffer
      ≡ some (serialize_status Message.register_success (register_server sig server db).0).buffer
  unfolding asks_binder raw_message byte_of_type
  asked = dispatched register_raw register_read

  answered :
      (f : Skeleton) (status : ℕ) (st : RpcState)
      → let raw = raw_message (serialize_status Message.register_success status).buffer in
        register_answer raw.message_type raw name (terminated args) f st
        ≡ ok (0, record st { database = set_skeleton sig f st.database })
  unfolding register_answer serialize_status raw_message byte_of_type
  answered f status st = rw signed refl

  -- A server with a listening socket and a connection to the binder that registers a well-formed
  -- procedure gets 0, whether the binder warns or not, and then has the skeleton for that procedure
  -- and for every other the one that it had; the message is shorter than 2 ^ 31 bytes and the port is
  -- an `int`.
  pub register_stores_skeleton :
      (f : Skeleton) (database : ServerDatabase)
      → (rpc_register name
            (terminated args)
            f
            (asks_binder replies client db)
            (registering host port database)
          ≡ ok (0, registering host port (set_skeleton sig f database)))
        × ((k : Signature)
            → skeleton_of k (set_skeleton sig f database)
              ≡ ite (Signature-discrete k sig) (some f) (skeleton_of k database))
  unfolding rpc_register
  register_stores_skeleton f database = (
    rw
        (
          new_register-registration host port name args valid,
          ◌>>=◌,
          serialize_register-registration host port name args valid,
          ◌>>=◌,
          asked,
        )
        (answered f (register_server sig server db).0 (registering host port database)),
    λ k. skeleton_of-set_skeleton sig k f database,
  )

-- What the client makes of a failure of the binder.
abbrev pub reported : Option StatusCode → ℕ
reported none = 0
reported (some c) = int_of_char (char_of_int (int_of_code c))

-- What asks_binder makes of the outcome of `handleTerminate`
abbrev answer_bytes : Outcome RawMessage → Option (List ℕ)
answer_bytes (ok m) = some m.buffer
answer_bytes (fault why) = none

asked_to_terminate :
    (replies : ServerData → Reply) (client : ℕ) (db : BinderDatabase)
    → asks_binder replies client db (serialize_status Message.terminate 0).buffer
      ≡ answer_bytes (handle_terminate replies db)
unfolding asks_binder serialize_status deserialize_status raw_message byte_of_type dispatch
asked_to_terminate replies client db = elim (Outcome-cases (handle_terminate replies db)) [
  | inl (m, e) ↦ rw e refl
  | inr (why, e) ↦ rw e refl
]

outcome_reported :
    (o : Option StatusCode)
    → let raw = raw_message (verdict o).buffer in
      terminate_answer raw.message_type raw ≡ ok (reported o)
unfolding terminate_answer serialize_status deserialize_status raw_message byte_of_type
outcome_reported none = refl
outcome_reported (some c) = refl

-- What rpcTerminate makes of what the binder answers
abbrev status_reported : RpcState → Option (List ℕ) → Outcome (ℕ × RpcState)
status_reported st none = ok (int_of_code binder_connection_error, st)
status_reported st (some response) =
    terminate_answer (raw_message response).message_type (raw_message response) >>= λ status.
    ok (status, st)

reported_of :
    (b : Bool) (o : Option StatusCode) (st : RpcState)
    → status_reported st (answer_bytes (if b then fault bad_alloc else ok (verdict o)))
      ≡ ok (if b then int_of_code binder_connection_error else reported o, st)
reported_of true o st = refl
reported_of false o st = rw (outcome_reported o) refl

-- A client that reaches the binder gets -1002 (BINDER_CONNECTION_ERROR) for a Terminate if a `recv` of the
-- binder from a server reads a length below -1, which ends the binder. Otherwise it gets 0 exactly if
-- every server confirmed, and else the code of the last failure, cut to a `char`.
pub terminate_reports_last_failure :
    (connects : Bool) (replies : ServerData → Reply) (client : ℕ) (db : BinderDatabase)
    (st : RpcState)
    → (with_binder connects st).binder ≡ true
    → rpc_terminate connects (asks_binder replies client db) st
      ≡ ok (
        if any_overflow replies (map server_of db.server_to_timestamp)
            then int_of_code binder_connection_error
            else reported (last_failure replies db.server_to_timestamp),
        with_binder connects st,
      )
unfolding rpc_terminate
terminate_reports_last_failure connects replies client db st connected =
    rw
      (
        rpc_terminate,
        connected,
        asked_to_terminate replies client db,
        handle_terminate-last_failure replies db,
      )
      (reported_of (any_overflow replies (map server_of db.server_to_timestamp))
          (last_failure replies db.server_to_timestamp) (with_binder connects st)
        ∙ ap
            (λ (b : Bool).
              let code =
                if any_overflow replies (map server_of db.server_to_timestamp)
                then int_of_code binder_connection_error
                else reported (last_failure replies db.server_to_timestamp) in
              ok (code, record st { binder = b }))
            connected)
