-- ===== src/Binder/Requests.antt =====
-- Whole requests to the binder, from bytes to bytes (binder.cc, `main`).
use rpc_library.Common.{
  ℕ, ◌+◌, ◌*◌, ◌^◌, ◌<◌, ◌≡◌, refl, sym, ◌∙◌, ap, Bool, true, false, List, [], Option, none, some,
  Outcome, ok, fault, ◌>>=◌, if◌then◌else◌, >>=-eq-ok, arith, length, Option-cases, inl, inr,
}
use mathlib.Core.Logic.{if_pos}
use rpc_library.Common.Ints.{IsInt}
use rpc_library.Arg.{terminated, AreArgTypes}
use rpc_library.Signature.{Signature, signature_of_arg_types}
use rpc_library.Signature.Equality.{
  AreArguments, AllSimilar, signature_of_arg_types_iff, signature_of_arg_types-total,
  AreArguments-AreArgTypes,
}
use rpc_library.Message
use rpc_library.Message.{MessageType, RawMessage, raw_message, byte_of_type}
use rpc_library.Messages.Fields.{encode_arg_types}
use rpc_library.Messages.Status.{serialize_status}
use rpc_library.Messages.Register.{Register, serialize_register, deserialize_register}
use rpc_library.Messages.Locate.{
  LocateRequest, serialize_locate_request, deserialize_locate_request, LocateSuccess,
  deserialize_locate_success,
}
use rpc_library.Messages.LocateRoundTrip.{
  request, locate_request_round_trip, locate_success_round_trip,
}
use rpc_library.Messages.RegisterRoundTrip.{registration, register_round_trip}
use rpc_library.Binder.Server.{ServerData, same_server, same_server_refl}
use rpc_library.Binder.Keyed.{find}
use rpc_library.Binder.Database.{BinderDatabase, register_server, locate_server, itself}
use rpc_library.Binder.Terminating.{Reply}
use rpc_library.Binder.Validity.Invariant.{IsValid, IsUnclaimed}
use rpc_library.Binder.Validity.Methods.{register_server-IsValid}
use rpc_library.Binder.Locating.{registered, locate_fails_iff, locate_least_recent}
use rpc_library.Binder.Registering.{registered-register_server, register_server-status}
use rpc_library.Binder.Loop.{handle_register, handle_locate, dispatch, Handled, locate_response}

-- A request on the wire: its bytes are written, and the binder handles what it reads.
abbrev pub request_bytes :
    Outcome RawMessage → (ServerData → Reply) → ℕ → BinderDatabase → Outcome (Option Handled)
request_bytes written replies client db =
    written >>= λ raw. dispatch raw.message_type replies client raw db

-- A message that is built behind a step that may fail has the type that it is built with.
built_type :
    (step : Outcome (List ℕ)) (build : List ℕ → RawMessage) (type : MessageType) (raw : RawMessage)
    → ((x : List ℕ) → (build x).message_type ≡ type)
    → (step >>= λ x. ok (build x)) ≡ ok raw
    → raw.message_type ≡ type
built_type (ok x) build type raw typed h = ap (λ (r : RawMessage). r.message_type) (out h) ∙ typed x
  where
    out : ok (build x) ≡ ok raw → raw ≡ build x
    out e = cc
built_type (fault e) build type raw typed h = cc

message_type-serialize_register :
    (m : Register) (raw : RawMessage)
    → serialize_register m ≡ ok raw
    → raw.message_type ≡ Message.register
unfolding serialize_register raw_message byte_of_type
message_type-serialize_register m raw h =
    built_type (encode_arg_types m.arg_types) _ Message.register raw (λ x. refl) h

message_type-serialize_locate_request :
    (m : LocateRequest) (raw : RawMessage)
    → serialize_locate_request m ≡ ok raw
    → raw.message_type ≡ Message.locate_request
unfolding serialize_locate_request raw_message byte_of_type
message_type-serialize_locate_request m raw h =
    built_type (encode_arg_types m.arg_types) _ Message.locate_request raw (λ x. refl) h

module _ (sig : Signature) (s : ServerData) (db : BinderDatabase) (v : IsValid db)
    (free : IsUnclaimed s db) (small : db.time + 1 < 2 ^ 32) (alone : registered sig db ≡ []) where
  abbrev after : BinderDatabase
  after = (register_server sig s db).1

  nobody : find itself s (registered sig db) ≡ none
  unfolding find
  nobody = rw alone refl

  -- The only registered server is found under its own key and no other.
  lookup_after :
      (x : ServerData)
      → find itself x (registered sig after) ≡ (if same_server x s then some s else none)
  unfolding find
  lookup_after x = registered-register_server sig s db sig x ∙ rw (if_pos _ refl, alone) refl

  found_after : find itself s (registered sig after) ≡ some s
  found_after = rw (lookup_after s, same_server_refl s) refl

  answer_after : (locate_server sig after).0 ≡ some s
  unfolding find
  answer_after =
      let v' = register_server-IsValid sig s db v free small in
      elim (Option-cases (locate_server sig after).0) [
        | inl failed ↦
            cc (found_after, ap (find itself s) ((locate_fails_iff sig after v').0 failed))
        | inr (t, answered) ↦
            answered ∙ ap some (only_one t ((locate_least_recent sig after v' t answered).0))
      ]
    where
      only_one : (t : ServerData) → find itself t (registered sig after) ≡ some t → t ≡ s
      only_one t h = one (same_server t s) (sym (lookup_after t) ∙ h)
        where
          one : (b : Bool) → (if b then some s else none) ≡ some t → t ≡ s
          one true e = cc
          one false e = cc

-- A written message, and what reading it gives.
written :
    {A : Type 0} (m : Outcome RawMessage) (read : RawMessage → Outcome A) (a : A)
    → (m >>= read) ≡ ok a
    → (raw : RawMessage) × (m ≡ ok raw) × (read raw ≡ ok a)
written m read a h = >>=-eq-ok m read h

module _ (replies : ServerData → Reply) (client : ℕ) (db : BinderDatabase) where
  -- A registration on the wire, for a legal array of argument types.
  pub register_request :
      (host : List ℕ) (port : ℕ) (name args : List ℕ) (sig : Signature)
      → AreArgTypes args
      → IsInt port
      → length host + length name + 4 * length args + 17 < 2 ^ 31
      → signature_of_arg_types name (terminated args) ≡ ok sig
      → let s : ServerData = record {
        server_hostname = host;
        server_port = port;
        server_socket = client;
      } in
        request_bytes (serialize_register (registration host port name args)) replies client db
        ≡ ok (
            some (record {
              response = serialize_status Message.register_success (register_server sig s db).0;
              to_servers = [];
              database = (register_server sig s db).1;
              running = true;
            }))
  unfolding dispatch handle_register
  register_request host port name args sig valid is_int fits signed =
      let (raw, wrote, back) =
        written _ deserialize_register _
          (register_round_trip host port name args valid is_int fits) in
      rw (wrote, message_type-serialize_register _ raw wrote, back, signed) refl

  -- An inquiry on the wire.
  pub locate_request_bytes :
      (name args : List ℕ) (sig : Signature)
      → AreArgTypes args
      → length name + 4 * length args + 9 < 2 ^ 31
      → signature_of_arg_types name (terminated args) ≡ ok sig
      → request_bytes (serialize_locate_request (request name args)) replies client db
        ≡ ok (
            some (record {
              response = locate_response (locate_server sig db).0;
              to_servers = [];
              database = (locate_server sig db).1;
              running = true;
            }))
  unfolding dispatch handle_locate
  locate_request_bytes name args sig valid fits signed =
      let (raw, wrote, back) =
        written _ deserialize_locate_request _ (locate_request_round_trip name args valid fits) in
      rw (wrote, message_type-serialize_locate_request _ raw wrote, back, signed) refl

-- The answers of the binder to a registration and to an inquiry, both from their bytes.
pub record Served (replies : ServerData → Reply) (server asker : ℕ) (db : BinderDatabase)
    (registers : Register) (asks : LocateRequest) (finds : LocateSuccess) : Type 0 where
  pub first : Handled
  pub second : Handled
  pub registration_handled :
      request_bytes (serialize_register registers) replies server db ≡ ok (some first)
  pub registered_with_success : first.response ≡ serialize_status Message.register_success 0
  pub inquiry_handled :
      request_bytes (serialize_locate_request asks) replies asker first.database ≡ ok (some second)
  pub found : deserialize_locate_success second.response ≡ ok finds

-- From their bytes: a server registers a procedure that no server of a valid database offers, under
-- an address that no other connection holds, and is answered with success; a client that then asks
-- for a procedure with the same name and similar argument types is answered with that server's host
-- and port. The argument types are legal, the messages shorter than 2 ^ 31 bytes, the port is an
-- `int` and the clock does not wrap.
pub register_then_locate :
    (host : List ℕ) (port : ℕ) (name args args' : List ℕ) (replies : ServerData → Reply)
    (server asker : ℕ) (db : BinderDatabase)
    → AreArguments args
    → AreArguments args'
    → AllSimilar args args'
    → IsInt port
    → length host + length name + 4 * length args + 17 < 2 ^ 31
    → length name + 4 * length args' + 9 < 2 ^ 31
    → IsValid db
    → IsUnclaimed (record { server_hostname = host; server_port = port; server_socket = server }) db
    → db.time + 1 < 2 ^ 32
    → ((sig : Signature)
        → signature_of_arg_types name (terminated args) ≡ ok sig
        → registered sig db ≡ [])
    → Served replies server asker db
        (registration host port name args)
        (request name args')
        (record { server_hostname = host; server_port = port })
register_then_locate host port name args args' replies server asker db legal legal' similar is_int
      fits fits' v free small alone =
    let (sig, signed) = signature_of_arg_types-total name args legal in
    let signed' =
      sym ((signature_of_arg_types_iff name name args args' legal legal').1 (refl, similar))
      ∙ signed in
    let s : ServerData = record {
      server_hostname = host;
      server_port = port;
      server_socket = server;
    } in
    let new = nobody sig s db v free small (alone sig signed) in
    record {
      first = _;
      second = _;
      registration_handled =
          register_request replies server db host port name args sig
            (AreArguments-AreArgTypes args legal) is_int fits signed;
      registered_with_success =
          ap (serialize_status Message.register_success) ((register_server-status sig s db).0 new);
      inquiry_handled =
          locate_request_bytes replies asker (register_server sig s db).1 name args' sig
            (AreArguments-AreArgTypes args' legal') fits' signed';
      found =
          rw (answer_after sig s db v free small (alone sig signed))
            (locate_success_round_trip _ is_int (omega arith));
    }
