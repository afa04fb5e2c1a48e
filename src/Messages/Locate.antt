-- ===== src/Messages/Locate.antt =====
-- locate_messages.h and locate_messages.cc.
use rpc_library.Common.{ℕ, List, [], ◌∷◌, ◌++◌, Outcome, ok, ◌>>=◌}
use rpc_library.Message.{RawMessage, raw_message, byte_of_type, locate_request, locate_success}
use rpc_library.Wire.{encode_string, encode_integer, decode_string, decode_integer}
use rpc_library.Wire.Cursor
use rpc_library.Wire.Cursor.{Reader, pure, lift}
use rpc_library.Messages.Fields.{copy_arg_types, encode_arg_types, decode_arg_types, read_message}

pub record LocateRequest : Type 0 where
  pub function_name : List ℕ
  pub arg_types : List ℕ

-- LocateRequest::LocateRequest
unfoldable pub new_locate_request : List ℕ → List ℕ → Outcome LocateRequest
new_locate_request function_name arg_types = do
  copy ← copy_arg_types arg_types
  ok (record { function_name = function_name; arg_types = copy })

-- Serializer<LocateRequest>::serialize
unfoldable pub serialize_locate_request : LocateRequest → Outcome RawMessage
serialize_locate_request m = do
  types ← encode_arg_types m.arg_types
  ok (raw_message (byte_of_type locate_request ∷ encode_string m.function_name ++ types))

-- The fields of Serializer<LocateRequest>::deserialize
unfoldable pub read_locate_request : Reader LocateRequest
read_locate_request = Cursor.◌>>=◌ decode_string λ function_name.
    Cursor.◌>>=◌ decode_arg_types λ ints. lift (new_locate_request function_name (ints ++ 0 ∷ []))

-- Serializer<LocateRequest>::deserialize
unfoldable pub deserialize_locate_request : RawMessage → Outcome LocateRequest
deserialize_locate_request m = read_message read_locate_request m.buffer

pub record LocateSuccess : Type 0 where
  pub server_hostname : List ℕ
  pub server_port : ℕ

-- Serializer<LocateSuccess>::serialize
unfoldable pub serialize_locate_success : LocateSuccess → RawMessage
serialize_locate_success m =
    raw_message (
      byte_of_type locate_success ∷ encode_string m.server_hostname ++ encode_integer m.server_port)

-- The fields of Serializer<LocateSuccess>::deserialize
unfoldable pub read_locate_success : Reader LocateSuccess
read_locate_success = Cursor.◌>>=◌ decode_string λ server_hostname.
    Cursor.◌>>=◌ decode_integer
      λ server_port. pure (record { server_hostname = server_hostname; server_port = server_port })

-- Serializer<LocateSuccess>::deserialize
unfoldable pub deserialize_locate_success : RawMessage → Outcome LocateSuccess
deserialize_locate_success m = read_message read_locate_success m.buffer
