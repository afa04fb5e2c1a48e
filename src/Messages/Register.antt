-- ===== src/Messages/Register.antt =====
-- register_messages.h and register_messages.cc.
use rpc_library.Common.{ℕ, List, [], ◌∷◌, ◌++◌, Outcome, ok, ◌>>=◌}
use rpc_library.Message.{RawMessage, raw_message, byte_of_type, register}
use rpc_library.Wire.{encode_string, encode_integer, decode_string, decode_integer}
use rpc_library.Wire.Cursor
use rpc_library.Wire.Cursor.{Reader, lift}
use rpc_library.Messages.Fields.{copy_arg_types, encode_arg_types, decode_arg_types, read_message}

pub record Register : Type 0 where
  pub server_hostname : List ℕ
  pub server_port : ℕ
  pub function_name : List ℕ
  pub arg_types : List ℕ

-- Register::Register
unfoldable pub new_register : List ℕ → ℕ → List ℕ → List ℕ → Outcome Register
new_register server_hostname server_port function_name arg_types = do
  copy ← copy_arg_types arg_types
  ok (record {
    server_hostname = server_hostname;
    server_port = server_port;
    function_name = function_name;
    arg_types = copy;
  })

-- Serializer<Register>::serialize
unfoldable pub serialize_register : Register → Outcome RawMessage
serialize_register m = do
  types ← encode_arg_types m.arg_types
  ok (
      raw_message (
        byte_of_type register ∷ encode_string m.server_hostname
        ++ (encode_integer m.server_port ++ (encode_string m.function_name ++ types))))

-- The fields of Serializer<Register>::deserialize
unfoldable pub read_register : Reader Register
read_register = Cursor.◌>>=◌ decode_string λ server_hostname.
    Cursor.◌>>=◌ decode_integer λ server_port. Cursor.◌>>=◌ decode_string λ function_name.
      Cursor.◌>>=◌ decode_arg_types
        λ ints. lift (new_register server_hostname server_port function_name (ints ++ 0 ∷ []))

-- Serializer<Register>::deserialize
unfoldable pub deserialize_register : RawMessage → Outcome Register
deserialize_register m = read_message read_register m.buffer
