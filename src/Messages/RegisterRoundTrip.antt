-- ===== src/Messages/RegisterRoundTrip.antt =====
-- Writing and reading Register (register_messages.h).
use rpc_library.Common.{
  ℕ, ◌+◌, ◌-◌, ◌*◌, ◌^◌, ◌<◌, ◌≡◌, refl, List, ◌∷◌, ◌++◌, length, length-append, arith, ok, ◌>>=◌,
  [],
}
use rpc_library.Common.Ints.{IsInt}
use rpc_library.Arg.{AreArgTypes, terminated}
use rpc_library.Message.{raw_message, byte_of_type}
use rpc_library.Message
use rpc_library.Wire.{encode_string, encode_integer}
use rpc_library.Wire.Fields.{Decodes, Decodes-bind, Decodes-end}
use rpc_library.Wire.RoundTrip.{
  decode_integer-encode_integer, decode_string-encode_string, length-encode_string,
  length-encode_integer,
}
use rpc_library.Messages.Fields.{
  type_fields, length-type_fields, decode_arg_types-Decodes, copy_arg_types-terminated,
  encode_arg_types-terminated, read_message-Decodes,
}
use rpc_library.Messages.Register.{
  Register, new_register, serialize_register, deserialize_register, read_register,
}

abbrev pub registration : List ℕ → ℕ → List ℕ → List ℕ → Register
registration host port name args = record {
  server_hostname = host;
  server_port = port;
  function_name = name;
  arg_types = terminated args;
}

module _ (host : List ℕ) (port : ℕ) (name args : List ℕ) (valid : AreArgTypes args) where
  abbrev pub register_fields : List ℕ
  register_fields =
      encode_string host ++ (encode_integer port ++ (encode_string name ++ type_fields args))

  pub serialize_register-registration :
      serialize_register (registration host port name args)
      ≡ ok (raw_message (byte_of_type Message.register ∷ register_fields))
  unfolding serialize_register
  serialize_register-registration = rw (encode_arg_types-terminated args valid) refl

  pub new_register-registration :
      new_register host port name (args ++ 0 ∷ []) ≡ ok (registration host port name args)
  unfolding new_register
  new_register-registration = rw (copy_arg_types-terminated args valid []) refl

  module _ (port_is_int : IsInt port)
      (fits : length host + length name + 4 * length args + 17 < 2 ^ 31) where
    fields : Decodes read_register register_fields (registration host port name args)
    unfolding read_register
    fields =
        Decodes-bind _ (encode_string host) _ host _
          (decode_string-encode_string host (omega arith))
          (Decodes-bind _ (encode_integer port) _ port _
            (decode_integer-encode_integer port port_is_int)
            (Decodes-bind _ (encode_string name) (type_fields args) name _
              (decode_string-encode_string name (omega arith))
              (Decodes-end _ (type_fields args) args _
                (decode_arg_types-Decodes args valid (omega arith)) new_register-registration)))

    size : length register_fields < 2 ^ 31 - 1
    size = omega (
      arith,
      length-append (encode_string host)
          (encode_integer port ++ (encode_string name ++ type_fields args)),
      length-append (encode_integer port) (encode_string name ++ type_fields args),
      length-append (encode_string name) (type_fields args),
      length-encode_string host,
      length-encode_string name,
      length-encode_integer port,
      length-type_fields args,
    )

    -- A Register with a well-formed array of argument types, and a port that is an `int`, is read
    -- back from its bytes as it was, if they number less than 2 ^ 31.
    pub register_round_trip :
        (serialize_register (registration host port name args) >>= deserialize_register)
        ≡ ok (registration host port name args)
    unfolding deserialize_register raw_message
    register_round_trip =
        rw serialize_register-registration (read_message-Decodes _ _ _ size fields)
