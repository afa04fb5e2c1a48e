-- ===== src/Messages/LocateRoundTrip.antt =====
-- Writing and reading LocateRequest and LocateSuccess (locate_messages.h).
use rpc_library.Common.{
  ℕ, ◌+◌, ◌-◌, ◌*◌, ◌^◌, ◌<◌, ◌≡◌, refl, List, ◌∷◌, ◌++◌, length, length-append, arith, ok, ◌>>=◌,
  [],
}
use rpc_library.Common.Ints.{IsInt}
use rpc_library.Arg.{AreArgTypes, terminated}
use rpc_library.Message.{raw_message, byte_of_type, locate_request}
use rpc_library.Wire.{encode_string, encode_integer}
use rpc_library.Wire.Fields.{Decodes, Decodes-bind, Decodes-map, Decodes-end}
use rpc_library.Wire.RoundTrip.{
  decode_integer-encode_integer, decode_string-encode_string, length-encode_string,
  length-encode_integer,
}
use rpc_library.Messages.Fields.{
  type_fields, length-type_fields, decode_arg_types-Decodes, copy_arg_types-terminated,
  encode_arg_types-terminated, read_message-Decodes,
}
use rpc_library.Messages.Locate.{
  LocateRequest, LocateSuccess, new_locate_request, serialize_locate_request,
  deserialize_locate_request, read_locate_request, serialize_locate_success,
  deserialize_locate_success, read_locate_success,
}

abbrev pub request : List ℕ → List ℕ → LocateRequest
request name args = record { function_name = name; arg_types = terminated args }

module _ (name args : List ℕ) (valid : AreArgTypes args) where
  pub serialize_locate_request-request :
      serialize_locate_request (request name args)
      ≡ ok (raw_message (byte_of_type locate_request ∷ encode_string name ++ type_fields args))
  unfolding serialize_locate_request
  serialize_locate_request-request = rw (encode_arg_types-terminated args valid) refl

  pub new_locate_request-request : new_locate_request name (args ++ 0 ∷ []) ≡ ok (request name args)
  unfolding new_locate_request
  new_locate_request-request = rw (copy_arg_types-terminated args valid []) refl

  module _ (fits : length name + 4 * length args + 9 < 2 ^ 31) where
    fields :
        Decodes read_locate_request (encode_string name ++ type_fields args) (request name args)
    unfolding read_locate_request
    fields =
        Decodes-bind _ (encode_string name) (type_fields args) name _
          (decode_string-encode_string name (omega arith))
          (Decodes-end _ (type_fields args) args _
            (decode_arg_types-Decodes args valid (omega arith)) new_locate_request-request)

    size : length (encode_string name ++ type_fields args) < 2 ^ 31 - 1
    size = omega (
      arith,
      length-append (encode_string name) (type_fields args),
      length-encode_string name,
      length-type_fields args,
    )

    -- A LocateRequest with a well-formed array of argument types is read back from its bytes as it
    -- was, if the bytes number less than 2 ^ 31.
    pub locate_request_round_trip :
        (serialize_locate_request (request name args) >>= deserialize_locate_request)
        ≡ ok (request name args)
    unfolding deserialize_locate_request raw_message
    locate_request_round_trip =
        rw serialize_locate_request-request (read_message-Decodes _ _ _ size fields)

-- A LocateSuccess whose port is an `int` is read back from its bytes as it was, if they number less
-- than 2 ^ 31.
pub locate_success_round_trip :
    (m : LocateSuccess)
    → IsInt m.server_port
    → length m.server_hostname + 9 < 2 ^ 31
    → deserialize_locate_success (serialize_locate_success m) ≡ ok m
unfolding deserialize_locate_success serialize_locate_success read_locate_success raw_message
locate_success_round_trip m port fits = read_message-Decodes _ _ _ size (
    Decodes-bind _ (encode_string host) (encode_integer m.server_port) host m
      (decode_string-encode_string host (omega arith))
      (Decodes-map (λ p. record { server_hostname = host; server_port = p })
        (encode_integer m.server_port) m.server_port
        (decode_integer-encode_integer m.server_port port)))
  where
    host : List ℕ
    host = m.server_hostname

    size : length (encode_string host ++ encode_integer m.server_port) < 2 ^ 31 - 1
    size = omega (
      arith,
      length-append (encode_string host) (encode_integer m.server_port),
      length-encode_string host,
      length-encode_integer m.server_port,
    )
