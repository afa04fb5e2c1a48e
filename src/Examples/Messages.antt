-- ===== src/Examples/Messages.antt =====
-- The fields of argument types, the wire format and the messages on small inputs.
use rpc_library.Common.{ℕ, ◌<◌, ◌≡◌, ◌↔◌, refl, List, [], ◌∷◌, ok, ◌>>=◌, arith}
use rpc_library.Common.Ints.{pos, negsuc, signed}
use rpc_library.Examples.Data.{host_a, name_f, two_args}
use rpc_library.Arg.{
  get_arg_type, get_arg_length, get_size_of_arg_type, size_in_bytes, AreArgTypes, terminated,
}
use rpc_library.Arg.Fields.{make_arg_type}
use rpc_library.Signature.{signature_of_arg_types}
use rpc_library.Signature.Equality.{AllSimilar, signature_of_arg_types_iff}
use rpc_library.Examples.Requests.{other_args, two_args-AreArguments, other_args-AreArguments}
use rpc_library.Message
use rpc_library.Message.{int_of_code, server_connection_error}
use rpc_library.Wire.{encode_integer, encode_string}
use rpc_library.Messages.Status.{serialize_status, deserialize_status, status_codes_arrive_positive}
use rpc_library.Messages.Execute.{serialize_execute, deserialize_execute}
use rpc_library.Messages.ExecuteRoundTrip.{call, execute_round_trip}

-- An output int, and two chars that are both; 5 and 6 are arbitrary bytes.
abbrev small_args : List ℕ
small_args = make_arg_type 1 3 0 ∷ make_arg_type 3 1 2 ∷ []

abbrev small_blocks : List (List ℕ)
small_blocks = (5 ∷ 0 ∷ 0 ∷ 0 ∷ []) ∷ (5 ∷ 6 ∷ []) ∷ []

small_args-AreArgTypes : AreArgTypes small_args
small_args-AreArgTypes = ((omega arith, omega arith), ((omega arith, omega arith), tt))

-- "a" is written as its length, least byte first, and its character.
encoded_host : encode_string host_a ≡ 1 ∷ 0 ∷ 0 ∷ 0 ∷ 97 ∷ []
unfolding encode_string encode_integer
encoded_host = refl

execute_round_trip_example :
    (serialize_execute (call name_f small_args small_blocks) >>= deserialize_execute)
    ≡ ok (call name_f small_args small_blocks)
unfolding size_in_bytes get_size_of_arg_type get_arg_type get_arg_length
execute_round_trip_example =
    execute_round_trip name_f small_args small_blocks small_args-AreArgTypes (refl, (refl, tt))
      (omega arith)

status_codes_arrive_positive_example :
    (n : ℕ) × (w : ℕ) × (signed (int_of_code server_connection_error) ≡ negsuc n)
    × (deserialize_status
          (serialize_status Message.terminate_failure (int_of_code server_connection_error))
        ≡ ok w)
    × (signed w ≡ pos w)
    × (0 < w)
status_codes_arrive_positive_example =
    status_codes_arrive_positive Message.terminate_failure server_connection_error

signature_of_arg_types_iff_example :
    (signature_of_arg_types name_f (terminated two_args)
      ≡ signature_of_arg_types name_f (terminated other_args))
    ↔ ((name_f ≡ name_f) × AllSimilar two_args other_args)
signature_of_arg_types_iff_example =
    signature_of_arg_types_iff name_f name_f two_args other_args two_args-AreArguments
      other_args-AreArguments
