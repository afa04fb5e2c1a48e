-- ===== src/Examples/Requests.antt =====
-- A registration and an inquiry from their bytes, and rounds of the binder's loop.
use rpc_library.Common.{ℕ, ◌≡◌, refl, true, List, [], ◌∷◌, ok, arith}
use rpc_library.Examples.Data.{host_a, name_f, two_args, out_int}
use rpc_library.Arg.{get_arg_type, number_of_args}
use rpc_library.Arg.Fields.{make_arg_type}
use rpc_library.Signature.Equality.{AreArguments, AllSimilar}
use rpc_library.Binder.Server.{ServerData}
use rpc_library.Binder.Database.{empty_database, servers_of}
use rpc_library.Binder.Keyed.{find}
use rpc_library.Binder.Terminating.{Reply, failed}
use rpc_library.Binder.Validity.Invariant.{IsValid, IsUnclaimed}
use rpc_library.Binder.History.{run, history-IsValid}
use rpc_library.Binder.Loop.{BinderState, serve_client, message, delivered}
use rpc_library.Binder.Loop.Validity.{loop_state, serve_client-IsValid}
use rpc_library.Binder.Requests.{Served, register_then_locate}
use rpc_library.Message.{raw_message}
use rpc_library.Messages.Fields.{read_message, decode_arg_types, copy_arg_types}
use rpc_library.Messages.Register.{read_register, new_register, deserialize_register}
use rpc_library.Wire.{decode_string, decode_integer, decode_integers, check_num_args}
use rpc_library.Messages.RegisterRoundTrip.{registration}
use rpc_library.Messages.LocateRoundTrip.{request}

-- The same procedure with another length of its array.
abbrev pub other_args : List ℕ
other_args = out_int ∷ make_arg_type 3 6 7 ∷ []

pub two_args-AreArguments : AreArguments two_args
unfolding get_arg_type
two_args-AreArguments = (
  record { is_int = omega arith; known = (omega arith, omega arith); directed = omega arith },
  (record { is_int = omega arith; known = (omega arith, omega arith); directed = omega arith }, tt),
)

pub other_args-AreArguments : AreArguments other_args
unfolding get_arg_type
other_args-AreArguments = (
  record { is_int = omega arith; known = (omega arith, omega arith); directed = omega arith },
  (record { is_int = omega arith; known = (omega arith, omega arith); directed = omega arith }, tt),
)

similar : AllSimilar two_args other_args
similar = (
  record { same_direction = refl; same_type = refl; same_dimension = refl },
  (record { same_direction = refl; same_type = refl; same_dimension = refl }, tt),
)

empty_database-IsValid : IsValid empty_database
unfolding run
empty_database-IsValid = history-IsValid [] (omega arith) tt

nobody_claims : (s : ServerData) → IsUnclaimed s empty_database
unfolding find
nobody_claims s e h = cc

no_reply : ServerData → Reply
no_reply s = failed

register_then_locate_example :
    Served no_reply 7 12 empty_database
      (registration host_a 5000 name_f two_args)
      (request name_f other_args)
      (record { server_hostname = host_a; server_port = 5000 })
register_then_locate_example =
    register_then_locate host_a 5000 name_f two_args other_args no_reply 7 12 empty_database
      two_args-AreArguments other_args-AreArguments similar (omega arith) (omega arith)
      (omega arith) empty_database-IsValid (nobody_claims _) (omega arith)
      (λ sig h. unfold servers_of in refl)

-- The Register of the same call, byte for byte.
abbrev pub register_bytes : List ℕ
register_bytes =
    0 ∷ 1 ∷ 0 ∷ 0 ∷ 0 ∷ 97 ∷ 136 ∷ 19 ∷ 0 ∷ 0 ∷ 1 ∷ 0 ∷ 0 ∷ 0 ∷ 102 ∷ 2 ∷ 0 ∷ 0 ∷ 0 ∷ 0 ∷ 0 ∷ 3 ∷ 64
    ∷ 42 ∷ 0 ∷ 6 ∷ 192 ∷ []

pub register_bytes_read :
    deserialize_register (raw_message register_bytes)
    ≡ ok (registration host_a 5000 name_f two_args)
unfolding deserialize_register read_register read_message decode_string decode_integer
    decode_integers decode_arg_types check_num_args new_register copy_arg_types number_of_args
    raw_message
register_bytes_read = refl

abbrev started : BinderState
started = record { database = empty_database; running = true; sent = []; forgotten = [] }

serve_client-IsValid_example :
    IsValid
      (loop_state started (serve_client no_reply 7 (message register_bytes) delivered started))
serve_client-IsValid_example =
    serve_client-IsValid no_reply 7 (message register_bytes) delivered started
      empty_database-IsValid (omega arith) (λ bytes m e h. nobody_claims _)
