-- ===== src/Examples/ExamplePrograms.antt =====
-- The example programs at concrete inputs.
use native.Mathlib.Decide.{ℕ_discrete}
use rpc_library.Common.{
  ◌≡◌, refl, not, All, true, false, [], ◌∷◌, none, some, ok, fault, aborted, arith,
}
use rpc_library.Examples.Data.{host_a, server_a}
use rpc_library.Examples.Binder.{opened}
use rpc_library.Examples.ServerFunctions.{
  environment, hosts, kernel, started, run_of, run_of-Implements,
}
use rpc_library.Message.{raw_message, extract_message_type, type_of_byte}
use rpc_library.Message
use rpc_library.Messages.Status.{serialize_status}
use rpc_library.Binder.Server.{ServerData, bytes_ltb}
use rpc_library.Binder.Database.{BinderDatabase, empty_database, locate_server, Signature-discrete}
use rpc_library.Binder.Terminating.{Reply, answered, last_failure}
use rpc_library.Binder.History.{registers, run}
use rpc_library.Libserver.{ServerDatabase, skeleton_of}
use rpc_library.Rpc.{Network, with_binder, RpcState}
use rpc_library.Rpc.Peers.{asks_binder, asks_server}
use rpc_library.Rpc.Executing.{unstarted}
use rpc_library.ExamplePrograms.{Double}
use rpc_library.ExamplePrograms.Server.{bad, function_impl, ExampleSkeletons, server_example_main}
use rpc_library.ExamplePrograms.Client.{
  Floats, nonzero, old_at_0, old_at_3, expected_at_7, expected_at_41, client_example_main,
}
use rpc_library.ExamplePrograms.Passing.{
  example_sig, expected_args2, CountsUp, server_example_serves_impl, client_example_passes,
}

abbrev example_skeletons : ExampleSkeletons
example_skeletons = record { for_bad = run_of bad; for_impl = run_of function_impl }

abbrev confirms : ServerData → Reply
confirms s = answered (serialize_status Message.terminate_success 0).buffer

server_example_serves_impl_example :
    (st : RpcState) × (server_example_main environment hosts kernel example_skeletons
        (asks_binder confirms 12 empty_database)
        (asks_binder confirms 12 empty_database)
        false
        true
        (unstarted [])
        []
      ≡ ok st)
    × (server_example_main environment hosts kernel example_skeletons
          (asks_binder confirms 12 empty_database)
          (asks_binder confirms 12 empty_database)
          false
          false
          (unstarted [])
          []
        ≡ fault aborted)
    × (skeleton_of example_sig st.database ≡ some (run_of function_impl))
server_example_serves_impl_example =
    server_example_serves_impl environment hosts kernel example_skeletons confirms 12 empty_database
      empty_database false [] (4 ∷ 50 ∷ []) host_a 6000 started (omega arith) (omega arith)

abbrev example_binder : BinderDatabase
example_binder = run empty_database (registers example_sig server_a ∷ [])

abbrev example_database : ServerDatabase
example_database = (example_sig, run_of function_impl) ∷ []

abbrev example_network : Network
example_network host port = some (asks_server example_database)

example_offered : skeleton_of example_sig example_database ≡ some (run_of function_impl)
unfolding skeleton_of Signature-discrete ℕ_discrete
example_offered = refl

example_named : (locate_server example_sig example_binder).0 ≡ some server_a
unfolding opened
example_named = refl

all_confirm : last_failure confirms example_binder.server_to_timestamp ≡ none
unfolding opened raw_message extract_message_type type_of_byte serialize_status Message.byte_of_type
all_confirm = refl

-- Stand-ins for the floats: bytes in the order of strings, where `eps` adds nothing.
abbrev bytewise : Floats
bytewise = record {
  Float = Double;
  to_float = λ x. x;
  plus = λ a b. a;
  geb = λ a b. not (bytes_ltb a b);
  eps = [];
  double_gtb = λ a b. bytes_ltb b a;
}

all_count_up : All (CountsUp bytewise) (old_at_0 ∷ old_at_3 ∷ expected_at_7 ∷ expected_at_41 ∷ [])
unfolding bytes_ltb
all_count_up = (refl, (refl, (refl, (refl, tt))))

client_example_passes_example :
    client_example_main bytewise
      (asks_binder confirms 12 example_binder)
      (asks_binder confirms 12 example_binder)
      true
      example_network
      (unstarted [])
    ≡ ok (
      (0, 98 ∷ [], nonzero bytewise 42 0 expected_args2),
      (98 ∷ []) ∷ expected_args2 ∷ [],
      with_binder true (unstarted []),
    )
client_example_passes_example =
    client_example_passes bytewise (run_of function_impl) server_a example_database example_network
      confirms 12 example_binder example_binder [] all_count_up (run_of-Implements function_impl)
      example_offered example_named (omega arith) (omega arith) refl all_confirm
