-- ===== src/Examples/Rpc.antt =====
-- A call with an input and an output, from the client through the binder to a server and back.
use native.Mathlib.Decide.{ℕ_discrete}
use mathlib.Core.Logic.{ite}
use rpc_library.Common.{
  if◌then◌else◌, ℕ, ◌≡◌, refl, true, false, List, [], ◌∷◌, none, some, ok, arith,
}
use rpc_library.Examples.Data.{host_a, name_f, server_a}
use rpc_library.Examples.Binder.{opened, second_fails}
use rpc_library.Arg.{
  get_arg_type, get_arg_length, get_size_of_arg_type, size_in_bytes, AreArgTypes, terminated,
  is_only_input, is_only_output, is_input_output, number_of_args,
}
use rpc_library.Arg.Fields.{make_arg_type}
use rpc_library.Signature.{
  Signature, scalar, input, output, int, signature_of_arg_types, arguments_of, argument_of,
  data_type_of, direction_of, dimension_of,
}
use rpc_library.Messages.ExecuteRoundTrip.{BlocksFit}
use rpc_library.Binder.Database.{
  BinderDatabase, server_of, empty_database, locate_server, Signature-discrete,
}
use rpc_library.Binder.History.{registers, run}
use rpc_library.Binder.Terminating.{last_failure, any_overflow}
use rpc_library.Libserver.{Skeleton, ServerDatabase, skeleton_of, set_skeleton, serve_client_thread}
use mathlib.Core.List.{map}
use rpc_library.Message.{raw_message, byte_of_type, int_of_code, binder_connection_error}
use rpc_library.Libserver.Serving.{execute_bytes, answer_execute_runs}
use rpc_library.Libserver.Thread.{
  Exchanged, IsAnswered, received, response_to, thread_answers_in_order,
}
use rpc_library.Rpc.{Network, RpcState, with_binder, rpc_call, rpc_register, rpc_terminate}
use rpc_library.Rpc.Peers.{asks_binder, asks_server}
use rpc_library.Rpc.CopyingBack.{merged}
use rpc_library.Rpc.Calling.{call_reaches_skeleton, call_unknown_is_warning}
use rpc_library.Rpc.Declining.{call_skeleton_fails}
use rpc_library.Rpc.Failing.{call_failed_unchanged}
use rpc_library.Rpc.Registering.{
  registering, register_stores_skeleton, reported, terminate_reports_last_failure,
}

-- An int that is only input, and one that is only output
abbrev call_args : List ℕ
call_args = make_arg_type 2 3 0 ∷ make_arg_type 1 3 0 ∷ []

abbrev sig_call : Signature
sig_call = record {
  function_name = name_f;
  arguments =
      record { dimension = scalar; direction = input; data_type = int }
      ∷ record { dimension = scalar; direction = output; data_type = int }
      ∷ [];
}

signed : signature_of_arg_types name_f (terminated call_args) ≡ ok sig_call
unfolding signature_of_arg_types arguments_of argument_of data_type_of direction_of dimension_of
    get_arg_type number_of_args is_only_input is_only_output is_input_output
signed = refl

call_args-AreArgTypes : AreArgTypes call_args
call_args-AreArgTypes = ((omega arith, omega arith), ((omega arith, omega arith), tt))

abbrev blocks : List (List ℕ)
blocks = (5 ∷ 0 ∷ 0 ∷ 0 ∷ []) ∷ (0 ∷ 0 ∷ 0 ∷ 0 ∷ []) ∷ []

-- The skeleton overwrites both of its arguments.
abbrev outs : List (List ℕ)
outs = (9 ∷ 9 ∷ 9 ∷ 9 ∷ []) ∷ (6 ∷ 0 ∷ 0 ∷ 0 ∷ []) ∷ []

abbrev skeleton : Skeleton
skeleton types args = (0, outs)

fit : BlocksFit call_args blocks × BlocksFit call_args outs
unfolding size_in_bytes get_size_of_arg_type get_arg_type get_arg_length
fit = ((refl, (refl, tt)), (refl, (refl, tt)))

abbrev one_server : BinderDatabase
one_server = run empty_database (registers sig_call server_a ∷ [])

abbrev offers : ServerDatabase
offers = (sig_call, skeleton) ∷ []

-- Every address leads to a server with these skeletons.
abbrev reaches : ServerDatabase → Network
reaches database host port = some (asks_server database)

abbrev client : RpcState
client = record { binder = false; local_server = none; database = [] }

named : (locate_server sig_call one_server).0 ≡ some server_a
unfolding opened
named = refl

offered : skeleton_of sig_call offers ≡ some skeleton
unfolding skeleton_of Signature-discrete ℕ_discrete
offered = refl

-- The input is as it was, the output is the skeleton's.
only_outputs : merged call_args outs blocks ≡ (5 ∷ 0 ∷ 0 ∷ 0 ∷ []) ∷ (6 ∷ 0 ∷ 0 ∷ 0 ∷ []) ∷ []
unfolding is_only_output is_input_output
only_outputs = refl

call_reaches_skeleton_example :
    rpc_call name_f
      (terminated call_args)
      blocks
      true
      (asks_binder second_fails 12 one_server)
      (reaches offers)
      client
    ≡ ok ((0, merged call_args outs blocks), with_binder true client)
call_reaches_skeleton_example =
    call_reaches_skeleton name_f call_args blocks call_args-AreArgTypes sig_call signed fit.0
      (omega arith) one_server server_a named (omega arith) (omega arith) offers (reaches offers)
      refl second_fails 12 true client refl skeleton outs offered refl fit.1 (omega arith)

call_unknown_is_warning_example :
    rpc_call name_f
      (terminated call_args)
      blocks
      true
      (asks_binder second_fails 12 one_server)
      (reaches [])
      client
    ≡ ok ((21, blocks), with_binder true client)
unfolding skeleton_of
call_unknown_is_warning_example =
    call_unknown_is_warning name_f call_args blocks call_args-AreArgTypes sig_call signed fit.0
      (omega arith) one_server server_a named (omega arith) (omega arith) [] (reaches []) refl
      second_fails 12 true client refl refl

unknown_call :
    rpc_call name_f
      (terminated call_args)
      blocks
      true
      (asks_binder second_fails 12 one_server)
      (reaches [])
      client
    ≡ ok ((21, blocks), with_binder true client)
unfolding skeleton_of
unknown_call =
    call_unknown_is_warning name_f call_args blocks call_args-AreArgTypes sig_call signed fit.0
      (omega arith) one_server server_a named (omega arith) (omega arith) [] (reaches []) refl
      second_fails 12 true client refl refl

unknown_nonzero : ◌≡◌ {A = ℕ} 21 0 → ⊥
unknown_nonzero = omega arith

call_failed_unchanged_example : ◌≡◌ {A = List (List ℕ)} blocks blocks
call_failed_unchanged_example =
    call_failed_unchanged name_f (terminated call_args) blocks true
      (asks_binder second_fails 12 one_server) (reaches []) client (with_binder true client) 21
      blocks unknown_call unknown_nonzero

register_stores_skeleton_example :
    (rpc_register name_f
        (terminated call_args)
        skeleton
        (asks_binder second_fails 7 empty_database)
        (registering host_a 5000 [])
      ≡ ok (0, registering host_a 5000 (set_skeleton sig_call skeleton [])))
    × ((k : Signature)
        → skeleton_of k (set_skeleton sig_call skeleton [])
          ≡ ite (Signature-discrete k sig_call) (some skeleton) (skeleton_of k []))
register_stores_skeleton_example =
    register_stores_skeleton host_a 5000 name_f call_args call_args-AreArgTypes (omega arith)
      (omega arith) sig_call signed second_fails 7 empty_database skeleton []

terminate_reports_last_failure_example :
    rpc_terminate true (asks_binder second_fails 12 one_server) client
    ≡ ok (
      if any_overflow second_fails (map server_of one_server.server_to_timestamp)
          then int_of_code binder_connection_error
          else reported (last_failure second_fails one_server.server_to_timestamp),
      with_binder true client,
    )
terminate_reports_last_failure_example =
    terminate_reports_last_failure true second_fails 12 one_server client refl

-- The same call twice over one connection to the server
abbrev exchanged : Exchanged
exchanged = record {
  sent = execute_bytes name_f call_args blocks;
  response = execute_bytes name_f call_args outs;
}

exchanged-IsAnswered : IsAnswered offers exchanged
unfolding raw_message byte_of_type
exchanged-IsAnswered = record {
  executes = refl;
  answered =
      answer_execute_runs name_f call_args blocks call_args-AreArgTypes fit.0 (omega arith) sig_call
        offers signed skeleton outs offered refl fit.1;
}

thread_answers_in_order_example :
    serve_client_thread (map received (exchanged ∷ exchanged ∷ [])) offers
    ≡ ok (map response_to (exchanged ∷ exchanged ∷ []))
thread_answers_in_order_example =
    thread_answers_in_order offers (exchanged ∷ exchanged ∷ [])
      (exchanged-IsAnswered, (exchanged-IsAnswered, tt))

-- The skeleton writes its output, and then reports 256.
abbrev reports_256 : Skeleton
reports_256 types args = (256, outs)

abbrev offers_failing : ServerDatabase
offers_failing = (sig_call, reports_256) ∷ []

offered_failing : skeleton_of sig_call offers_failing ≡ some reports_256
unfolding skeleton_of Signature-discrete ℕ_discrete
offered_failing = refl

call_skeleton_fails_example :
    rpc_call name_f
      (terminated call_args)
      blocks
      true
      (asks_binder second_fails 12 one_server)
      (reaches offers_failing)
      client
    ≡ ok ((0, blocks), with_binder true client)
call_skeleton_fails_example =
    call_skeleton_fails name_f call_args blocks call_args-AreArgTypes sig_call signed fit.0
      (omega arith) one_server server_a named (omega arith) (omega arith) offers_failing
      (reaches offers_failing) refl second_fails 12 true client refl reports_256 256 outs
      offered_failing refl (λ e. omega arith)
