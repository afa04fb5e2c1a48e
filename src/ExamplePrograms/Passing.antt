-- ===== src/ExamplePrograms/Passing.antt =====
-- server_example.cc and client_example.cc against each other, through the binder.
use native.Mathlib.Decide.{ℕ_discrete}
use rpc_library.Common.{
  ℕ, ◌+◌, ◌^◌, ◌<◌, ◌≡◌, refl, Bool, true, false, List, [], ◌∷◌, ◌++◌, length, none, some, ok,
  fault, aborted, ◌>>=◌, All, arith,
}
use rpc_library.Common.Ints.{IsInt}
use rpc_library.Arg.{
  terminated, get_arg_type, get_arg_length, is_only_input, is_only_output, is_input_output,
  number_of_args, size_in_bytes, get_size_of_arg_type,
}
use rpc_library.Signature.{
  Signature, output, both, char, double, signature_of_arg_types, arguments_of, argument_of,
  data_type_of, direction_of, dimension_of,
}
use rpc_library.Messages.ExecuteRoundTrip.{BlocksFit}
use rpc_library.Binder.Server.{ServerData}
use rpc_library.Binder.Database.{BinderDatabase, locate_server, Signature-discrete}
use rpc_library.Binder.Terminating.{Reply, last_failure, confirmed-any_overflow}
use rpc_library.Libserver.{Skeleton, ServerDatabase, skeleton_of, set_skeleton}
use rpc_library.TcpServer.Creating.{Descriptors, ListenerInput}
use rpc_library.Rpc.{Network, RpcState, with_binder}
use rpc_library.Rpc.Peers.{asks_binder, asks_server}
use rpc_library.Rpc.Starting.{Environment, Hosts, rpc_init, rpc_execute}
use rpc_library.Rpc.Executing.{unstarted}
use rpc_library.Rpc.Registering.{
  registering, register_stores_skeleton, terminate_reports_last_failure,
}
use rpc_library.ServerFunctions.Skeletons.{Implements, store, bytes_of}
use rpc_library.ServerFunctions.Offering.{Offer, IsOffer, IsOffered, one, many, is_offer}
use rpc_library.ServerFunctions.Fitting.{sizes}
use rpc_library.ServerFunctions.Results.{offer_called}
use rpc_library.ExamplePrograms.{Double, example_name, example_arg_types, set_double}
use rpc_library.ExamplePrograms.Server.{function_impl, ExampleSkeletons, server_example_main}
use rpc_library.ExamplePrograms.Client.{
  Floats, cmp, old_at_0, old_at_3, expected_at_7, expected_at_41, doubles_0, example_args,
  check_args, nonzero, client_example_main,
}

abbrev pub example_sig : Signature
example_sig = record {
  function_name = example_name;
  arguments = one output char ∷ many both double ∷ [];
}

abbrev pub example_offer : Skeleton → Offer
example_offer f = record {
  name = example_name;
  args = example_arg_types;
  sig = example_sig;
  skeleton = f;
}

example_offer-IsOffer : (f : Skeleton) → IsOffer (example_offer f)
unfolding signature_of_arg_types arguments_of argument_of data_type_of direction_of dimension_of
    get_arg_type number_of_args is_only_input is_only_output is_input_output get_arg_length
example_offer-IsOffer f =
    is_offer _ _ _ f ((omega arith, omega arith), ((omega arith, omega arith), tt)) (omega arith)
      refl

example_registered :
    (f g : Skeleton)
    → skeleton_of example_sig (set_skeleton example_sig g (set_skeleton example_sig f [])) ≡ some g
unfolding skeleton_of set_skeleton Signature-discrete ℕ_discrete
example_registered f g = refl

-- If rpcInit returns 0, and the binder answers the two registrations, from whatever its database is at
-- each of them, then `main` of server_example.cc serves, with function_impl under the signature that it
-- registered `bad` for first. No assert fails if the TerminateSuccess with which `serve` ends is sent; if
-- it is not sent, then rpcExecute returns a negative status and the last assert fails.
pub server_example_serves_impl :
    (environment : Environment) (hosts : Hosts) (kernel : ListenerInput) (s : ExampleSkeletons)
    (replies : ServerData → Reply) (client : ℕ) (before between : BinderDatabase) (connects : Bool)
    (opened opened' : Descriptors) (host : List ℕ) (port : ℕ)
    → rpc_init environment hosts kernel (unstarted []) opened
      ≡ ok (0, registering host port [], opened')
    → IsInt port
    → length host < 2 ^ 30
    → (st : RpcState) × (server_example_main environment hosts kernel s
          (asks_binder replies client before)
          (asks_binder replies client between)
          connects
          true
          (unstarted [])
          opened
        ≡ ok st)
      × (server_example_main environment hosts kernel s
            (asks_binder replies client before)
            (asks_binder replies client between)
            connects
            false
            (unstarted [])
            opened
          ≡ fault aborted)
      × (skeleton_of example_sig st.database ≡ some s.for_impl)
unfolding server_example_main rpc_execute
server_example_serves_impl environment hosts kernel s replies client before between connects opened
      opened' host port started is_int fits =
    let offer = example_offer-IsOffer s.for_bad in
    let registers = λ (db : BinderDatabase).
      register_stores_skeleton host port example_name example_arg_types offer.valid is_int
        (omega arith) example_sig offer.signed replies client db in
    let twice = (registers between s.for_impl (set_skeleton example_sig s.for_bad [])).0 in
    let once = (registers before s.for_bad []).0 in
    (
      registering host port
          (set_skeleton example_sig s.for_impl (set_skeleton example_sig s.for_bad [])),
      rw (started, ◌>>=◌, once, ◌>>=◌, twice, ◌>>=◌) refl,
      rw (started, ◌>>=◌, once, ◌>>=◌, twice, ◌>>=◌) refl,
      example_registered s.for_bad s.for_impl,
    )

-- The arguments behind the call
abbrev pub expected_args2 : List ℕ
expected_args2 =
    old_at_0
    ++ (doubles_0 2
        ++ (old_at_3 ++ (doubles_0 3 ++ (expected_at_7 ++ (doubles_0 33 ++ expected_at_41)))))

abbrev pub expected_args : List (List ℕ)
expected_args = (98 ∷ []) ∷ expected_args2 ∷ []

function_impl-expected_args :
    function_impl (terminated example_arg_types) example_args ≡ ok (0, expected_args)
unfolding function_impl store set_double bytes_of
function_impl-expected_args = refl

example_args-BlocksFit :
    BlocksFit example_arg_types example_args × BlocksFit example_arg_types expected_args
unfolding size_in_bytes get_size_of_arg_type get_arg_type get_arg_length
example_args-BlocksFit = ((refl, (refl, tt)), (refl, (refl, tt)))

example_args_light : sizes example_arg_types < 2 ^ 20
unfolding size_in_bytes get_size_of_arg_type get_arg_type get_arg_length
example_args_light = omega arith

-- A float is at most itself and `eps`.
abbrev pub CountsUp : Floats → Double → Type 0
CountsUp f x = f.geb (f.plus (f.to_float x) f.eps) (f.to_float x) ≡ true

cmp_itself : (f : Floats) (x : Double) → CountsUp f x → cmp f (f.to_float x) (f.to_float x) ≡ false
unfolding cmp
cmp_itself f x up = rw up refl

args_checked :
    (f : Floats)
    → All (CountsUp f) (old_at_0 ∷ old_at_3 ∷ expected_at_7 ∷ expected_at_41 ∷ [])
    → check_args f expected_args ≡ ok tt
unfolding check_args
args_checked f (up0, (up3, (up7, (up41, u)))) =
    rw
      (
        cmp_itself f old_at_0 up0,
        cmp_itself f old_at_3 up3,
        cmp_itself f expected_at_7 up7,
        cmp_itself f expected_at_41 up41,
      )
      refl

-- If a server offers the procedure of the examples with a skeleton that does what function_impl does, the
-- binder names it and both can be reached, and every server confirms the termination, then no assert of
-- client_example.cc fails: behind the call arg1 is 'b', args2 has the two new elements and is otherwise as
-- it was, and its elements beyond 1e-9 and -1e-9 are printed; the sum of each float that is compared and `eps` is at least that float.
pub client_example_passes :
    (f : Floats) (impl : Skeleton) (s : ServerData) (database : ServerDatabase) (network : Network)
    (replies : ServerData → Reply) (client : ℕ) (db later : BinderDatabase) (own : ServerDatabase)
    → All (CountsUp f) (old_at_0 ∷ old_at_3 ∷ expected_at_7 ∷ expected_at_41 ∷ [])
    → Implements function_impl impl
    → skeleton_of example_sig database ≡ some impl
    → (locate_server example_sig db).0 ≡ some s
    → IsInt s.server_port
    → length s.server_hostname + 9 < 2 ^ 31
    → network s.server_hostname s.server_port ≡ some (asks_server database)
    → last_failure replies later.server_to_timestamp ≡ none
    → client_example_main f
        (asks_binder replies client db)
        (asks_binder replies client later)
        true
        network
        (unstarted own)
      ≡ ok (
        (0, 98 ∷ [], nonzero f 42 0 expected_args2),
        (98 ∷ []) ∷ expected_args2 ∷ [],
        with_binder true (unstarted own),
      )
unfolding client_example_main IsOffered is_only_output is_input_output
client_example_passes f impl s database network replies client db later own up implements offered
      named port host there confirmed =
    let (before, behind) = example_args-BlocksFit in
    let st : RpcState = unstarted own in
    rw
      (
        offer_called s port host database network there replies client (example_offer impl)
            (example_offer-IsOffer impl) offered db named example_args before example_args_light st
            refl expected_args (implements _ _ _ function_impl-expected_args) behind,
        ◌>>=◌,
        args_checked f up,
        ◌>>=◌,
        terminate_reports_last_failure true replies client later (with_binder true st) refl,
        ◌>>=◌,
        confirmed-any_overflow replies later.server_to_timestamp confirmed,
        confirmed,
      )
      refl
