-- ===== src/ExamplePrograms/Server.antt =====
-- server_example.cc: the two functions and `main`. The texts that are printed are left out.
use rpc_library.Common.{
  ℕ, Bool, List, [], ◌∷◌, Outcome, ok, fault, undefined, aborted, assert_that, ◌>>=◌,
}
use rpc_library.Arg.{terminated}
use rpc_library.Libserver.{Skeleton}
use rpc_library.TcpServer.Creating.{Descriptors, ListenerInput}
use rpc_library.Libserver.Threads.{status_of}
use rpc_library.Rpc.{Exchange, RpcState, rpc_register}
use rpc_library.Rpc.Starting.{Environment, Hosts, rpc_init, rpc_execute}
use rpc_library.ServerFunctions.Skeletons.{Running, store}
use rpc_library.ExamplePrograms.{
  Double, example_name, example_arg_types, is_not_negative, set_double,
}

-- -9.1234 and 42.45
abbrev pub new_at_7 : Double
new_at_7 = 30 ∷ 167 ∷ 232 ∷ 72 ∷ 46 ∷ 63 ∷ 34 ∷ 192 ∷ []

abbrev pub new_at_41 : Double
new_at_41 = 154 ∷ 153 ∷ 153 ∷ 153 ∷ 153 ∷ 57 ∷ 69 ∷ 64 ∷ []

-- assert(false)
unfoldable pub bad : List ℕ → List (List ℕ) → Running
bad types args = fault aborted

-- 'b' goes to the char, and two doubles into the array.
unfoldable pub function_impl : List ℕ → List (List ℕ) → Running
function_impl types (arg1 ∷ args2 ∷ rest) = do
  letter ← store 1 98 arg1
  one ← set_double 7 new_at_7 args2
  both ← set_double 41 new_at_41 one
  ok (0, letter ∷ both ∷ rest)
function_impl types _ = fault undefined

-- The pointers to the two functions
pub record ExampleSkeletons : Type 0 where
  pub for_bad : Skeleton
  pub for_impl : Skeleton

-- main, with what the connection to the binder does in the two registrations, whether each client can
-- connect, and whether the TerminateSuccess with which `serve` ends is sent
unfoldable pub server_example_main :
    Environment
    → Hosts
    → ListenerInput
    → ExampleSkeletons
    → Exchange
    → Exchange
    → Bool
    → Bool
    → RpcState
    → Descriptors
    → Outcome RpcState
server_example_main environment hosts input s first second connects sent st opened = do
  (status, started, opened') ← rpc_init environment hosts input st opened
  initialized ← assert_that (is_not_negative status)
  (unread, with_bad) ←
      rpc_register example_name (terminated example_arg_types) s.for_bad first started
  (ret, with_impl) ←
      rpc_register example_name (terminated example_arg_types) s.for_impl second with_bad
  registered ← assert_that (is_not_negative ret)
  (executed, last) ← rpc_execute connects (status_of sent) with_impl
  finished ← assert_that (is_not_negative executed)
  ok last
