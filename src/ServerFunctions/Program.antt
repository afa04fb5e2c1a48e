-- ===== src/ServerFunctions/Program.antt =====
-- server.c: `main` of the sample server.
use rpc_library.Common.{ℕ, ◌+◌, Bool, List, [], ◌∷◌, Outcome, ok, ◌>>=◌}
use rpc_library.Arg.{terminated}
use rpc_library.Arg.Fields.{make_arg_type}
use rpc_library.Libserver.{Skeleton}
use rpc_library.TcpServer.Creating.{Descriptors, ListenerInput}
use rpc_library.Rpc.{Exchange, RpcState, rpc_register}
use rpc_library.Rpc.Starting.{Environment, Hosts, rpc_init, rpc_execute}

-- "f0" to "f4"
abbrev pub name_of : ℕ → List ℕ
name_of i = 102 ∷ (48 + i) ∷ []

-- argTypes0 to argTypes4, without the zero at the end
abbrev pub arg_types_f0 : List ℕ
arg_types_f0 = make_arg_type 1 3 0 ∷ make_arg_type 2 3 0 ∷ make_arg_type 2 3 0 ∷ []

abbrev pub arg_types_f1 : List ℕ
arg_types_f1 =
    make_arg_type 1 4 0
    ∷ make_arg_type 2 1 0
    ∷ make_arg_type 2 2 0
    ∷ make_arg_type 2 3 0
    ∷ make_arg_type 2 4 0
    ∷ []

abbrev pub arg_types_f2 : List ℕ
arg_types_f2 = make_arg_type 1 1 100 ∷ make_arg_type 2 6 0 ∷ make_arg_type 2 5 0 ∷ []

abbrev pub arg_types_f3 : List ℕ
arg_types_f3 = make_arg_type 3 4 11 ∷ []

abbrev pub arg_types_f4 : List ℕ
arg_types_f4 = make_arg_type 2 1 28 ∷ []

-- f0_Skel to f4_Skel
pub record Skeletons : Type 0 where
  pub for_f0 : Skeleton
  pub for_f1 : Skeleton
  pub for_f2 : Skeleton
  pub for_f3 : Skeleton
  pub for_f4 : Skeleton

-- A call of rpcRegister, with what the connection to the binder does in it
pub record Registration : Type 0 where
  pub name : List ℕ
  pub arg_types : List ℕ
  pub skeleton : Skeleton
  pub exchange : Exchange

-- The calls of rpcRegister, whose results are not read
unfoldable pub register_all : List Registration → RpcState → Outcome RpcState
register_all [] st = ok st
register_all (r ∷ rs) st = do
  (status, st') ← rpc_register r.name (terminated r.arg_types) r.skeleton r.exchange st
  register_all rs st'

abbrev pub registration : List ℕ → List ℕ → Skeleton → Exchange → Registration
registration name arg_types skeleton exchange = record {
  name = name;
  arg_types = arg_types;
  skeleton = skeleton;
  exchange = exchange;
}

-- What the connection to the binder does in the i-th call
abbrev pub Exchanges : Type 0
Exchanges = ℕ → Exchange

unfoldable pub registrations : Skeletons → Exchanges → List Registration
registrations s exchanges =
    registration (name_of 0) arg_types_f0 s.for_f0 (exchanges 0)
    ∷ registration (name_of 1) arg_types_f1 s.for_f1 (exchanges 1)
    ∷ registration (name_of 2) arg_types_f2 s.for_f2 (exchanges 2)
    ∷ registration (name_of 3) arg_types_f3 s.for_f3 (exchanges 3)
    ∷ registration (name_of 4) arg_types_f4 s.for_f4 (exchanges 4)
    ∷ []

-- main, with what rpcExecute returns, which it does not read
unfoldable pub server_main :
    Environment
    → Hosts
    → ListenerInput
    → Skeletons
    → Exchanges
    → Bool
    → ℕ
    → RpcState
    → Descriptors
    → Outcome (ℕ × RpcState)
server_main environment hosts input skeletons exchanges connects served st opened = do
  (status, started, opened') ← rpc_init environment hosts input st opened
  registered ← register_all (registrations skeletons exchanges) started
  rpc_execute connects served registered
