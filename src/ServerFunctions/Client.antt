-- ===== src/ServerFunctions/Client.antt =====
-- client1.c: `main` of the sample client. Of what it prints, the texts around the values are left out.
use rpc_library.Common.{
  ltb, ◌^◌, if◌then◌else◌, ℕ, ◌+◌, Bool, List, [], ◌∷◌, Option, none, some, Outcome, ok, ◌>>=◌,
}
use rpc_library.Arg.{terminated}
use rpc_library.Arg.Fields.{make_arg_type}
use rpc_library.Rpc.{Exchange, Network, RpcState, Returned, rpc_call, rpc_terminate}
use rpc_library.ServerFunctions.Skeletons.{bytes_of, bytes_of_longs}

-- "f0" to "f4"
abbrev pub procedure_name : ℕ → List ℕ
procedure_name i = 102 ∷ (48 + i) ∷ []

-- argTypes0 to argTypes4, without the zero at the end
abbrev pub arg_types0 : List ℕ
arg_types0 = make_arg_type 1 3 0 ∷ make_arg_type 2 3 0 ∷ make_arg_type 2 3 0 ∷ []

abbrev pub arg_types1 : List ℕ
arg_types1 =
    make_arg_type 1 4 0
    ∷ make_arg_type 2 1 0
    ∷ make_arg_type 2 2 0
    ∷ make_arg_type 2 3 0
    ∷ make_arg_type 2 4 0
    ∷ []

abbrev pub arg_types2 : List ℕ
arg_types2 = make_arg_type 1 1 100 ∷ make_arg_type 2 6 0 ∷ make_arg_type 2 5 0 ∷ []

abbrev pub arg_types3 : List ℕ
arg_types3 = make_arg_type 3 4 11 ∷ []

abbrev pub arg_types4 : List ℕ
arg_types4 = make_arg_type 2 1 28 ∷ []

-- The variables: numbers, an array of longs, and what the others hold in memory. `return0` to `return2`
-- have no value before the calls.
pub record Variables : Type 0 where
  pub return0 : List ℕ
  pub a0 : ℕ
  pub b0 : ℕ
  pub return1 : List ℕ
  pub a1 : ℕ
  pub b1 : ℕ
  pub c1 : ℕ
  pub d1 : ℕ
  pub return2 : List ℕ
  pub a2 : ℕ
  pub b2 : ℕ
  pub a3 : List ℕ
  pub a4 : List ℕ

-- args0 to args4
abbrev pub args0 : Variables → List (List ℕ)
args0 v = v.return0 ∷ bytes_of 4 v.a0 ∷ bytes_of 4 v.b0 ∷ []

abbrev pub args1 : Variables → List (List ℕ)
args1 v = v.return1 ∷ bytes_of 1 v.a1 ∷ bytes_of 2 v.b1 ∷ bytes_of 4 v.c1 ∷ bytes_of 8 v.d1 ∷ []

abbrev pub args2 : Variables → List (List ℕ)
args2 v = v.return2 ∷ bytes_of 4 v.a2 ∷ bytes_of 8 v.b2 ∷ []

abbrev pub args3 : Variables → List (List ℕ)
args3 v = bytes_of_longs v.a3 ∷ []

abbrev pub args4 : Variables → List (List ℕ)
args4 v = v.a4 ∷ []

-- A call of rpcCall, with what the connection to the binder does in it
pub record Call : Type 0 where
  pub name : List ℕ
  pub arg_types : List ℕ
  pub args : List (List ℕ)
  pub exchange : Exchange

-- The calls in order: their statuses, and what their arguments hold
unfoldable pub call_all : List Call → Bool → Network → RpcState → Outcome (List Returned × RpcState)
call_all [] connects network st = ok ([], st)
call_all (c ∷ cs) connects network st = do
  (returned, st') ← rpc_call c.name (terminated c.arg_types) c.args connects c.exchange network st
  (rest, last) ← call_all cs connects network st'
  ok (returned ∷ rest, last)

abbrev pub call_of : List ℕ → List ℕ → List (List ℕ) → Exchange → Call
call_of name arg_types args exchange = record {
  name = name;
  arg_types = arg_types;
  args = args;
  exchange = exchange;
}

unfoldable pub calls : Variables → (ℕ → Exchange) → List Call
calls v exchanges =
    call_of (procedure_name 0) arg_types0 (args0 v) (exchanges 0)
    ∷ call_of (procedure_name 1) arg_types1 (args1 v) (exchanges 1)
    ∷ call_of (procedure_name 2) arg_types2 (args2 v) (exchanges 2)
    ∷ call_of (procedure_name 3) arg_types3 (args3 v) (exchanges 3)
    ∷ call_of (procedure_name 4) arg_types4 (args4 v) (exchanges 4)
    ∷ []

-- rpcTerminate, if the user wants to; its status is not read.
unfoldable pub maybe_terminate : Bool → Option Exchange → RpcState → Outcome RpcState
maybe_terminate connects none st = ok st
maybe_terminate connects (some exchange) st = do
  (status, st') ← rpc_terminate connects exchange st
  ok st'

-- What is printed behind a call: the value of the first argument, or the status
pub data Report : Type 0 where
  actual : List ℕ → Report
  error : ℕ → Report
  status_only : ℕ → Report

abbrev report : Returned → Report
report (status, block ∷ args) = if ltb status (2 ^ 31) then actual block else error status
report (status, []) = error status

-- Behind the last call, of f4, its status is printed whatever it is.
abbrev pub reports : List Returned → List Report
reports [] = []
reports ((status, args) ∷ []) = status_only status ∷ []
reports (r ∷ rs) = report r ∷ reports rs

-- main: what it prints and what the calls returned
unfoldable pub client_main :
    Variables
    → (ℕ → Exchange)
    → Option Exchange
    → Bool
    → Network
    → RpcState
    → Outcome (List Report × List Returned × RpcState)
client_main v exchanges terminates connects network st = do
  (returned, called) ← call_all (calls v exchanges) connects network st
  last ← maybe_terminate connects terminates called
  ok (reports returned, returned, last)
