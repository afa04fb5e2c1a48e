-- ===== src/ExamplePrograms/Client.antt =====
-- client_example.cc: `cmp` and `main`. Of what it prints, the texts around the values are left out. The
-- arithmetic of floats is a parameter.
use rpc_library.Common.{
  ℕ, zero, suc, Bool, true, false, not, ◌||◌, List, [], ◌∷◌, ◌++◌, Outcome, ok, fault, undefined,
  assert_that, ◌>>=◌, ◌==◌, if◌then◌else◌,
}
use rpc_library.Arg.{terminated}
use rpc_library.Rpc.{Exchange, Network, RpcState, rpc_call, rpc_terminate}
use rpc_library.ExamplePrograms.{Double, example_name, example_arg_types, double_at}

-- The floats, with the conversion from a double, `+`, `>=` and the value of `eps`, and `>` on doubles
pub record Floats : Type 1 where
  pub Float : Type 0
  pub to_float : Double → Float
  pub plus : Float → Float → Float
  pub geb : Float → Float → Bool
  pub eps : Float
  pub double_gtb : Double → Double → Bool

-- cmp: both 1 and -1 are `true`.
unfoldable pub cmp : (f : Floats) → f.Float → f.Float → Bool
cmp f a b =
    if f.geb (f.plus a f.eps) b then if f.geb (f.plus b f.eps) a then false else true else true

abbrev pub number_0 : Double
number_0 = 0 ∷ 0 ∷ 0 ∷ 0 ∷ 0 ∷ 0 ∷ 0 ∷ 0 ∷ []

-- 1.5, -123.321 and 5.1
abbrev pub old_at_0 : Double
old_at_0 = 0 ∷ 0 ∷ 0 ∷ 0 ∷ 0 ∷ 0 ∷ 248 ∷ 63 ∷ []

abbrev pub old_at_3 : Double
old_at_3 = 6 ∷ 129 ∷ 149 ∷ 67 ∷ 139 ∷ 212 ∷ 94 ∷ 192 ∷ []

abbrev pub old_at_41 : Double
old_at_41 = 102 ∷ 102 ∷ 102 ∷ 102 ∷ 102 ∷ 102 ∷ 20 ∷ 64 ∷ []

-- -9.1234 and 42.45
abbrev pub expected_at_7 : Double
expected_at_7 = 30 ∷ 167 ∷ 232 ∷ 72 ∷ 46 ∷ 63 ∷ 34 ∷ 192 ∷ []

abbrev pub expected_at_41 : Double
expected_at_41 = 154 ∷ 153 ∷ 153 ∷ 153 ∷ 153 ∷ 57 ∷ 69 ∷ 64 ∷ []

abbrev pub doubles_0 : ℕ → List ℕ
doubles_0 zero = []
doubles_0 (suc n) = number_0 ++ doubles_0 n

-- args2 before the call
abbrev pub initial_args2 : List ℕ
initial_args2 = old_at_0 ++ (doubles_0 2 ++ (old_at_3 ++ (doubles_0 37 ++ old_at_41)))

-- arg1 and args2: 'a', and the array
abbrev pub example_args : List (List ℕ)
example_args = (97 ∷ []) ∷ initial_args2 ∷ []

-- 1e-9 and -1e-9
abbrev pub tiny : Double
tiny = 149 ∷ 214 ∷ 38 ∷ 232 ∷ 11 ∷ 46 ∷ 17 ∷ 62 ∷ []

abbrev pub minus_tiny : Double
minus_tiny = 149 ∷ 214 ∷ 38 ∷ 232 ∷ 11 ∷ 46 ∷ 17 ∷ 190 ∷ []

-- The loop that prints the elements from `i` on that are not zero; the other number counts those left.
unfoldable pub nonzero : Floats → ℕ → ℕ → List ℕ → List (ℕ × Double)
nonzero f zero i block = []
nonzero f (suc n) i block =
    let x = double_at i block in
    let rest = nonzero f n (suc i) block in
    if f.double_gtb x tiny || f.double_gtb minus_tiny x then (i, x) ∷ rest else rest

-- What is printed: the status, arg1, and elements of args2
abbrev pub Printed : Type 0
Printed = ℕ × List ℕ × List (ℕ × Double)

abbrev printed : Floats → ℕ → List (List ℕ) → Outcome Printed
printed f ret (arg1 ∷ args2 ∷ rest) = ok (ret, arg1, nonzero f 42 0 args2)
printed f ret _ = fault undefined

-- assert(cmp(args2[i], x) == 0)
abbrev pub assert_equal : Floats → ℕ → List ℕ → Double → Outcome (Unit {0})
assert_equal f i block x = assert_that (not (cmp f (f.to_float (double_at i block)) (f.to_float x)))

-- The asserts on the arguments
unfoldable pub check_args : Floats → List (List ℕ) → Outcome (Unit {0})
check_args f ((letter ∷ more) ∷ args2 ∷ rest) = do
  arg1 ← assert_that (letter == 98)
  at_0 ← assert_equal f 0 args2 old_at_0
  at_3 ← assert_equal f 3 args2 old_at_3
  at_7 ← assert_equal f 7 args2 expected_at_7
  assert_equal f 41 args2 expected_at_41
check_args f _ = fault undefined

-- main: what it prints, and what the arguments hold behind the call
unfoldable pub client_example_main :
    Floats
    → Exchange
    → Exchange
    → Bool
    → Network
    → RpcState
    → Outcome (Printed × List (List ℕ) × RpcState)
client_example_main f locating terminating connects network st = do
  ((ret, args), called) ←
      rpc_call example_name (terminated example_arg_types) example_args connects locating network st
  succeeded ← assert_that (ret == 0)
  shown ← printed f ret args
  expected ← check_args f args
  (ended, last) ← rpc_terminate connects terminating called
  terminated_all ← assert_that (ended == 0)
  ok (shown, args, last)
