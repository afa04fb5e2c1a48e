-- ===== src/ExamplePrograms.antt =====
-- What client_example.cc and server_example.cc share: the procedure that one calls and the other offers,
-- and doubles in memory.
pub mod Server
pub mod Client
pub mod Passing
use rpc_library.Common.{
  ℕ, zero, suc, ◌+◌, ◌*◌, ◌^◌, Bool, List, [], ◌∷◌, ◌++◌, length, take, drop, Outcome, ok, fault,
  undefined, ltb, if◌then◌else◌,
}
use rpc_library.Arg.Fields.{make_arg_type}

-- "my_function123"
abbrev pub example_name : List ℕ
example_name = 109 ∷ 121 ∷ 95 ∷ 102 ∷ 117 ∷ 110 ∷ 99 ∷ 116 ∷ 105 ∷ 111 ∷ 110 ∷ 49 ∷ 50 ∷ 51 ∷ []

-- arg_types, without the zero at the end
abbrev pub example_arg_types : List ℕ
example_arg_types = make_arg_type 1 1 0 ∷ make_arg_type 3 5 42 ∷ []

-- `ret >= 0`
abbrev pub is_not_negative : ℕ → Bool
is_not_negative ret = ltb ret (2 ^ 31)

-- The bytes of a double
abbrev pub Double : Type 0
Double = List ℕ

-- args2[i], of an array in memory
abbrev pub double_at : ℕ → List ℕ → Double
double_at i block = take 8 (drop (8 * i) block)

-- args2[i] = x
unfoldable pub set_double : ℕ → Double → List ℕ → Outcome (List ℕ)
set_double i x block =
    let end = 8 * i + length x in
    if ltb (length block) end
    then fault undefined
    else ok (take (8 * i) block ++ (x ++ drop end block))
