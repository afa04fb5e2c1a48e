-- ===== src/Arg.antt =====
-- arg.h and arg.cc: the integers that describe the arguments of a remote procedure. An `int` is its
-- bit pattern; an `int*` array is the list of the elements from the pointer to the end of the
-- object, and a read past that end is `fault undefined`.
pub mod Fields
pub mod Counting
use rpc_library.Common.{
  ℕ, ◌+◌, ◌*◌, ◌%◌, ◌^◌, ◌≤◌, Bool, List, [], ◌∷◌, ◌++◌, All, take, Outcome, ok, fault, undefined,
  ◌>>=◌, ◌==◌, if◌then◌else◌, ◌≢◌,
}
use rpc_library.Common.Ints.{IsInt, ℤ, negsuc, pattern_of, add32, sar, to_size_t}

abbrev pub arg_char : ℕ
arg_char = 1

abbrev pub arg_short : ℕ
arg_short = 2

abbrev pub arg_int : ℕ
arg_int = 3

abbrev pub arg_long : ℕ
arg_long = 4

abbrev pub arg_double : ℕ
arg_double = 5

abbrev pub arg_float : ℕ
arg_float = 6

-- (argType >> 16) & ((1<<8)-1)
unfoldable pub get_arg_type : ℕ → ℕ
get_arg_type t = sar t 16 % 2 ^ 8

-- argType & ((1<<16)-1), where 0 counts as 1
unfoldable pub get_arg_length : ℕ → ℕ
get_arg_length t = let len = t % 2 ^ 16 in if len == 0 then 1 else len

-- The sizes are those of an LP64 machine; the default is the `int` -1.
unfoldable pub get_size_of_arg_type : ℕ → ℕ
get_size_of_arg_type type =
    if type == arg_char
    then 1
    else if type == arg_short
    then 2
    else if type == arg_int
    then 4
    else if type == arg_long
    then 8
    else if type == arg_double
    then 8
    else if type == arg_float
    then 4
    else pattern_of (negsuc 0)

count_args : ℕ → List ℕ → Outcome ℕ
count_args num [] = fault undefined
count_args num (t ∷ ts) = if t == 0 then ok num else count_args (num + 1) ts

unfoldable pub number_of_args : List ℕ → Outcome ℕ
unfolding count_args
number_of_args arg_types = count_args 0 arg_types

-- The body of the loop of `totalSizeOfArgs`, over the elements that the loop visits.
add_sizes : ℕ → List ℕ → ℕ
add_sizes total [] = total
add_sizes total (t ∷ ts) =
    add_sizes (add32 total (get_size_of_arg_type (get_arg_type t) * get_arg_length t % 2 ^ 32)) ts

pub total_size_of_args : List ℕ → Outcome ℕ
total_size_of_args arg_types = do
  num ← number_of_args arg_types
  ok (add_sizes 0 (take num arg_types))

unfoldable pub is_only_input : ℕ → Bool
is_only_input t = sar t 30 % 4 == 2

unfoldable pub is_only_output : ℕ → Bool
is_only_output t = sar t 30 % 4 == 1

unfoldable pub is_input_output : ℕ → Bool
is_input_output t = sar t 30 % 4 == 3

-- The number of bytes of an argument as the message classes compute it, in `size_t`.
unfoldable pub size_in_bytes : ℕ → ℕ
unfolding get_size_of_arg_type get_arg_type get_arg_length
size_in_bytes t = to_size_t (get_size_of_arg_type (get_arg_type t)) * get_arg_length t % 2 ^ 64

-- The arrays that the protocol allows: nonzero elements and a closing 0. `args` are those elements.
abbrev pub AreArgTypes : List ℕ → Type 0
AreArgTypes args = All (λ t. (t ≢ 0) × IsInt t) args

abbrev pub terminated : List ℕ → List ℕ
terminated args = args ++ 0 ∷ []

-- The types that `getSizeOfArgType` knows.
abbrev pub IsKnownType : ℕ → Type 0
IsKnownType type = (1 ≤ type) × (type ≤ 6)
