-- ===== src/Signature.antt =====
-- signature.h and signature.cc: what identifies a remote procedure.
pub mod Arguments
pub mod Equality
use rpc_library.Common.{
  ℕ, ◌%◌, ◌^◌, Bool, List, [], ◌∷◌, take, Outcome, ok, fault, undefined, ◌>>=◌, ◌==◌, if◌then◌else◌,
}
use rpc_library.Arg.{
  arg_char, arg_short, arg_int, arg_long, arg_double, arg_float, get_arg_type, number_of_args,
  is_only_input, is_only_output, is_input_output,
}

pub data ScalarOrArray : Type 0 where
  scalar array : ScalarOrArray

pub data InOutBoth : Type 0 where
  input output both : InOutBoth

pub data DataType : Type 0 where
  char short int long double float : DataType

pub record Argument : Type 0 where
  pub dimension : ScalarOrArray
  pub direction : InOutBoth
  pub data_type : DataType

pub record Signature : Type 0 where
  pub function_name : List ℕ
  pub arguments : List Argument

-- The switch leaves `data_type` with no value on any other type, and it is then used.
unfoldable pub data_type_of : ℕ → Outcome DataType
data_type_of type =
    if type == arg_char
    then ok char
    else if type == arg_short
    then ok short
    else if type == arg_int
    then ok int
    else if type == arg_long
    then ok long
    else if type == arg_double
    then ok double
    else if type == arg_float
    then ok float
    else fault undefined

unfoldable pub dimension_of : ℕ → ScalarOrArray
dimension_of t = if t % 2 ^ 16 == 0 then scalar else array

-- With neither bit set `direction` has no value, and it is then used.
unfoldable pub direction_of : ℕ → Outcome InOutBoth
direction_of t =
    if is_only_input t
    then ok input
    else if is_only_output t
    then ok output
    else if is_input_output t
    then ok both
    else fault undefined

-- The body of the loop
unfoldable pub argument_of : ℕ → Outcome Argument
argument_of t = do
  data_type ← data_type_of (get_arg_type t)
  direction ← direction_of t
  ok (record { dimension = dimension_of t; direction = direction; data_type = data_type })

unfoldable pub arguments_of : List ℕ → Outcome (List Argument)
arguments_of [] = ok []
arguments_of (t ∷ ts) = do argument ← argument_of t; rest ← arguments_of ts; ok (argument ∷ rest)

unfoldable pub signature_of_arg_types : List ℕ → List ℕ → Outcome Signature
signature_of_arg_types function_name arg_types = do
  num_args ← number_of_args arg_types
  arg_list ← arguments_of (take num_args arg_types)
  ok (record { function_name = function_name; arguments = arg_list })
