-- ===== src/Arg/Counting.antt =====
-- The loops over a zero-terminated array of argument types (arg.cc).
use native.Mathlib.Nat.{add_assoc}
use rpc_library.Common.{
  ℕ, ◌+◌, ◌*◌, ◌%◌, ◌^◌, ◌<◌, ◌≡◌, ◌≢◌, ap, ◌∙◌, List, [], ◌∷◌, ◌++◌, All, length, arith, ok, fault,
  undefined, refl, take-append_self,
}
use rpc_library.Common.Ints.{IsInt, add32}
use rpc_library.Arg.{
  count_args, number_of_args, add_sizes, total_size_of_args, get_arg_type, get_arg_length,
  get_size_of_arg_type, size_in_bytes, IsKnownType,
}
use rpc_library.Arg.Fields.{size_in_bytes_bounds}

count_args-terminated :
    (num : ℕ) (args rest : List ℕ)
    → All (λ t. t ≢ 0) args
    → count_args num (args ++ 0 ∷ rest) ≡ ok (num + length args)
unfolding count_args
count_args-terminated num [] rest h = ground arith
count_args-terminated num (t ∷ ts) rest h =
    ground (arith, count_args-terminated (num + 1) ts rest h.1)

-- The count is that of the elements before the first 0, whatever lies behind it.
pub number_of_args-terminated :
    (args rest : List ℕ)
    → All (λ t. t ≢ 0) args
    → number_of_args (args ++ 0 ∷ rest) ≡ ok (length args)
unfolding number_of_args
number_of_args-terminated args rest h = ground (arith, count_args-terminated 0 args rest h)

count_args_unterminated :
    (num : ℕ) (args : List ℕ) → All (λ t. t ≢ 0) args → count_args num args ≡ fault undefined
unfolding count_args
count_args_unterminated num [] h = refl
count_args_unterminated num (t ∷ ts) h = ground (arith, count_args_unterminated (num + 1) ts h.1)

-- An array with no 0 in it is read past its end.
pub number_of_args_unterminated :
    (args : List ℕ) → All (λ t. t ≢ 0) args → number_of_args args ≡ fault undefined
unfolding number_of_args
number_of_args_unterminated args h = count_args_unterminated 0 args h

-- The sizes of the arguments, added up with no bound.
unfoldable pub sum_sizes : List ℕ → ℕ
sum_sizes [] = 0
sum_sizes (t ∷ ts) = size_in_bytes t + sum_sizes ts

-- Every element is an `int` of a known type, and is not the terminator.
abbrev pub KnownArgs : List ℕ → Type 0
KnownArgs = All λ t. (t ≢ 0) × IsInt t × IsKnownType (get_arg_type t)

KnownArgs-nonzero : (args : List ℕ) → KnownArgs args → All (λ t. t ≢ 0) args
KnownArgs-nonzero [] h = tt
KnownArgs-nonzero (t ∷ ts) h = (h.0.0, KnownArgs-nonzero ts h.1)

add_sizes-sum_sizes :
    (total : ℕ) (args : List ℕ)
    → KnownArgs args
    → total + sum_sizes args < 2 ^ 32
    → add_sizes total args ≡ total + sum_sizes args
unfolding add_sizes sum_sizes
add_sizes-sum_sizes total [] h fits = omega arith
add_sizes-sum_sizes total (t ∷ ts) h fits =
    let (_, _, size) = size_in_bytes_bounds t h.0.1 h.0.2 in
    rw (step size) (
      add_sizes-sum_sizes (total + size_in_bytes t) ts h.1 (omega arith)
      ∙ add_assoc total (size_in_bytes t) (sum_sizes ts))
  where
    step :
        size_in_bytes t ≡ get_size_of_arg_type (get_arg_type t) * get_arg_length t
        → add32 total (get_size_of_arg_type (get_arg_type t) * get_arg_length t % 2 ^ 32)
          ≡ total + size_in_bytes t
    step size = rw (← size) (omega arith)

-- On a terminated array of known types `totalSizeOfArgs` is the sum of the byte counts that the
-- message classes use for the arguments, as long as that sum fits an `int`.
pub total_size_of_args-sum_sizes :
    (args rest : List ℕ)
    → KnownArgs args
    → sum_sizes args < 2 ^ 31
    → total_size_of_args (args ++ 0 ∷ rest) ≡ ok (sum_sizes args)
unfolding total_size_of_args
total_size_of_args-sum_sizes args rest h fits =
    rw
      (
        number_of_args-terminated args rest (KnownArgs-nonzero args h),
        take-append_self args (0 ∷ rest),
        add_sizes-sum_sizes 0 args h (omega arith),
      )
      (ap ok (omega arith))
