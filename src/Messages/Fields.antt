-- ===== src/Messages/Fields.antt =====
-- Steps that several message classes take (locate_messages.{h,cc}, register_messages.{h,cc},
-- execute_messages.{h,cc}): copying an array of argument types, and its part of the wire format.
use native.Mathlib.Nat.{mod-eq_of_lt}
use rpc_library.Common
use rpc_library.Common.{
  ℕ, ◌+◌, ◌-◌, ◌*◌, ◌%◌, ◌^◌, ◌<◌, ◌≡◌, refl, ap, List, [], ◌∷◌, ◌++◌, All, All-imp, append-nil,
  length, length-append, take, Outcome, ok, fault, take-append_self, arith,
}
use rpc_library.Arg.{number_of_args, AreArgTypes, terminated}
use rpc_library.Arg.Counting.{number_of_args-terminated}
use rpc_library.Wire.{
  encode_integer, encode_integers, decode_integer, decode_integers, check_num_args,
}
use rpc_library.Wire.Cursor.{Reader, lift, ◌>>=◌, ◌>>◌}
use rpc_library.Wire.Fields.{Decodes, Decodes-bind, Decodes-lift}
use rpc_library.Wire.RoundTrip.{decode_integer-encode_integer, decode_integers-encode_integers}

-- The constructors copy the elements up to the first 0, and a 0.
unfoldable pub copy_arg_types : List ℕ → Outcome (List ℕ)
copy_arg_types arg_types =
    Common.◌>>=◌ (number_of_args arg_types) λ num_args. ok (take num_args arg_types ++ 0 ∷ [])

-- encode_integer(num_args), and the loop over the array
unfoldable pub encode_arg_types : List ℕ → Outcome (List ℕ)
encode_arg_types arg_types =
    Common.◌>>=◌ (number_of_args arg_types) λ num_args.
      ok (encode_integer (num_args % 2 ^ 32) ++ encode_integers (take num_args arg_types))

-- num_args, the allocation, and the loop; `arg_types[num_args] = 0` is left to the callers
unfoldable pub decode_arg_types : Reader (List ℕ)
decode_arg_types = do
  num_args ← decode_integer
  lift (check_num_args num_args)
  decode_integers num_args

-- What `encode_arg_types` writes for a well-formed array.
abbrev pub type_fields : List ℕ → List ℕ
type_fields args = encode_integer (length args % 2 ^ 32) ++ encode_integers args

length-encode_integers : (ts : List ℕ) → length (encode_integers ts) ≡ 4 * length ts
unfolding encode_integers encode_integer
length-encode_integers [] = refl
length-encode_integers (t ∷ ts) = omega (arith, length-encode_integers ts)

length-encode_integer : (x : ℕ) → length (encode_integer x) ≡ 4
unfolding encode_integer
length-encode_integer x = refl

pub length-type_fields : (args : List ℕ) → length (type_fields args) ≡ 4 * length args + 4
length-type_fields args = omega (
  arith,
  length-append (encode_integer (length args % 2 ^ 32)) (encode_integers args),
  length-encode_integer (length args % 2 ^ 32),
  length-encode_integers args,
)

module _ (args : List ℕ) (valid : AreArgTypes args) where
  counted : (rest : List ℕ) → number_of_args (args ++ 0 ∷ rest) ≡ ok (length args)
  counted rest = number_of_args-terminated args rest (All-imp (λ t h. h.0) args valid)

  -- A constructor's copy of a well-formed array is that array, without what lies behind it.
  pub copy_arg_types-terminated :
      (rest : List ℕ) → copy_arg_types (args ++ 0 ∷ rest) ≡ ok (terminated args)
  unfolding copy_arg_types
  copy_arg_types-terminated rest = rw (counted rest, take-append_self args (0 ∷ rest)) refl

  pub encode_arg_types-terminated : encode_arg_types (terminated args) ≡ ok (type_fields args)
  unfolding encode_arg_types
  encode_arg_types-terminated = rw (counted [], take-append_self args (0 ∷ [])) refl

  -- The elements are read back.
  pub decode_arg_types-Decodes :
      length args < 2 ^ 31 - 1 → Decodes decode_arg_types (type_fields args) args
  unfolding decode_arg_types check_num_args
  decode_arg_types-Decodes h = rw (mod-eq_of_lt small) (
      Decodes-bind _ (encode_integer (length args)) (encode_integers args) (length args) args
        (decode_integer-encode_integer (length args) small)
        (Decodes-lift _ (encode_integers args) tt args allocated
          (decode_integers-encode_integers args (All-imp (λ t h. h.1) args valid))))
    where
      small : length args < 2 ^ 32
      small = omega arith

      allocated : check_num_args (length args) ≡ ok tt
      allocated = ground arith

abbrev pub result_of : {A : Type 0} → Outcome (A × ℕ) → Outcome A
result_of (ok (a, pos)) = ok a
result_of (fault e) = fault e

-- `deserialize` of every class: the string of the raw message, read from behind the type.
unfoldable pub read_message : {A : Type 0} → Reader A → List ℕ → Outcome A
read_message r buffer = result_of (r buffer 1)

pub read_message-Decodes :
    {A : Type 0} {r : Reader A} (type : ℕ) (bytes : List ℕ) (a : A)
    → length bytes < 2 ^ 31 - 1
    → Decodes r bytes a
    → read_message r (type ∷ bytes) ≡ ok a
unfolding read_message
read_message-Decodes {r} type bytes a h d =
    ap result_of
      (rw (append-nil bytes) at (d.at (type ∷ []) [] (omega (arith, length-append bytes []))))
