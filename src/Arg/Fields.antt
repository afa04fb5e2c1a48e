-- ===== src/Arg/Fields.antt =====
-- The three fields of an argument type (arg.cc), against the way in which callers put one together:
-- `(direction << 30) | (type << 16) | length`.
use rpc_library.Common.{
  ℕ, ◌+◌, ◌*◌, ◌/◌, ◌%◌, ◌^◌, ◌≤◌, ◌<◌, ◌≡◌, arith, ◌==◌, if◌then◌else◌, refl, ap, ◌∙◌,
}
use rpc_library.Common.Ints.{IsInt, sar}
use rpc_library.Arg.{
  get_arg_type, get_arg_length, get_size_of_arg_type, is_only_input, is_only_output,
  is_input_output, size_in_bytes, IsKnownType,
}

abbrev pub make_arg_type : ℕ → ℕ → ℕ → ℕ
make_arg_type direction type len = direction * 2 ^ 30 + type * 2 ^ 16 + len

-- The arithmetic shift and the mask, as a division of the bit pattern.
pub sar-top : (t : ℕ) → IsInt t → sar t 30 % 4 ≡ t / 2 ^ 30
sar-top t h = ground arith

pub sar-type : (t : ℕ) → sar t 16 % 2 ^ 8 ≡ t / 2 ^ 16 % 2 ^ 8
sar-type t = ground arith

make_arg_type-IsInt :
    (direction type len : ℕ)
    → direction < 4
    → type < 2 ^ 8
    → len < 2 ^ 16
    → IsInt (make_arg_type direction type len)
make_arg_type-IsInt direction type len hd ht hl = omega arith

-- Each accessor reads back the field that it names, whatever the other fields hold, the sign bit
-- included; the length 0 of a scalar reads as 1.
pub accessors-make_arg_type :
    (direction type len : ℕ)
    → direction < 4
    → type < 2 ^ 8
    → len < 2 ^ 16
    → let t = make_arg_type direction type len in
      (get_arg_type t ≡ type)
      × (get_arg_length t ≡ (if len == 0 then 1 else len))
      × (is_only_input t ≡ (direction == 2))
      × (is_only_output t ≡ (direction == 1))
      × (is_input_output t ≡ (direction == 3))
unfolding get_arg_type get_arg_length is_only_input is_only_output is_input_output
accessors-make_arg_type direction type len hd ht hl =
    let t = make_arg_type direction type len in
    let top : sar t 30 % 4 ≡ direction =
      sar-top t (make_arg_type-IsInt direction type len hd ht hl) ∙ omega arith in
    (
      sar-type t ∙ omega arith,
      rw len_field refl,
      ap (λ (d : ℕ). d == 2) top,
      ap (λ (d : ℕ). d == 1) top,
      ap (λ (d : ℕ). d == 3) top,
    )
  where
    len_field : make_arg_type direction type len % 2 ^ 16 ≡ len
    len_field = omega arith

-- An `int` of a known type announces at least one byte and at most 8 * 65535, and the product of
-- the element size and the length does not wrap.
pub size_in_bytes_bounds :
    (t : ℕ)
    → IsInt t
    → IsKnownType (get_arg_type t)
    → (1 ≤ size_in_bytes t)
      × (size_in_bytes t ≤ 8 * 65535)
      × (size_in_bytes t ≡ get_size_of_arg_type (get_arg_type t) * get_arg_length t)
unfolding size_in_bytes
size_in_bytes_bounds t h k = ground arith
