-- ===== src/Signature/Arguments.antt =====
-- Single argument types as arguments of a signature (signature.cc).
use rpc_library.Common.{
  ℕ, ◌/◌, ◌%◌, ◌^◌, ◌≤◌, ◌<◌, ◌≡◌, ◌≢◌, ◌↔◌, inl, inr, refl, sym, ◌∙◌, arith, Outcome, ok, ◌==◌,
  fault, undefined, Outcome-cases, >>=-eq-ok, if◌then◌else◌,
}
use rpc_library.Common.Ints.{IsInt}
use rpc_library.Arg.{get_arg_type, is_only_input, is_only_output, is_input_output, IsKnownType}
use rpc_library.Arg.Fields.{sar-top, sar-type}
use rpc_library.Signature.{
  Argument, DataType, InOutBoth, input, output, both, data_type_of, dimension_of, direction_of,
  argument_of,
}

-- An argument type that the protocol allows: nonzero, of a known type, with a direction.
pub record IsArgument (t : ℕ) : Type 0 where
  pub is_int : IsInt t
  pub known : IsKnownType (get_arg_type t)
  pub directed : 2 ^ 30 ≤ t

-- Equal but for the length of an array: the same top bits, the same type, and both or neither of
-- length 0.
pub record Similar (t u : ℕ) : Type 0 where
  pub same_direction : t / 2 ^ 30 ≡ u / 2 ^ 30
  pub same_type : t / 2 ^ 16 % 2 ^ 8 ≡ u / 2 ^ 16 % 2 ^ 8
  pub same_dimension : (t % 2 ^ 16 == 0) ≡ (u % 2 ^ 16 == 0)

direction_of_top : ℕ → Outcome InOutBoth
direction_of_top d =
    if d == 2
    then ok input
    else if d == 1
    then ok output
    else if d == 3
    then ok both
    else fault undefined

direction_of-top : (t : ℕ) → IsInt t → direction_of t ≡ direction_of_top (t / 2 ^ 30)
unfolding direction_of direction_of_top is_only_input is_only_output is_input_output
direction_of-top t h = rw (sar-top t h) refl

get_arg_type-field : (t : ℕ) → get_arg_type t ≡ t / 2 ^ 16 % 2 ^ 8
unfolding get_arg_type
get_arg_type-field t = sar-type t

data_type_of-total : (a : ℕ) → IsKnownType a → (d : DataType) × (data_type_of a ≡ ok d)
unfolding data_type_of
data_type_of-total a h = elim (Outcome-cases (data_type_of a)) [
  | inl found ↦ found
  | inr (e, bad) ↦ absurd (ground arith)
]

direction_of_top-total : (d : ℕ) → 1 ≤ d → d < 4 → (r : InOutBoth) × (direction_of_top d ≡ ok r)
unfolding direction_of_top
direction_of_top-total d lo hi = elim (Outcome-cases (direction_of_top d)) [
  | inl found ↦ found
  | inr (e, bad) ↦ absurd (ground arith)
]

data_type_of-injective :
    (a b : ℕ) (d : DataType) → data_type_of a ≡ ok d → data_type_of b ≡ ok d → a ≡ b
unfolding data_type_of
data_type_of-injective a b d e f = ground arith

direction_of_top-injective :
    (a b : ℕ) (d : InOutBoth) → direction_of_top a ≡ ok d → direction_of_top b ≡ ok d → a ≡ b
unfolding direction_of_top
direction_of_top-injective a b d e f = ground arith

dimension_of-injective :
    (t u : ℕ) → dimension_of t ≡ dimension_of u → (t % 2 ^ 16 == 0) ≡ (u % 2 ^ 16 == 0)
unfolding dimension_of
dimension_of-injective t u e = ground arith

-- The argument of a legal argument type, by its three parts.
pub record Parts (t : ℕ) (a : Argument) : Type 0 where
  pub type_part : data_type_of (get_arg_type t) ≡ ok a.data_type
  pub direction_part : direction_of t ≡ ok a.direction
  pub dimension_part : dimension_of t ≡ a.dimension

argument_of-Parts : (t : ℕ) (a : Argument) → Parts t a → argument_of t ≡ ok a
unfolding argument_of
argument_of-Parts t a p = rw (p.type_part, p.direction_part, p.dimension_part) refl

Parts-argument_of : (t : ℕ) (a : Argument) → argument_of t ≡ ok a → Parts t a
unfolding argument_of
Parts-argument_of t a e =
    let (d, ed, rest) = >>=-eq-ok (data_type_of (get_arg_type t)) _ e in
    let (r, er, whole) = >>=-eq-ok (direction_of t) _ rest in
    record {
      type_part = ed ∙ ground arith;
      direction_part = er ∙ ground arith;
      dimension_part = ground arith;
    }

pub IsArgument-nonzero : (t : ℕ) → IsArgument t → t ≢ 0
IsArgument-nonzero t h = omega (arith, h.directed)

-- A legal argument type has an argument.
pub argument_of-total : (t : ℕ) → IsArgument t → (a : Argument) × (argument_of t ≡ ok a)
argument_of-total t h =
    let (d, ed) = data_type_of-total (get_arg_type t) h.known in
    let (r, er) = direction_of_top-total (t / 2 ^ 30) (omega (arith, h.directed)) (omega arith) in
    let a : Argument = record { dimension = dimension_of t; direction = r; data_type = d } in
    (
      a,
      argument_of-Parts t a (record {
        type_part = ed;
        direction_part = direction_of-top t h.is_int ∙ er;
        dimension_part = refl;
      }),
    )

Similar-Parts : (t u : ℕ) (a : Argument) → IsInt t → IsInt u → Parts t a → Parts u a → Similar t u
Similar-Parts t u a ht hu p q = record {
  same_direction =
      direction_of_top-injective _ _ a.direction (sym (direction_of-top t ht) ∙ p.direction_part)
        (sym (direction_of-top u hu) ∙ q.direction_part);
  same_type =
      sym (get_arg_type-field t)
      ∙ data_type_of-injective _ _ a.data_type p.type_part q.type_part
      ∙ get_arg_type-field u;
  same_dimension = dimension_of-injective t u (p.dimension_part ∙ sym q.dimension_part);
}

Parts-Similar : (t u : ℕ) (a : Argument) → IsInt t → IsInt u → Parts t a → Similar t u → Parts u a
unfolding dimension_of
Parts-Similar t u a ht hu p s = record {
  type_part = rw (get_arg_type-field u, ← s.same_type, ← get_arg_type-field t) p.type_part;
  direction_part =
      direction_of-top u hu
      ∙ rw (← s.same_direction) (sym (direction_of-top t ht) ∙ p.direction_part);
  dimension_part = rw (← s.same_dimension) p.dimension_part;
}

-- For legal argument types: the same argument exactly if similar.
pub argument_of_iff :
    (t u : ℕ) → IsArgument t → IsArgument u → (argument_of t ≡ argument_of u) ↔ Similar t u
argument_of_iff t u ht hu =
    let (a, ea) = argument_of-total t ht in
    let p = Parts-argument_of t a ea in
    (
      λ e. Similar-Parts t u a ht.is_int hu.is_int p (Parts-argument_of u a (sym e ∙ ea)),
      λ s. ea ∙ sym (argument_of-Parts u a (Parts-Similar t u a ht.is_int hu.is_int p s)),
    )
