-- ===== src/Message/Memory/Values.antt =====
-- RawMessages (message.cc) behave as values: as lists of bytes that nothing else can change.
use mathlib.Core.Path.{fun_ext, ap₂}
use rpc_library.Common.{
  ℕ, ◌≡◌, refl, sym, ◌∙◌, ap, false, List, [], ◌∷◌, length, take-length, Option, none, some, ok,
  ◌>>=◌, ltb, ◌==◌, Bool-cases, Option-cases, inl, inr, arith,
}
use rpc_library.Message.{MessageType, extract_message_type}
use rpc_library.Message.Memory.{
  Held, Blocks, put, copy_buffer, construct, copy_message, delete_message, Memory, MessageEvent,
  constructs, copies, assigns, destroys, object_at, message_step,
}
use rpc_library.Message.Memory.Ownership.{
  IsOwned, held_at, adopt, release, put_here, put_there, other_place, adopt-IsOwned, left,
  release-IsOwned,
}

-- What is in a variable of type RawMessage, if it has begun and not ended
abbrev pub Values : Type 0
Values = ℕ → Option (List ℕ)

abbrev pub values_of : Memory → Values
values_of mem i = elim (mem.objects i) [ none ↦ none | some m ↦ mem.blocks m.address ]

-- The events on values
abbrev pub value_step : Values → MessageEvent → Values
value_step v (constructs i address bytes) = put i (some bytes) v
value_step v (copies i other address) = put i (v other) v
value_step v (assigns i other address) = put i (v other) v
value_step v (destroys i) = put i none v

abbrev pub value_run : Values → List MessageEvent → Values
value_run v [] = v
value_run v (e ∷ es) = value_run (value_step v e) es

abbrev pub IsAlive : Memory → ℕ → Type 0
IsAlive mem i = (m : Held) × (mem.objects i ≡ some m)

-- An object begins once, and is used while it is alive; `new` gives an address where nothing is.
abbrev pub IsAllowed : Memory → MessageEvent → Type 0
IsAllowed mem (constructs i address bytes) = (mem.objects i ≡ none) × (mem.blocks address ≡ none)
IsAllowed mem (copies i other address) =
    (mem.objects i ≡ none) × (mem.blocks address ≡ none) × IsAlive mem other
IsAllowed mem (assigns i other address) =
    (mem.blocks address ≡ none) × IsAlive mem i × IsAlive mem other
IsAllowed mem (destroys i) = IsAlive mem i

pub put_swap :
    {A : Type 0} (x y : ℕ) (a b : A) (f : ℕ → A)
    → (x == y) ≡ false
    → put x a (put y b f) ≡ put y b (put x a f)
put_swap x y a b f h = fun_ext (λ z. ground (arith, h))

pub put_twice : {A : Type 0} (x : ℕ) (a b : A) (f : ℕ → A) → put x a (put x b f) ≡ put x a f
put_twice x a b f = fun_ext (λ z. ground arith)

pub put_same : {A : Type 0} (x : ℕ) (f : ℕ → A) → put x (f x) f ≡ f
put_same x f = fun_ext (λ z. elim (Bool-cases (z == x)) [
  | inl same ↦ rw same (let e : x ≡ z = ground (arith, same) in ap f e)
  | inr other ↦ rw other refl
])

pub memory_eq :
    (b b' : Blocks) (o o' : ℕ → Option Held)
    → b ≡ b'
    → o ≡ o'
    → ◌≡◌ {A = Memory} (record { blocks = b; objects = o }) (record { blocks = b'; objects = o' })
memory_eq b b' o o' e e' =
    ap₂ (λ (x : Blocks) (y : ℕ → Option Held). record { blocks = x; objects = y }) e e'

copied_from :
    (a address size : ℕ) (type : MessageType) (bytes : List ℕ) (blocks : Blocks)
    → blocks address ≡ some bytes
    → size ≡ length bytes
    → type ≡ extract_message_type bytes
    → copy_message a (record { address = address; size = size; type = type }) blocks
      ≡ ok (held_at a bytes, put a (some bytes) blocks)
unfolding copy_message copy_buffer
copied_from a address size type bytes blocks there whole kind =
    let fits : ltb (length bytes) (length bytes) ≡ false = ground arith in
    rw (copy_message, copy_buffer, there, whole, kind, fits, take-length bytes) refl

module _ (mem : Memory) (o : IsOwned mem) where
  pub values-adopt :
      (i a : ℕ) (bytes : List ℕ)
      → mem.objects i ≡ none
      → mem.blocks a ≡ none
      → values_of (adopt i a bytes mem) ≡ put i (some bytes) (values_of mem)
  values-adopt i a bytes unused free = fun_ext (λ j. elim (Bool-cases (j == i)) [
    | inl same ↦ rw (values_of, same) (put_here a (some bytes) mem.blocks a (ground arith))
    | inr other ↦ elim (Option-cases (mem.objects j)) [
      | inl nothing ↦ rw (values_of, other, nothing) refl
      | inr (m, at_j) ↦
          let (content, there, size, type) = o.holds j m at_j in
          rw (values_of, other, at_j)
            (put_there a (some bytes) mem.blocks m.address
              (other_place mem.blocks m.address a content there free))
    ]
  ])

  pub values-release :
      (i : ℕ) (m : Held)
      → mem.objects i ≡ some m
      → values_of (release i m.address mem) ≡ put i none (values_of mem)
  values-release i m at_i = fun_ext (λ j. elim (Bool-cases (j == i)) [
    | inl same ↦ rw (values_of, same) refl
    | inr other ↦ elim (Option-cases (mem.objects j)) [
      | inl nothing ↦ rw (values_of, other, nothing) refl
      | inr (n, at_j) ↦
          let still = put_there i none mem.objects j other ∙ at_j in
          rw (values_of, other, at_j)
            (put_there m.address none mem.blocks n.address (left i m mem o at_i j n still).1)
    ]
  ])

  values-alive :
      (i : ℕ) (m : Held)
      → mem.objects i ≡ some m
      → (bytes : List ℕ) × (mem.blocks m.address ≡ some bytes)
        × (m ≡ held_at m.address bytes)
        × (values_of mem i ≡ some bytes)
  values-alive i m at_i =
      let (bytes, there, size, type) = o.holds i m at_i in
      (
        bytes,
        there,
        ap₂ (λ n t. record { address = m.address; size = n; type = t }) size type,
        rw (values_of, at_i) there,
      )

  -- What one event comes to
  abbrev pub Steps : MessageEvent → Type 0
  Steps e =
      (after : Memory) × (message_step mem e ≡ ok after)
      × IsOwned after
      × (values_of after ≡ value_step (values_of mem) e)

  pub constructs-Steps :
      (i a : ℕ) (bytes : List ℕ)
      → IsAllowed mem (constructs i a bytes)
      → Steps (constructs i a bytes)
  unfolding message_step construct
  constructs-Steps i a bytes (unused, free) = (
    adopt i a bytes mem,
    refl,
    adopt-IsOwned i a bytes mem o unused free,
    values-adopt i a bytes unused free,
  )

  pub copied :
      (i a : ℕ) (m : Held)
      → mem.objects i ≡ some m
      → (bytes : List ℕ) × (copy_message a m mem.blocks
          ≡ ok (held_at a bytes, put a (some bytes) mem.blocks))
        × (values_of mem i ≡ some bytes)
  copied i a m at_i =
      let (bytes, there, size, type) = o.holds i m at_i in
      (
        bytes,
        copied_from a m.address m.size m.type bytes mem.blocks there size type,
        rw (values_of, at_i) there,
      )

  pub copies-Steps : (i other a : ℕ) → IsAllowed mem (copies i other a) → Steps (copies i other a)
  unfolding message_step
  copies-Steps i other a (unused, free, (m, at_other)) =
      let (bytes, done, value) = copied other a m at_other in
      (
        adopt i a bytes mem,
        rw (object_at, at_other, ◌>>=◌, done) refl,
        adopt-IsOwned i a bytes mem o unused free,
        values-adopt i a bytes unused free
            ∙ ap (λ (x : Option (List ℕ)). put i x (values_of mem)) (sym value),
      )

  pub destroys-Steps : (i : ℕ) → IsAllowed mem (destroys i) → Steps (destroys i)
  unfolding message_step delete_message
  destroys-Steps i (m, at_i) =
      let (bytes, there, whole, value) = values-alive i m at_i in
      (
        release i m.address mem,
        rw (object_at, at_i, ◌>>=◌, there) refl,
        release-IsOwned i m mem o at_i,
        values-release i m at_i,
      )
