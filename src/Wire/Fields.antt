-- ===== src/Wire/Fields.antt =====
-- When a reader takes a value out of given bytes, and how that composes.
use rpc_library.Common.{
  ℕ, ◌+◌, ◌^◌, ◌<◌, ◌≡◌, refl, ap, sym, ◌∙◌, List, [], ◌++◌, length, length-append, append_assoc,
  arith, Outcome, ok,
}
use rpc_library.Wire.Cursor.{Reader, pure, lift, ◌>>=◌}

-- A buffer that fits an `int`.
abbrev pub Fits : List ℕ → Type 0
Fits buffer = length buffer < 2 ^ 31

-- `r` reads `a` out of `bytes` wherever they stand in a buffer, and stops behind them.
pub record Decodes {A : Type 0} (r : Reader A) (bytes : List ℕ) (a : A) : Type 0 where
  pub at :
      (front rest : List ℕ)
      → Fits (front ++ (bytes ++ rest))
      → r (front ++ (bytes ++ rest)) (length front) ≡ ok (a, length front + length bytes)

pub Decodes-pure : {A : Type 0} (a : A) → Decodes (pure a) [] a
Decodes-pure a = record { at = λ front rest fits. ap (λ (n : ℕ). ok (a, n)) (omega arith) }

pub bind-eq :
    {A B : Type 0} (r : Reader A) (f : A → Reader B) (buffer : List ℕ) (pos : ℕ) (a : A) (next : ℕ)
    → r buffer pos ≡ ok (a, next)
    → (r >>= f) buffer pos ≡ f a buffer next
bind-eq r f buffer pos a next e = rw (e, ◌>>=◌) refl

module _ (xs ys : List ℕ) where
  regroup : (front rest : List ℕ) → front ++ (xs ++ (ys ++ rest)) ≡ front ++ xs ++ (ys ++ rest)
  regroup front rest = sym (append_assoc front xs (ys ++ rest))

  ends : (front : List ℕ) → length (front ++ xs) + length ys ≡ length front + length (xs ++ ys)
  ends front = omega (arith, length-append front xs, length-append xs ys)

  second_field :
      {B : Type 0} (r : Reader B) (b : B)
      → Decodes r ys b
      → (front rest : List ℕ) → Fits (front ++ (xs ++ (ys ++ rest)))
      → r (front ++ (xs ++ (ys ++ rest))) (length front + length xs)
        ≡ ok (b, length front + length (xs ++ ys))
  second_field r b second front rest fits =
      rw (regroup front rest, ← length-append front xs)
        (second.at (front ++ xs) rest (rw (regroup front rest) at fits)
          ∙ ap (λ (n : ℕ). ok (b, n)) (ends front))

-- Fields one behind the other are read one behind the other.
pub Decodes-bind :
    {A B : Type 0} {r : Reader A} (f : A → Reader B) (xs ys : List ℕ) (a : A) (b : B)
    → Decodes r xs a
    → Decodes (f a) ys b
    → Decodes (r >>= f) (xs ++ ys) b
Decodes-bind {r} f xs ys a b first second = record {
  at = λ front rest fits. rw (append_assoc xs ys rest) (
      bind-eq r f _ (length front) a (length front + length xs)
        (first.at front (ys ++ rest) (rw (append_assoc xs ys rest) at fits))
      ∙ second_field xs ys (f a) b second front rest (rw (append_assoc xs ys rest) at fits));
}

-- A check of a value that was read, before the next field.
pub Decodes-lift :
    {A B : Type 0} {m : Outcome A} (f : A → Reader B) (ys : List ℕ) (a : A) (b : B)
    → m ≡ ok a
    → Decodes (f a) ys b
    → Decodes (lift m >>= f) ys b
Decodes-lift f ys a b e second = rw e second

-- The last field: the value is assembled from what was read.
pub Decodes-map :
    {A B : Type 0} {r : Reader A} (g : A → B) (xs : List ℕ) (a : A)
    → Decodes r xs a
    → Decodes (r >>= λ x. pure (g x)) xs (g a)
Decodes-map {r} g xs a first = record {
  at = λ front rest fits.
      bind-eq r (λ x. pure (g x)) _ (length front) a (length front + length xs)
        (first.at front rest fits);
}

-- The last field: what was read is handed to a constructor.
pub Decodes-end :
    {A B : Type 0} {r : Reader A} (g : A → Outcome B) (xs : List ℕ) (a : A) (b : B)
    → Decodes r xs a
    → g a ≡ ok b
    → Decodes (r >>= λ x. lift (g x)) xs b
Decodes-end {r} g xs a b first e = record {
  at = λ front rest fits.
      bind-eq r (λ x. lift (g x)) _ (length front) a (length front + length xs)
        (first.at front rest fits)
      ∙ rw e refl;
}
