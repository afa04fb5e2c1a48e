-- ===== src/Common/Fallible.antt =====
-- What a C++ expression comes to: a value, or a way in which it has none.
use mathlib.Core.Path.{◌≡◌, refl}
use mathlib.Core.Logic.{◌⊎◌, inl, inr}
use mathlib.Core.Bool.{Bool, true, false}

-- `undefined`: the standard gives the program no meaning (a read outside an object, an
-- indeterminate value); `aborted`: an assert fails; the others are exceptions that no handler of the
-- program names.
pub data Fault : Type 0 where
  undefined out_of_range bad_alloc select_error aborted : Fault

pub data Outcome {ℓ} (A : Type ℓ) : Type ℓ where
  fault : Fault → Outcome A
  ok : A → Outcome A

-- What comes behind a step, if the step has a value.
abbrev pub ◌>>=◌ {ℓ₁ ℓ₂} : {V : Type ℓ₁} {W : Type ℓ₂} → Outcome V → (V → Outcome W) → Outcome W
(fault why) >>= next = fault why
(ok value) >>= next = next value

infixl 5 ◌>>=◌
-- Inversion of a chain that succeeds.
pub >>=-eq-ok {ℓ₁ ℓ₂} :
    {V : Type ℓ₁} {W : Type ℓ₂} (step : Outcome V) (next : V → Outcome W) {w : W}
    → (step >>= next) ≡ ok w
    → (v : V) × (step ≡ ok v) × (next v ≡ ok w)
>>=-eq-ok (fault why) next e = cc
>>=-eq-ok (ok value) next e = (value, refl, e)

pub Outcome-cases {ℓ} :
    {A : Type ℓ} (o : Outcome A) → ((a : A) × (o ≡ ok a)) ⊎ ((e : Fault) × (o ≡ fault e))
Outcome-cases (ok a) = inl (a, refl)
Outcome-cases (fault e) = inr (e, refl)

-- What holds of the value, if there is one.
abbrev pub Ends {ℓ} : {A : Type 0} → (A → Type ℓ) → Outcome A → Type ℓ
Ends Q (fault why) = Unit
Ends Q (ok a) = Q a

pub Ends-bind {ℓ ℓ'} :
    {A B : Type 0} (Q : A → Type ℓ) (R : B → Type ℓ') (o : Outcome A) (next : A → Outcome B)
    → Ends Q o
    → ((a : A) → Q a → Ends R (next a))
    → Ends R (o >>= next)
Ends-bind Q R (fault why) next h k = tt
Ends-bind Q R (ok a) next h k = k a h

pub Ends-imp {ℓ ℓ'} :
    {A : Type 0} (Q : A → Type ℓ) (R : A → Type ℓ') (o : Outcome A)
    → Ends Q o
    → ((a : A) → Q a → R a)
    → Ends R o
Ends-imp Q R (fault why) h k = tt
Ends-imp Q R (ok a) h k = k a h

pub Ends-always : {A : Type 0} (o : Outcome A) → Ends {A = A} (λ a. Unit {0}) o
Ends-always (fault why) = tt
Ends-always (ok a) = tt

-- Two computations that fail alike, or whose values a relation connects.
abbrev pub Both : {A B : Type 0} → (A → B → Type 0) → Outcome A → Outcome B → Type 0
Both R (fault why) (fault reason) = why ≡ reason
Both R (ok a) (ok b) = R a b
Both R (fault why) (ok b) = ⊥
Both R (ok a) (fault reason) = ⊥

pub Both-bind :
    {A B C D : Type 0} (Q : A → B → Type 0) (R : C → D → Type 0) (o : Outcome A) (o' : Outcome B)
    (next : A → Outcome C) (next' : B → Outcome D)
    → Both Q o o'
    → ((a : A) (b : B) → Q a b → o' ≡ ok b → Both R (next a) (next' b))
    → Both R (o >>= next) (o' >>= next')
Both-bind Q R (fault why) (fault reason) next next' h k = h
Both-bind Q R (ok a) (ok b) next next' h k = k a b h refl
Both-bind Q R (fault why) (ok b) next next' h k = absurd h
Both-bind Q R (ok a) (fault reason) next next' h k = absurd h

-- The same computation on both sides
pub Both-same :
    {A : Type 0} (Q : A → Type 0) (o : Outcome A) → Ends Q o → Both (λ a b. (a ≡ b) × Q a) o o
Both-same Q (fault why) h = refl
Both-same Q (ok a) h = (refl, h)

pub Both-imp :
    {A B : Type 0} (Q R : A → B → Type 0) (o : Outcome A) (o' : Outcome B)
    → Both Q o o'
    → ((a : A) (b : B) → Q a b → R a b)
    → Both R o o'
Both-imp Q R (fault why) (fault reason) h k = h
Both-imp Q R (ok a) (ok b) h k = k a b h
Both-imp Q R (fault why) (ok b) h k = absurd h
Both-imp Q R (ok a) (fault reason) h k = absurd h

-- assert
abbrev pub assert_that : Bool → Outcome (Unit {0})
assert_that true = ok tt
assert_that false = fault aborted
