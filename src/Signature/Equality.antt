-- ===== src/Signature/Equality.antt =====
-- When two registrations or calls have the same signature (signature.h, signature.cc).
use rpc_library.Common.{
  ℕ, ◌≡◌, ◌↔◌, refl, sym, ap, ◌∙◌, List, [], ◌∷◌, ◌++◌, All, All-imp, arith, Outcome, ok,
  take-append_self, ◌>>=◌,
}
use rpc_library.Arg.{terminated, AreArgTypes}
use rpc_library.Arg.Counting.{number_of_args-terminated}
use rpc_library.Signature.{Argument, Signature, arguments_of, signature_of_arg_types}
use rpc_library.Signature.Arguments.{
  IsArgument, Similar, IsArgument-nonzero, argument_of-total, argument_of_iff,
}

-- Lists of argument types of one length, similar place by place.
abbrev pub AllSimilar : List ℕ → List ℕ → Type 0
AllSimilar [] [] = Unit {0}
AllSimilar [] (u ∷ us) = ⊥
AllSimilar (t ∷ ts) [] = ⊥
AllSimilar (t ∷ ts) (u ∷ us) = Similar t u × AllSimilar ts us

abbrev pub AreArguments : List ℕ → Type 0
AreArguments = All IsArgument

arguments_of-total :
    (ts : List ℕ) → AreArguments ts → (xs : List Argument) × (arguments_of ts ≡ ok xs)
unfolding arguments_of
arguments_of-total [] h = ([], refl)
arguments_of-total (t ∷ ts) h =
    let (a, ea) = argument_of-total t h.0 in
    let (xs, exs) = arguments_of-total ts h.1 in (a ∷ xs, rw (ea, exs) refl)

ok-injective {ℓ} : {A : Type ℓ} (a b : A) → ok a ≡ ok b → a ≡ b
ok-injective a b e = cc

-- Two values of one length, taken apart.
cons-eq : (a b : Argument) (xs ys : List Argument) → ok (a ∷ xs) ≡ ok (b ∷ ys) → (a ≡ b) × (xs ≡ ys)
cons-eq a b xs ys e = (cc, cc)

arguments_of_iff :
    (ts us : List ℕ)
    → AreArguments ts
    → AreArguments us
    → (arguments_of ts ≡ arguments_of us) ↔ AllSimilar ts us
unfolding arguments_of
arguments_of_iff [] [] h k = (λ _. tt, λ _. refl)
arguments_of_iff [] (u ∷ us) h k =
    let (b, eb) = argument_of-total u k.0 in
    let (ys, eys) = arguments_of-total us k.1 in ((λ e. cc (rw (eb, eys) at e)), λ s. absurd s)
arguments_of_iff (t ∷ ts) [] h k =
    let (a, ea) = argument_of-total t h.0 in
    let (xs, exs) = arguments_of-total ts h.1 in ((λ e. cc (rw (ea, exs) at e)), λ s. absurd s)
arguments_of_iff (t ∷ ts) (u ∷ us) h k =
    let (a, ea) = argument_of-total t h.0 in
    let (b, eb) = argument_of-total u k.0 in
    let (xs, exs) = arguments_of-total ts h.1 in
    let (ys, eys) = arguments_of-total us k.1 in
    let head = argument_of_iff t u h.0 k.0 in
    let rest = arguments_of_iff ts us h.1 k.1 in
    (
      λ e.
          let (same, more) = cons-eq a b xs ys (rw (ea, exs, eb, eys) at e) in
          (head.0 (ea ∙ ap ok same ∙ sym eb), rest.0 (exs ∙ ap ok more ∙ sym eys)),
      λ s. rw (head.1 s.0, rest.1 s.1) refl,
    )

finish : List ℕ → Outcome (List Argument) → Outcome Signature
finish name o = o >>= λ xs. ok (record { function_name = name; arguments = xs })

ok-signature :
    (name name' : List ℕ) (xs ys : List Argument)
    → finish name (ok xs) ≡ finish name' (ok ys)
    → (name ≡ name') × (xs ≡ ys)
unfolding finish
ok-signature name name' xs ys e = ground arith

signature_of-arguments :
    (name args rest : List ℕ)
    → AreArguments args
    → signature_of_arg_types name (args ++ 0 ∷ rest) ≡ finish name (arguments_of args)
unfolding signature_of_arg_types finish
signature_of-arguments name args rest h =
    rw
      (
        number_of_args-terminated args rest (All-imp (λ t k. IsArgument-nonzero t k) args h),
        take-append_self args (0 ∷ rest),
      )
      refl

-- Two procedures with legal argument types have the same signature exactly if they have the same
-- name and as many arguments, with the same direction, the same type and the same choice of scalar
-- or array at each place; the lengths of arrays do not count.
pub signature_of_arg_types_iff :
    (name name' args args' : List ℕ)
    → AreArguments args
    → AreArguments args'
    → (signature_of_arg_types name (terminated args)
        ≡ signature_of_arg_types name' (terminated args'))
      ↔ ((name ≡ name') × AllSimilar args args')
signature_of_arg_types_iff name name' args args' h k =
    let (xs, exs) = arguments_of-total args h in
    let (ys, eys) = arguments_of-total args' k in
    let same = arguments_of_iff args args' h k in
    let left = signature_of-arguments name args [] h ∙ ap (finish name) exs in
    let right = signature_of-arguments name' args' [] k ∙ ap (finish name') eys in
    (
      λ e.
          let (n, a) = ok-signature name name' xs ys (sym left ∙ e ∙ right) in
          (n, same.0 (exs ∙ ap ok a ∙ sym eys)),
      λ s.
          signature_of-arguments name args [] h
          ∙ rw (s.0, same.1 s.1) (sym (signature_of-arguments name' args' [] k)),
    )

-- A legal array of argument types has a signature.
pub signature_of_arg_types-total :
    (name args : List ℕ)
    → AreArguments args
    → (sig : Signature) × (signature_of_arg_types name (terminated args) ≡ ok sig)
signature_of_arg_types-total name args h =
    let (xs, exs) = arguments_of-total args h in
    (
      record { function_name = name; arguments = xs },
      signature_of-arguments name args [] h ∙ ap (finish name) exs ∙ unfold finish in refl,
    )

pub AreArguments-AreArgTypes : (args : List ℕ) → AreArguments args → AreArgTypes args
AreArguments-AreArgTypes args = All-imp (λ t h. (IsArgument-nonzero t h, h.is_int)) args
