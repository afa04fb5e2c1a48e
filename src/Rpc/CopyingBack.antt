-- ===== src/Rpc/CopyingBack.antt =====
-- What copy_output_arguments_back of rpc.cc leaves in the arguments of a call.
use rpc_library.Common.{
  ℕ, ◌≡◌, refl, ap, false, ◌||◌, List, [], ◌∷◌, ◌++◌, append-nil, length, take, drop, take-length,
  ok, ltb, arith, if◌then◌else◌, Bool-cases, inl, inr, All-imp, take-append_self,
}
use rpc_library.Arg.{is_only_output, is_input_output, size_in_bytes, AreArgTypes}
use rpc_library.Arg.Counting.{number_of_args-terminated}
use rpc_library.Messages.ExecuteRoundTrip.{BlocksFit, call}
use rpc_library.Rpc.{copy_block, copy_output_back, copy_outputs_back, copy_output_arguments_back}

-- Output arguments from the first list, the others from the second.
abbrev pub merged : List ℕ → List (List ℕ) → List (List ℕ) → List (List ℕ)
merged (t ∷ ts) (o ∷ os) (b ∷ bs) =
    (if is_only_output t || is_input_output t then o else b) ∷ merged ts os bs
merged _ _ _ = []

pub drop-length : (xs : List ℕ) → drop (length xs) xs ≡ []
drop-length [] = refl
drop-length (x ∷ xs) = drop-length xs

copy_block-whole :
    (n : ℕ) (src dest : List ℕ) → length src ≡ n → length dest ≡ n → copy_block n src dest ≡ ok src
unfolding copy_block
copy_block-whole n src dest hs hd = rw (within src hs, within dest hd) (ap ok (whole hs hd))
  where
    within : (xs : List ℕ) → length xs ≡ n → ltb (length xs) n ≡ false
    within xs h = ground arith

    whole : length src ≡ n → length dest ≡ n → take n src ++ drop n dest ≡ src
    whole hs hd = rw (← hs) (rw (take-length src, hs, ← hd, drop-length dest) (append-nil src))

copy_output_back-merged :
    (t : ℕ) (o b : List ℕ)
    → length o ≡ size_in_bytes t
    → length b ≡ size_in_bytes t
    → copy_output_back t o b ≡ ok (if is_only_output t || is_input_output t then o else b)
unfolding copy_output_back
copy_output_back-merged t o b ho hb = elim (Bool-cases (is_only_output t || is_input_output t)) [
  | inl out ↦ rw out (copy_block-whole (size_in_bytes t) o b ho hb)
  | inr only_in ↦ rw only_in refl
]

copy_outputs_back-merged :
    (ts : List ℕ) (os bs : List (List ℕ))
    → BlocksFit ts os
    → BlocksFit ts bs
    → copy_outputs_back ts os bs ≡ ok (merged ts os bs)
unfolding copy_outputs_back
copy_outputs_back-merged [] [] [] h k = refl
copy_outputs_back-merged [] (o ∷ os) bs h k = absurd h
copy_outputs_back-merged [] [] (b ∷ bs) h k = absurd k
copy_outputs_back-merged (t ∷ ts) [] bs h k = absurd h
copy_outputs_back-merged (t ∷ ts) (o ∷ os) [] h k = absurd k
copy_outputs_back-merged (t ∷ ts) (o ∷ os) (b ∷ bs) h k =
    rw (copy_output_back-merged t o b h.0 k.0, copy_outputs_back-merged ts os bs h.1 k.1) refl

-- For a result of the same argument types as the call: each output argument holds what the result
-- holds, and each argument that is only input is as it was.
pub copy_output_arguments_back-merged :
    (name args : List ℕ) (outs blocks : List (List ℕ))
    → AreArgTypes args
    → BlocksFit args outs
    → BlocksFit args blocks
    → copy_output_arguments_back (call name args outs) blocks ≡ ok (merged args outs blocks)
unfolding copy_output_arguments_back
copy_output_arguments_back-merged name args outs blocks valid h k =
    rw
      (
        number_of_args-terminated args [] (All-imp (λ t v. v.0) args valid),
        take-append_self args (0 ∷ []),
      )
      (copy_outputs_back-merged args outs blocks h k)
