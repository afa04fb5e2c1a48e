-- ===== src/ServerFunctions/Sorting.antt =====
-- The bubble sort of server_functions.c (`f3`).
use mathlib.Core.List.{Perm}
use mathlib.Core.List.Perm
use rpc_library.Common.{
  ℕ, zero, suc, ◌≤◌, ◌≡◌, refl, ◌∙◌, ap, ltb, false, List, [], ◌∷◌, ◌++◌, length, take, drop, All,
  All-imp, Bool-cases, inl, inr, ok, arith,
}
use rpc_library.ServerFunctions.{
  long_of_int, int_of_long, biased, long_gtb, compare_swap, bubble, sort_from, rounds, f3,
}

-- A long that is the value of an int
abbrev pub FitsInt : ℕ → Type 0
FitsInt x = long_of_int (int_of_long x) ≡ x

abbrev pub IsDescending : List ℕ → Type 0
IsDescending [] = Unit {0}
IsDescending (x ∷ xs) = All (λ y. biased y ≤ biased x) xs × IsDescending xs

-- The first element is a largest one.
abbrev IsTopped : List ℕ → Type 0
IsTopped [] = Unit {0}
IsTopped (x ∷ xs) = All (λ y. biased y ≤ biased x) xs

record IsBubbled (xs ys : List ℕ) : Type 0 where
  moved : Perm ys xs
  topped : IsTopped ys
  fit : All FitsInt ys
  long_as : length ys ≡ length xs

compare_swap-IsBubbled :
    (x : ℕ) (xs ys : List ℕ) → FitsInt x → IsBubbled xs ys → IsBubbled (x ∷ xs) (compare_swap x ys)
unfolding compare_swap
compare_swap-IsBubbled x xs [] f b = record {
  moved = Perm.cons x b.moved;
  topped = tt;
  fit = (f, tt);
  long_as = ap suc b.long_as;
}
compare_swap-IsBubbled x xs (y ∷ ys) f b = elim (Bool-cases (long_gtb y x)) [
  | inl larger ↦
      let below : biased x ≤ biased y = ground arith in
      rw (larger, b.fit.0)
        (record {
          moved = Perm.trans (Perm.swap x y ys) (Perm.cons x b.moved);
          topped = (below, b.topped);
          fit = (b.fit.0, (f, b.fit.1));
          long_as = ap suc b.long_as;
        })
  | inr not_larger ↦
      let above : biased y ≤ biased x = ground arith in
      rw not_larger (record {
        moved = Perm.cons x b.moved;
        topped = (
          above,
          All-imp {P = λ z. biased z ≤ biased y} {Q = λ z. biased z ≤ biased x} (λ z h. omega arith)
              ys b.topped,
        );
        fit = (f, b.fit);
        long_as = ap suc b.long_as;
      })
]

bubble-IsBubbled : (xs : List ℕ) → All FitsInt xs → IsBubbled xs (bubble xs)
unfolding bubble
bubble-IsBubbled [] f = record { moved = Perm.refl []; topped = tt; fit = tt; long_as = refl }
bubble-IsBubbled (x ∷ xs) f = compare_swap-IsBubbled x xs (bubble xs) f.0 (bubble-IsBubbled xs f.1)

-- What holds of all elements holds of them when they are sorted.
module _ (P : ℕ → Type 0) where
  compare_swap-All :
      (x : ℕ) (ys : List ℕ) → All FitsInt ys → P x → All P ys → All P (compare_swap x ys)
  unfolding compare_swap
  compare_swap-All x [] f p h = (p, tt)
  compare_swap-All x (y ∷ ys) f p h = elim (Bool-cases (long_gtb y x)) [
    | inl larger ↦ rw (larger, f.0) (h.0, (p, h.1))
    | inr not_larger ↦ rw not_larger (p, h)
  ]

  bubble-All : (xs : List ℕ) → All FitsInt xs → All P xs → All P (bubble xs)
  unfolding bubble
  bubble-All [] f h = tt
  bubble-All (x ∷ xs) f h =
      compare_swap-All x (bubble xs) (bubble-IsBubbled xs f.1).fit h.0 (bubble-All xs f.1 h.1)

  sort_from-All : (n : ℕ) (xs : List ℕ) → All FitsInt xs → All P xs → All P (sort_from n xs)
  unfolding sort_from
  sort_from-All zero xs f h = h
  sort_from-All (suc n) xs f h =
      go (bubble xs) (bubble-IsBubbled xs f).fit (bubble-All xs f h)
        (λ ys g k. sort_from-All n ys g k)
    where
      go :
          (ys : List ℕ)
          → All FitsInt ys
          → All P ys
          → ((zs : List ℕ) → All FitsInt zs → All P zs → All P (sort_from n zs))
          → All P (elim ys [ [] ↦ [] | y ∷ rest ↦ y ∷ sort_from n rest ])
      go [] g k later = tt
      go (y ∷ rest) g k later = (k.0, later rest g.1 k.1)

pub record IsSorted (xs ys : List ℕ) : Type 0 where
  pub descending : IsDescending ys
  pub moved : Perm ys xs
  pub long_as : length ys ≡ length xs

sort_from-IsSorted :
    (n : ℕ) (xs : List ℕ) → length xs ≡ n → All FitsInt xs → IsSorted xs (sort_from n xs)
unfolding sort_from
sort_from-IsSorted zero [] l f = record { descending = tt; moved = Perm.refl []; long_as = refl }
sort_from-IsSorted zero (x ∷ xs) l f = absurd (omega arith)
sort_from-IsSorted (suc n) xs l f =
    go (bubble xs) (bubble-IsBubbled xs f) (λ ys k g. sort_from-IsSorted n ys k g)
  where
    go :
        (ys : List ℕ)
        → IsBubbled xs ys
        → ((zs : List ℕ) → length zs ≡ n → All FitsInt zs → IsSorted zs (sort_from n zs))
        → IsSorted xs (elim ys [ [] ↦ [] | y ∷ rest ↦ y ∷ sort_from n rest ])
    go [] b later = record { descending = tt; moved = b.moved; long_as = b.long_as }
    go (y ∷ rest) b later =
        let s = later rest (let l' = b.long_as in omega arith) b.fit.1 in
        record {
          descending =
              (sort_from-All (λ z. biased z ≤ biased y) n rest b.fit.1 b.topped, s.descending);
          moved = Perm.trans (Perm.cons y s.moved) b.moved;
          long_as = ap suc s.long_as ∙ b.long_as;
        }

length-take : (n : ℕ) (xs : List ℕ) → n ≤ length xs → length (take n xs) ≡ n
length-take zero xs h = refl
length-take (suc n) [] h = absurd (omega arith)
length-take (suc n) (x ∷ xs) h = ap suc (length-take n xs (omega arith))

pub f3-IsSorted :
    (first : ℕ) (rest : List ℕ)
    → rounds first ≤ length (first ∷ rest)
    → All FitsInt (take (rounds first) (first ∷ rest))
    → (s : List ℕ) × (f3 (first ∷ rest) ≡ ok (s ++ drop (rounds first) (first ∷ rest)))
      × IsSorted (take (rounds first) (first ∷ rest)) s
unfolding f3
f3-IsSorted first rest within fit =
    let a = first ∷ rest in
    let len = rounds first in
    let inside : ltb (length a) len ≡ false = ground arith in
    (
      sort_from len (take len a),
      rw (f3, inside) refl,
      sort_from-IsSorted len (take len a) (length-take len a within) fit,
    )

-- f3 of an array whose first element is, as an int, the number of elements to sort: it leaves them in
-- descending order, and the ones behind them as they were, if the array has that many elements and each
-- of those is the value of an int. None is lost or made up.
pub f3_sorts :
    (first : ℕ) (rest : List ℕ)
    → rounds first ≤ length (first ∷ rest)
    → All FitsInt (take (rounds first) (first ∷ rest))
    → (s : List ℕ) × (f3 (first ∷ rest) ≡ ok (s ++ drop (rounds first) (first ∷ rest)))
      × IsDescending s
      × Perm s (take (rounds first) (first ∷ rest))
f3_sorts first rest within fit =
    let (s, e, sorted) = f3-IsSorted first rest within fit in
    (s, e, sorted.descending, sorted.moved)
