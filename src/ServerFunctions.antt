-- ===== src/ServerFunctions.antt =====
-- server_functions.c and server_function_skels.c: the procedures of the sample server and their skeletons.
-- A `long` is its bit pattern, a number below 2 ^ 64.
pub mod Sorting
pub mod Printing
pub mod Texts
pub mod Skeletons
pub mod Client
pub mod Program
pub mod Offering
pub mod Fitting
pub mod Results
pub mod Calling
use rpc_library.Common.{
  ℕ, zero, suc, ◌+◌, ◌-◌, ◌*◌, ◌/◌, ◌%◌, ◌^◌, ltb, Bool, List, [], ◌∷◌, ◌++◌, length, take, drop,
  Outcome, ok, fault, undefined, if◌then◌else◌,
}
use rpc_library.Common.Ints.{add32, to_size_t, int_of_char}

-- (long) of an int and (int) of a long
abbrev pub long_of_int : ℕ → ℕ
long_of_int w = to_size_t w

abbrev pub int_of_long : ℕ → ℕ
int_of_long x = x % 2 ^ 32

-- (int) of a short
abbrev pub int_of_short : ℕ → ℕ
int_of_short w = if ltb w (2 ^ 15) then w else w + (2 ^ 32 - 2 ^ 16)

-- The order of longs, negative ones below the others
abbrev pub biased : ℕ → ℕ
biased x = (x + 2 ^ 63) % 2 ^ 64

abbrev pub long_gtb : ℕ → ℕ → Bool
long_gtb x y = ltb (biased y) (biased x)

-- f0
unfoldable pub f0 : ℕ → ℕ → ℕ
f0 a b = add32 a b

-- f1, of a char, a short, an int and a long
unfoldable pub f1 : ℕ → ℕ → ℕ → ℕ → ℕ
f1 a b c d =
    let sum = add32 (int_of_char a) (int_of_short b * c % 2 ^ 32) in
    (long_of_int sum + 2 ^ 64 - d) % 2 ^ 64

-- The body of the inner loop of f3, on a[j - 1] and the elements from a[j] on: an element that moves to
-- the front goes through the int `k`.
unfoldable pub compare_swap : ℕ → List ℕ → List ℕ
compare_swap x [] = x ∷ []
compare_swap x (y ∷ ys) = if long_gtb y x then long_of_int (int_of_long y) ∷ x ∷ ys else x ∷ y ∷ ys

-- The inner loop, on the elements from a[i] on: the index goes down.
unfoldable pub bubble : List ℕ → List ℕ
bubble [] = []
bubble (x ∷ xs) = compare_swap x (bubble xs)

-- The outer loop, on the elements from a[i] on; the number counts the rounds that are left.
unfoldable pub sort_from : ℕ → List ℕ → List ℕ
sort_from zero xs = xs
sort_from (suc n) xs = elim (bubble xs) [ [] ↦ [] | y ∷ ys ↦ y ∷ sort_from n ys ]

-- `int len = a[0]`; no round is made for a negative one.
abbrev pub rounds : ℕ → ℕ
rounds first = if ltb (int_of_long first) (2 ^ 31) then int_of_long first else 0

-- f3. The elements up to `len` are in the array or the loops leave it.
unfoldable pub f3 : List ℕ → Outcome (List ℕ)
f3 [] = fault undefined
f3 (first ∷ rest) =
    let a = first ∷ rest in
    let len = rounds first in
    if ltb (length a) len then fault undefined else ok (sort_from len (take len a) ++ drop len a)
