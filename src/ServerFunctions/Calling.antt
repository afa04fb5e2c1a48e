-- ===== src/ServerFunctions/Calling.antt =====
-- What the skeletons of server_function_skels.c make of blocks that hold the values of arguments.
use mathlib.Core.Path.{subst}
use rpc_library.Common.{
  ℕ, ◌*◌, ◌^◌, ◌<◌, ◌≡◌, ltb, false, refl, sym, ◌∙◌, ap, List, [], ◌∷◌, ◌++◌, append-nil, length,
  take, drop, take-length, All, some, ok, ◌>>=◌, arith,
}
use rpc_library.Rpc.CopyingBack.{drop-length}
use rpc_library.ServerFunctions.{f0, f1, f3}
use rpc_library.ServerFunctions.Printing.{f2}
use rpc_library.ServerFunctions.Skeletons.{
  bytes_of, value_of, store, longs_of, bytes_of_longs, f0_skel, f1_skel, f2_skel, f3_skel,
}
use rpc_library.ServerFunctions.Sorting.{FitsInt, IsSorted, f3-IsSorted}

pub bytes_of_longs-length : (a : List ℕ) → length (bytes_of_longs a) ≡ 8 * length a
unfolding bytes_of_longs bytes_of
bytes_of_longs-length [] = omega arith
bytes_of_longs-length (x ∷ xs) = omega (arith, bytes_of_longs-length xs)

long_back :
    (x : ℕ) (rest : List ℕ) → x < 2 ^ 64 → longs_of (bytes_of 8 x ++ rest) ≡ x ∷ longs_of rest
unfolding longs_of bytes_of
long_back x rest h = ap (λ (n : ℕ). n ∷ longs_of rest) (omega arith)

FitsInt-long : (x : ℕ) → FitsInt x → x < 2 ^ 64
FitsInt-long x h = ground arith

longs_of-bytes_of_longs : (a : List ℕ) → All FitsInt a → longs_of (bytes_of_longs a) ≡ a
unfolding bytes_of_longs
longs_of-bytes_of_longs [] f = unfold longs_of in refl
longs_of-bytes_of_longs (x ∷ xs) f =
    long_back x (bytes_of_longs xs) (FitsInt-long x f.0)
    ∙ ap (◌∷◌ x) (longs_of-bytes_of_longs xs f.1)

-- All of an array is taken, and nothing is left.
module _ (n : ℕ) (a : List ℕ) (l : length a ≡ n) where
  take_all : take n a ≡ a
  take_all = ap (λ (k : ℕ). take k a) (sym l) ∙ take-length a

  drop_all : drop n a ≡ []
  drop_all = ap (λ (k : ℕ). drop k a) (sym l) ∙ drop-length a

f3_whole :
    (rest : List ℕ)
    → length rest ≡ 10
    → All FitsInt (11 ∷ rest)
    → (s : List ℕ) × (f3 (11 ∷ rest) ≡ ok s) × IsSorted (11 ∷ rest) s
f3_whole rest l fit =
    let a : List ℕ = 11 ∷ rest in
    let l' : length a ≡ 11 = omega arith in
    let taken : take 11 a ≡ a = take_all 11 a l' in
    let (s, e, sorted) = f3-IsSorted 11 rest (omega arith) (subst (All FitsInt) (sym taken) fit) in
    (
      s,
      e ∙ ap (λ (r : List ℕ). ok (s ++ r)) (drop_all 11 a l') ∙ ap ok (append-nil s),
      subst (λ (r : List ℕ). IsSorted r s) taken sorted,
    )

-- What the skeleton makes of the block
pub f3_skel-IsSorted :
    (types rest : List ℕ)
    → length rest ≡ 10
    → All FitsInt (11 ∷ rest)
    → (s : List ℕ) × (f3_skel types (bytes_of_longs (11 ∷ rest) ∷ [])
        ≡ ok (0, bytes_of_longs s ∷ []))
      × IsSorted (11 ∷ rest) s
unfolding f3_skel
f3_skel-IsSorted types rest l fit =
    let a : List ℕ = 11 ∷ rest in
    let (s, e, sorted) = f3_whole rest l fit in
    let written : drop (8 * length s) (bytes_of_longs a) ≡ [] =
      drop_all (8 * length s) (bytes_of_longs a)
        (bytes_of_longs-length a ∙ ap (λ (n : ℕ). 8 * n) (sym sorted.long_as)) in
    (
      s,
      rw (longs_of-bytes_of_longs a fit, e, ◌>>=◌, written)
          (ap (λ (b : List ℕ). ok (0, b ∷ [])) (append-nil (bytes_of_longs s))),
      sorted,
    )

value_back_1 : (x : ℕ) → x < 2 ^ 8 → value_of 1 (bytes_of 1 x) ≡ ok x
unfolding value_of bytes_of
value_back_1 x h = ap ok (omega arith)

value_back_2 : (x : ℕ) → x < 2 ^ 16 → value_of 2 (bytes_of 2 x) ≡ ok x
unfolding value_of bytes_of
value_back_2 x h = ap ok (omega arith)

value_back_4 : (x : ℕ) → x < 2 ^ 32 → value_of 4 (bytes_of 4 x) ≡ ok x
unfolding value_of bytes_of
value_back_4 x h = ap ok (omega arith)

value_back_8 : (x : ℕ) → x < 2 ^ 64 → value_of 8 (bytes_of 8 x) ≡ ok x
unfolding value_of bytes_of
value_back_8 x h = ap ok (omega arith)

store_whole : (n x : ℕ) (block : List ℕ) → length block ≡ n → store n x block ≡ ok (bytes_of n x)
unfolding store
store_whole n x block l =
    let long_enough : ltb (length block) n ≡ false = ground arith in
    rw (long_enough, drop_all n block l) (ap ok (append-nil (bytes_of n x)))

pub f0_skel-f0 :
    (types result : List ℕ) (a b : ℕ)
    → length result ≡ 4
    → a < 2 ^ 32
    → b < 2 ^ 32
    → f0_skel types (result ∷ bytes_of 4 a ∷ bytes_of 4 b ∷ [])
      ≡ ok (0, bytes_of 4 (f0 a b) ∷ bytes_of 4 a ∷ bytes_of 4 b ∷ [])
unfolding f0_skel
f0_skel-f0 types result a b l ha hb =
    rw (value_back_4 a ha, ◌>>=◌, value_back_4 b hb, ◌>>=◌, store_whole 4 (f0 a b) result l) refl

pub f2_skel-f2 :
    (types result fresh text : List ℕ) (a b : ℕ)
    → a < 2 ^ 32
    → b < 2 ^ 64
    → f2 (some fresh) a b ≡ ok text
    → f2_skel (some fresh) types (result ∷ bytes_of 4 a ∷ bytes_of 8 b ∷ [])
      ≡ ok (0, text ∷ bytes_of 4 a ∷ bytes_of 8 b ∷ [])
unfolding f2_skel
f2_skel-f2 types result fresh text a b ha hb printed =
    rw (value_back_4 a ha, ◌>>=◌, value_back_8 b hb, ◌>>=◌, printed) refl

pub f1_skel-f1 :
    (types result : List ℕ) (a b c d : ℕ)
    → length result ≡ 8
    → a < 2 ^ 8
    → b < 2 ^ 16
    → c < 2 ^ 32
    → d < 2 ^ 64
    → f1_skel types (result ∷ bytes_of 1 a ∷ bytes_of 2 b ∷ bytes_of 4 c ∷ bytes_of 8 d ∷ [])
      ≡ ok (
        0,
        bytes_of 8 (f1 a b c d) ∷ bytes_of 1 a ∷ bytes_of 2 b ∷ bytes_of 4 c ∷ bytes_of 8 d ∷ [],
      )
unfolding f1_skel
f1_skel-f1 types result a b c d l ha hb hc hd =
    rw
      (
        value_back_1 a ha,
        ◌>>=◌,
        value_back_2 b hb,
        ◌>>=◌,
        value_back_4 c hc,
        ◌>>=◌,
        value_back_8 d hd,
        ◌>>=◌,
        store_whole 8 (f1 a b c d) result l,
      )
      refl
