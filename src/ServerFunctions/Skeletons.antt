-- ===== src/ServerFunctions/Skeletons.antt =====
-- server_function_skels.c: the procedures on the blocks of their arguments.
use rpc_library.Common.{
  ℕ, zero, suc, ◌+◌, ◌*◌, ◌/◌, ◌%◌, ◌≡◌, List, [], ◌∷◌, ◌++◌, length, drop, Option, Outcome, ok,
  fault, undefined, ◌>>=◌, if◌then◌else◌, ltb,
}
use rpc_library.Common.Ints.{pattern_of, negsuc}
use rpc_library.Libserver.{Skeleton}
use rpc_library.ServerFunctions.{f0, f1, f3}
use rpc_library.ServerFunctions.Printing.{f2}

-- A number in memory, least byte first
unfoldable pub bytes_of : ℕ → ℕ → List ℕ
bytes_of zero x = []
bytes_of (suc n) x = x % 256 ∷ bytes_of n (x / 256)

unfoldable pub value_of : ℕ → List ℕ → Outcome ℕ
value_of zero bytes = ok 0
value_of (suc n) [] = fault undefined
value_of (suc n) (b ∷ bs) = value_of n bs >>= λ v. ok (b + 256 * v)

-- A value that is stored at the front of a block
unfoldable pub store : ℕ → ℕ → List ℕ → Outcome (List ℕ)
store n x block =
    if ltb (length block) n then fault undefined else ok (bytes_of n x ++ drop n block)

-- The whole longs of a block
unfoldable pub longs_of : List ℕ → List ℕ
longs_of (a ∷ b ∷ c ∷ d ∷ e ∷ f ∷ g ∷ h ∷ rest) =
    (a + 256 * (b + 256 * (c + 256 * (d + 256 * (e + 256 * (f + 256 * (g + 256 * h)))))))
    ∷ longs_of rest
longs_of _ = []

unfoldable pub bytes_of_longs : List ℕ → List ℕ
bytes_of_longs [] = []
bytes_of_longs (x ∷ xs) = bytes_of 8 x ++ bytes_of_longs xs

-- What a skeleton comes to on the argument types and the blocks
abbrev pub Running : Type 0
Running = Outcome (ℕ × List (List ℕ))

unfoldable pub f0_skel : List ℕ → List (List ℕ) → Running
f0_skel types (result ∷ a ∷ b ∷ rest) = do
  x ← value_of 4 a
  y ← value_of 4 b
  stored ← store 4 (f0 x y) result
  ok (0, stored ∷ a ∷ b ∷ rest)
f0_skel types _ = fault undefined

unfoldable pub f1_skel : List ℕ → List (List ℕ) → Running
f1_skel types (result ∷ a ∷ b ∷ c ∷ d ∷ rest) = do
  x ← value_of 1 a
  y ← value_of 2 b
  z ← value_of 4 c
  w ← value_of 8 d
  stored ← store 8 (f1 x y z w) result
  ok (0, stored ∷ a ∷ b ∷ c ∷ d ∷ rest)
f1_skel types _ = fault undefined

-- The text goes into a block of its own, which takes the place of the first argument's.
unfoldable pub f2_skel : Option (List ℕ) → List ℕ → List (List ℕ) → Running
f2_skel fresh types (result ∷ a ∷ b ∷ rest) = do
  x ← value_of 4 a
  y ← value_of 8 b
  text ← f2 fresh x y
  ok (0, text ∷ a ∷ b ∷ rest)
f2_skel fresh types _ = fault undefined

unfoldable pub f3_skel : List ℕ → List (List ℕ) → Running
f3_skel types (block ∷ rest) = do
  a ← f3 (longs_of block)
  ok (0, (bytes_of_longs a ++ drop (8 * length a) block) ∷ rest)
f3_skel types [] = fault undefined

unfoldable pub f4_skel : List ℕ → List (List ℕ) → Running
f4_skel types args = ok (pattern_of (negsuc 0), args)

-- A skeleton that does what one of these does, where that has a meaning
abbrev pub Implements : (List ℕ → List (List ℕ) → Running) → Skeleton → Type 0
Implements g f =
    (types : List ℕ) (args : List (List ℕ)) (r : ℕ × List (List ℕ))
    → g types args ≡ ok r
    → f types args ≡ r
