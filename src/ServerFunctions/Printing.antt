-- ===== src/ServerFunctions/Printing.antt =====
-- f2 of server_functions.c: the integer parts of two floating point numbers as text. The numbers are
-- patterns of IEEE 754, and a `long long` is a pattern of 64 bits.
use rpc_library.Common.{
  ℕ, zero, suc, ◌+◌, ◌-◌, ◌*◌, ◌/◌, ◌%◌, ◌^◌, List, [], ◌∷◌, ◌++◌, length, drop, Option, none, some,
  Outcome, ok, fault, undefined, ◌>>=◌, ltb, ◌==◌, if◌then◌else◌,
}

-- (long long) of a number with a sign; one that is no long long has no meaning.
unfoldable pub signed : ℕ → ℕ → Outcome ℕ
signed sign n =
    if ltb n (2 ^ 63)
    then ok (if sign == 0 then n else (2 ^ 64 - n) % 2 ^ 64)
    else if n == 2 ^ 63
    then (if sign == 0 then fault undefined else ok n)
    else fault undefined

-- The integer part as a long long, of a number with `p` bits of fraction and `q` of exponent.
unfoldable pub integer_part : ℕ → ℕ → ℕ → Outcome ℕ
integer_part p q x =
    let sign = x / 2 ^ (p + q) % 2 in
    let exponent = x / 2 ^ p % 2 ^ q in
    let fraction = x % 2 ^ p in
    let bias = 2 ^ (q - 1) - 1 in
    if exponent == 2 ^ q - 1
    then fault undefined
    else if ltb exponent bias
    then ok 0
    else signed sign ((2 ^ p + fraction) * 2 ^ (exponent - bias) / 2 ^ p)

-- modff and modf, with the conversion of what they store
abbrev pub part_of_float : ℕ → Outcome ℕ
part_of_float a = integer_part 23 8 a

abbrev pub part_of_double : ℕ → Outcome ℕ
part_of_double b = integer_part 52 11 b

-- The digits of a number below 10 ^ k
unfoldable pub digits : ℕ → ℕ → List ℕ
digits zero n = []
digits (suc k) n =
    let front = digits k (n / 10) in if ltb n 10 then (48 + n) ∷ [] else front ++ (48 + n % 10) ∷ []

-- "%lld"; 20 digits are enough for 2 ^ 63.
unfoldable pub decimal : ℕ → List ℕ
decimal x = if ltb x (2 ^ 63) then digits 20 x else 45 ∷ digits 20 (2 ^ 64 - x)

-- sprintf into a block, with the zero at the end
unfoldable pub print_into : List ℕ → List ℕ → Outcome (List ℕ)
print_into text block =
    if ltb (length text) (length block)
    then ok (text ++ 0 ∷ drop (length text + 1) block)
    else fault undefined

-- f2, where malloc answers with a null pointer or with a block of 100 bytes
unfoldable pub f2 : Option (List ℕ) → ℕ → ℕ → Outcome (List ℕ)
f2 none a b = fault undefined
f2 (some block) a b = do
  ai ← part_of_float a
  bi ← part_of_double b
  print_into (decimal ai ++ decimal bi) block
