-- ===== src/ServerFunctions/Texts.antt =====
-- What f2 of server_functions.c leaves in its block.
use rpc_library.Common.{
  ℕ, zero, suc, ◌+◌, ◌-◌, ◌*◌, ◌/◌, ◌%◌, ◌^◌, ◌<◌, ◌≤◌, ◌≡◌, ◌≢◌, refl, ◌∙◌, true, false, List, [],
  ◌∷◌, ◌++◌, length, length-append, length-drop, drop, some, ok, ◌>>=◌, Ends, ltb, ◌==◌,
  if◌then◌else◌, All, All-append, All-imp, Bool-cases, inl, inr, arith,
}
use rpc_library.ServerFunctions.Printing.{
  signed, integer_part, part_of_float, part_of_double, digits, decimal, print_into, f2,
}

-- The string at the front of a block
abbrev pub c_string : List ℕ → List ℕ
c_string [] = []
c_string (x ∷ xs) = let rest = c_string xs in if x == 0 then [] else x ∷ rest

-- Reading a number back
abbrev pub read_on : ℕ → List ℕ → ℕ
read_on value [] = value
read_on value (c ∷ cs) = read_on (10 * value + (c - 48)) cs

abbrev pub read_long : List ℕ → ℕ
read_long [] = 0
read_long (c ∷ cs) = if c == 45 then (2 ^ 64 - read_on 0 cs) % 2 ^ 64 else read_on 0 (c ∷ cs)

read_on-append :
    (value : ℕ) (cs : List ℕ) (c : ℕ)
    → read_on value (cs ++ c ∷ []) ≡ 10 * read_on value cs + (c - 48)
read_on-append value [] c = refl
read_on-append value (x ∷ cs) c = read_on-append (10 * value + (x - 48)) cs c

-- Numbers with at most `k` digits
abbrev pub power_of_10 : ℕ → ℕ
power_of_10 zero = 1
power_of_10 (suc k) = 10 * power_of_10 k

read_on-digits : (k n : ℕ) → n < power_of_10 k → read_on 0 (digits k n) ≡ n
unfolding digits
read_on-digits zero n h = omega arith
read_on-digits (suc k) n h = elim (Bool-cases (ltb n 10)) [
  | inl one ↦ rw one (omega arith)
  | inr more ↦
      rw (more, read_on-append 0 (digits k (n / 10)) (48 + n % 10))
        (rw (read_on-digits k (n / 10) (omega arith)) (omega arith))
]

abbrev IsDigit : ℕ → Type 0
IsDigit c = (48 ≤ c) × (c < 58)

digits-length : (k n : ℕ) → length (digits k n) ≤ k
unfolding digits
digits-length zero n = omega arith
digits-length (suc k) n = elim (Bool-cases (ltb n 10)) [
  | inl one ↦ rw one (omega arith)
  | inr more ↦
      rw (more, length-append (digits k (n / 10)) ((48 + n % 10) ∷ []))
        (omega (arith, digits-length k (n / 10)))
]

digits-IsDigit : (k n : ℕ) → All IsDigit (digits k n)
unfolding digits
digits-IsDigit zero n = tt
digits-IsDigit (suc k) n = elim (Bool-cases (ltb n 10)) [
  | inl one ↦ rw one ((omega arith, ground arith), tt)
  | inr more ↦ rw more (
      All-append IsDigit (digits k (n / 10)) ((48 + n % 10) ∷ []) (digits-IsDigit k (n / 10))
        ((omega arith, omega arith), tt))
]

read_long-digits : (cs : List ℕ) → All IsDigit cs → read_long cs ≡ read_on 0 cs
read_long-digits [] h = refl
read_long-digits (c ∷ cs) h = let other : (c == 45) ≡ false = ground (arith, h.0) in rw other refl

-- Every long long is read back from its text.
read_long-decimal : (x : ℕ) → x < 2 ^ 64 → read_long (decimal x) ≡ x
unfolding decimal
read_long-decimal x h = elim (Bool-cases (ltb x (2 ^ 63))) [
  | inl positive ↦
      let small : x < power_of_10 20 = ground (arith, positive) in
      rw positive (read_long-digits (digits 20 x) (digits-IsDigit 20 x) ∙ read_on-digits 20 x small)
  | inr negative ↦
      let large : 2 ^ 63 ≤ x = ground (arith, negative) in
      let small : 2 ^ 64 - x < power_of_10 20 = omega arith in
      rw (negative, read_on-digits 20 (2 ^ 64 - x) small) (omega arith)
]

decimal-IsText : (x : ℕ) → All (λ c. c ≢ 0) (decimal x)
unfolding decimal
decimal-IsText x = elim (Bool-cases (ltb x (2 ^ 63))) [
  | inl positive ↦ rw positive (no_zero (digits 20 x) (digits-IsDigit 20 x))
  | inr negative ↦
      rw negative
        (λ e. omega arith, no_zero (digits 20 (2 ^ 64 - x)) (digits-IsDigit 20 (2 ^ 64 - x)))
]
  where
    no_zero : (cs : List ℕ) → All IsDigit cs → All (λ c. c ≢ 0) cs
    no_zero cs h = All-imp (λ c d e. omega arith) cs h

decimal-length : (x : ℕ) → length (decimal x) ≤ 21
unfolding decimal
decimal-length x = ground (arith, digits-length 20 x, digits-length 20 (2 ^ 64 - x))

c_string-append : (text rest : List ℕ) → All (λ c. c ≢ 0) text → c_string (text ++ 0 ∷ rest) ≡ text
c_string-append [] rest h = refl
c_string-append (c ∷ cs) rest h =
    let other : (c == 0) ≡ false = ground (arith, h.0) in
    rw (other, c_string-append cs rest h.1) refl

signed-long : (sign n : ℕ) → Ends (λ x. x < 2 ^ 64) (signed sign n)
unfolding signed
signed-long sign n = elim (Bool-cases (ltb n (2 ^ 63))) [
  | inl small ↦ elim (Bool-cases (sign == 0)) [
    | inl positive ↦ rw (small, positive) (ground (arith, small))
    | inr negative ↦ rw (small, negative) (omega arith)
  ]
  | inr large ↦ elim (Bool-cases (n == 2 ^ 63)) [
    | inr larger ↦ rw (large, larger) tt
    | inl least ↦ elim (Bool-cases (sign == 0)) [
      | inl positive ↦ rw (large, least, positive) tt
      | inr negative ↦ rw (large, least, negative) (ground (arith, least))
    ]
  ]
]

integer_part-long : (p q x : ℕ) → Ends (λ i. i < 2 ^ 64) (integer_part p q x)
unfolding integer_part
integer_part-long p q x = elim (Bool-cases (x / 2 ^ p % 2 ^ q == 2 ^ q - 1)) [
  | inl special ↦ rw special tt
  | inr finite ↦ elim (Bool-cases (ltb (x / 2 ^ p % 2 ^ q) (2 ^ (q - 1) - 1))) [
    | inl fraction ↦ rw (finite, fraction) (omega arith)
    | inr whole ↦ rw (finite, whole) (signed-long _ _)
  ]
]

-- If the integer parts of its arguments are long longs and malloc gives it 100 bytes, f2 stays in its
-- block, and leaves the texts of the two parts there, one behind the other and with a zero at the end;
-- each is read back from its text.
pub f2_prints_parts :
    (block : List ℕ) (a b i j : ℕ)
    → length block ≡ 100
    → part_of_float a ≡ ok i
    → part_of_double b ≡ ok j
    → (printed : List ℕ) × (f2 (some block) a b ≡ ok printed)
      × (length printed ≡ 100)
      × (c_string printed ≡ decimal i ++ decimal j)
      × (read_long (decimal i) ≡ i)
      × (read_long (decimal j) ≡ j)
unfolding f2 print_into
f2_prints_parts block a b i j l ai bi =
    let text : List ℕ = decimal i ++ decimal j in
    let short : length text ≤ 42 =
      omega (arith, length-append (decimal i) (decimal j), decimal-length i, decimal-length j) in
    let fits : ltb (length text) (length block) ≡ true = ground (arith, short, l) in
    let rest : List ℕ = drop (length text + 1) block in
    let long_i : i < 2 ^ 64 = rw ai at (integer_part-long 23 8 a) in
    let long_j : j < 2 ^ 64 = rw bi at (integer_part-long 52 11 b) in
    (
      text ++ 0 ∷ rest,
      rw (ai, ◌>>=◌, bi, ◌>>=◌, fits) refl,
      length-append text (0 ∷ rest) ∙ omega (arith, length-drop (length text + 1) block),
      c_string-append text rest
          (All-append (λ c. c ≢ 0) (decimal i) (decimal j) (decimal-IsText i) (decimal-IsText j)),
      read_long-decimal i long_i,
      read_long-decimal j long_j,
    )
