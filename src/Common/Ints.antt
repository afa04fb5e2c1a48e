-- ===== src/Common/Ints.antt =====
-- Machine integers as bit patterns: an `int` is a number below 2 ^ 32, a `size_t` one below 2 ^ 64,
-- a `char` one below 2 ^ 8. `signed` is the integer that an `int` pattern stands for.
use rpc_library.Common.{ℕ, ◌+◌, ◌-◌, ◌/◌, ◌%◌, ◌^◌, ◌<◌, ltb, if◌then◌else◌, true, false, Bool}

-- `negsuc n` is -(n + 1).
pub data ℤ : Type 0 where
  pos : ℕ → ℤ
  negsuc : ℕ → ℤ

abbrev pub IsInt : ℕ → Type 0
IsInt w = w < 2 ^ 32

abbrev pub IsByte : ℕ → Type 0
IsByte b = b < 256

abbrev pub signed : ℕ → ℤ
signed w = if ltb w (2 ^ 31) then pos w else negsuc (2 ^ 32 - w - 1)

-- The pattern of an `int` constant.
abbrev pub pattern_of : ℤ → ℕ
pattern_of (pos n) = n % 2 ^ 32
pattern_of (negsuc n) = 2 ^ 32 - 1 - n % 2 ^ 32

abbrev pub add32 : ℕ → ℕ → ℕ
add32 a b = (a + b) % 2 ^ 32

abbrev pub sub32 : ℕ → ℕ → ℕ
sub32 a b = (a + 2 ^ 32 - b) % 2 ^ 32

-- `w >> k` on an `int`: copies of the sign bit come in from the left.
abbrev pub sar : ℕ → ℕ → ℕ
sar w k = if ltb w (2 ^ 31) then w / 2 ^ k else w / 2 ^ k + (2 ^ 32 - 2 ^ (32 - k))

-- An `int` and a (signed) `char`, converted to a wider type.
abbrev pub to_size_t : ℕ → ℕ
to_size_t w = if ltb w (2 ^ 31) then w else w + (2 ^ 64 - 2 ^ 32)

abbrev pub int_of_char : ℕ → ℕ
int_of_char c = if ltb c 128 then c else c + (2 ^ 32 - 256)

abbrev pub char_of_int : ℕ → ℕ
char_of_int w = w % 256

-- `a < b` on two `int`s: a pattern from 2 ^ 31 on is a negative number.
abbrev pub int_ltb : ℕ → ℕ → Bool
int_ltb a b =
    if ltb a (2 ^ 31)
    then if ltb b (2 ^ 31) then ltb a b else false
    else if ltb b (2 ^ 31)
    then true
    else ltb a b
