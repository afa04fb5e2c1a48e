-- ===== src/Wire.antt =====
-- protocol_macros.h and protocol_macros.cc: the fields of a message on the wire. A buffer is the
-- list of its bytes, at most 2 ^ 31 - 1 of them (its length is an `int`); a position is an `int`
-- pattern. A negative `int` converts to a `size_t` beyond every such buffer, as its pattern is.
pub mod Cursor
pub mod Fields
pub mod RoundTrip
use rpc_library.Common.{
  ℕ, zero, suc, ◌-◌, ◌*◌, ◌%◌, ◌^◌, List, [], ◌∷◌, ◌++◌, length, Outcome, ok, fault, bad_alloc, ltb,
  undefined, ◌==◌, if◌then◌else◌,
}
use rpc_library.Common.Ints.{add32, sar}
use Cursor.{Reader, pure, ◌>>=◌, ◌>>◌, position, advance, byte_back, substr_from, char_at, substr}

-- GET_BYTE
abbrev pub get_byte : ℕ → ℕ → ℕ
get_byte x i = sar x (8 * i) % 256

-- MAKE_BYTE, on a `char` given as its byte
abbrev pub make_byte : ℕ → ℕ → ℕ
make_byte x i = x % 256 * 2 ^ (8 * i) % 2 ^ 32

unfoldable pub encode_integer : ℕ → List ℕ
encode_integer x = get_byte x 0 ∷ get_byte x 1 ∷ get_byte x 2 ∷ get_byte x 3 ∷ []

unfoldable pub decode_integer : Reader ℕ
unfolding char_at
decode_integer = do
  advance 4
  a ← byte_back 4
  b ← byte_back 3
  c ← byte_back 2
  d ← byte_back 1
  pure (add32 (add32 (add32 (make_byte a 0) (make_byte b 1)) (make_byte c 2)) (make_byte d 3))

unfoldable pub decode_string : Reader (List ℕ)
unfolding substr
decode_string = do len ← decode_integer; old_pos ← position; advance len; substr_from old_pos len

-- `buffer += encode_integer(s.size()); buffer += s`, as every serializer writes a string.
unfoldable pub encode_string : List ℕ → List ℕ
encode_string s = encode_integer (length s % 2 ^ 32) ++ s

-- The loop that writes an array of integers.
unfoldable pub encode_integers : List ℕ → List ℕ
encode_integers [] = []
encode_integers (t ∷ ts) = encode_integer t ++ encode_integers ts

-- The loop that reads `num_args` integers into an array.
unfoldable pub decode_integers : ℕ → Reader (List ℕ)
decode_integers zero = pure []
decode_integers (suc n) = do t ← decode_integer; ts ← decode_integers n; pure (t ∷ ts)

-- `new int[num_args + 1]` and `arg_types[num_args] = 0` with `num_args` from the wire: no array has a
-- negative size; for -1 it is empty, and the 0 is written before it.
unfoldable pub check_num_args : ℕ → Outcome (Unit {0})
check_num_args n =
    if ltb n (2 ^ 31 - 1)
    then ok tt
    else if n == 2 ^ 32 - 1
    then fault undefined
    else fault bad_alloc
