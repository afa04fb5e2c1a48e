-- ===== src/Wire/RoundTrip.antt =====
-- The decoders of protocol_macros.cc on what the encoders wrote.
use Prim.Native.Nat.add
use native.Mathlib.Nat.{mod-eq_of_lt}
use rpc_library.Common.{
  ℕ, ◌+◌, ◌/◌, ◌%◌, ◌^◌, ◌<◌, ◌≡◌, refl, ap, List, [], ◌∷◌, ◌++◌, All, length, length-append, arith,
  ok, take-append_self, ltb, false, drop-append_self,
}
use rpc_library.Common.Ints.{IsInt, add32, sub32}
use rpc_library.Wire.Cursor.{char_at, substr, advance, position, substr_from, ◌>>=◌, ◌>>◌}
use rpc_library.Wire.Fields.{Decodes, Fits, Decodes-pure, Decodes-bind, Decodes-map}
use rpc_library.Wire.{
  get_byte, make_byte, encode_integer, decode_integer, decode_string, encode_string,
  encode_integers, decode_integers,
}

char_at-append :
    (front rest : List ℕ) (k : ℕ) → char_at (front ++ rest) (length front + k) ≡ char_at rest k
unfolding char_at
char_at-append [] rest k = rw (add.zero k) refl
char_at-append (c ∷ cs) rest k = rw (add.suc (length cs) k) (char_at-append cs rest k)

byte_0 : (x : ℕ) → get_byte x 0 ≡ x % 256
byte_0 x = ground arith

byte_1 : (x : ℕ) → get_byte x 1 ≡ x / 256 % 256
byte_1 x = ground arith

byte_2 : (x : ℕ) → get_byte x 2 ≡ x / 65536 % 256
byte_2 x = ground arith

byte_3 : (x : ℕ) → IsInt x → get_byte x 3 ≡ x / 16777216
byte_3 x h = ground arith

-- The four bytes of an `int` give it back.
make_byte-get_byte :
    (x : ℕ)
    → IsInt x
    → add32
        (add32
          (add32 (make_byte (get_byte x 0) 0) (make_byte (get_byte x 1) 1))
          (make_byte (get_byte x 2) 2))
        (make_byte (get_byte x 3) 3)
      ≡ x
make_byte-get_byte x h = rw (byte_0 x, byte_1 x, byte_2 x, byte_3 x h) (omega arith)

-- The positions of the four bytes.
positions :
    (n : ℕ)
    → n + 4 < 2 ^ 32
    → (add32 n 4 ≡ n + 4)
      × (sub32 (n + 4) 4 ≡ n + 0)
      × (sub32 (n + 4) 3 ≡ n + 1)
      × (sub32 (n + 4) 2 ≡ n + 2)
      × (sub32 (n + 4) 1 ≡ n + 3)
positions n h = (omega arith, omega arith, omega arith, omega arith, omega arith)

-- The byte that `decode_integer` reads `k` before the position behind its field.
char_at-back :
    (front rest : List ℕ) (k i c : ℕ)
    → sub32 (length front + 4) k ≡ length front + i
    → char_at rest i ≡ ok c
    → char_at (front ++ rest) (sub32 (length front + 4) k) ≡ ok c
char_at-back front rest k i c e found = rw (e, char_at-append front rest i) found

-- `decode_integer` reads back an `int` that `encode_integer` wrote, anywhere in a buffer of fewer
-- than 2 ^ 31 bytes, and stops behind it.
pub decode_integer-encode_integer : (x : ℕ) → IsInt x → Decodes decode_integer (encode_integer x) x
unfolding decode_integer encode_integer
decode_integer-encode_integer x hx = record {
  at = λ front rest fits.
      let (e, e0, e1, e2, e3) = positions (length front) (small front rest fits) in
      let buffer = encode_integer x ++ rest in
      rw e (
        rw
          (
            char_at-back front buffer 4 0 _ e0 refl,
            char_at-back front buffer 3 1 _ e1 refl,
            char_at-back front buffer 2 2 _ e2 refl,
            char_at-back front buffer 1 3 _ e3 refl,
            ◌>>=◌,
          )
          (ap (λ (v : ℕ). ok (v, length front + 4)) (make_byte-get_byte x hx)));
}
  where
    small :
        (front rest : List ℕ)
        → Fits (front ++ (encode_integer x ++ rest))
        → length front + 4 < 2 ^ 32
    small front rest fits = omega (arith, length-append front (encode_integer x ++ rest))

substr-append :
    (front s rest : List ℕ) → substr (front ++ (s ++ rest)) (length front) (length s) ≡ ok s
unfolding substr
substr-append front s rest =
    rw (within, drop-append_self front (s ++ rest), take-append_self s rest) refl
  where
    within : ltb (length (front ++ (s ++ rest))) (length front) ≡ false
    within = ground (arith, length-append front (s ++ rest))

-- The action of `decode_string` behind the length.
string_body-Decodes :
    (s : List ℕ)
    → length s < 2 ^ 31
    → Decodes (position >>= λ old_pos. advance (length s) >> substr_from old_pos (length s)) s s
string_body-Decodes s h = record {
  at = λ front rest fits. rw (substr-append front s rest) (
      ap (λ (n : ℕ). ok (s, n))
        (mod-eq_of_lt (omega (arith, length-append front (s ++ rest), length-append s rest))));
}

-- `decode_string` reads back a string of fewer than 2 ^ 31 bytes, whatever they are, anywhere in a
-- buffer of fewer than 2 ^ 31 bytes, and stops behind it.
pub decode_string-encode_string :
    (s : List ℕ) → length s < 2 ^ 31 → Decodes decode_string (encode_string s) s
unfolding decode_string encode_string
decode_string-encode_string s h = rw (mod-eq_of_lt small) (
    Decodes-bind _ (encode_integer (length s)) s (length s) s
      (decode_integer-encode_integer (length s) small) (string_body-Decodes s h))
  where
    small : length s < 2 ^ 32
    small = omega arith

pub decode_integers-encode_integers :
    (ts : List ℕ) → All IsInt ts → Decodes (decode_integers (length ts)) (encode_integers ts) ts
unfolding decode_integers encode_integers
decode_integers-encode_integers [] h = Decodes-pure []
decode_integers-encode_integers (t ∷ ts) h =
    Decodes-bind _ (encode_integer t) (encode_integers ts) t (t ∷ ts)
      (decode_integer-encode_integer t h.0)
      (Decodes-map (◌∷◌ t) (encode_integers ts) ts (decode_integers-encode_integers ts h.1))

pub length-encode_string : (s : List ℕ) → length (encode_string s) ≡ length s + 4
unfolding encode_string encode_integer
length-encode_string s = omega arith

pub length-encode_integer : (x : ℕ) → length (encode_integer x) ≡ 4
unfolding encode_integer
length-encode_integer x = refl
