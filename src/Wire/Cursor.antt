-- ===== src/Wire/Cursor.antt =====
-- Code that reads a buffer at a position which each read moves on (`int* next_pos` in
-- protocol_macros.cc, `int pos` in every `deserialize`): a state monad over the position, with the
-- buffer as its environment.
use rpc_library.Common.{
  ℕ, zero, suc, List, [], ◌∷◌, Outcome, ok, fault, undefined, out_of_range, ltb, if◌then◌else◌,
  length, take, drop,
}
use rpc_library.Common.Ints.{add32, sub32}

abbrev pub Reader : Type 0 → Type 0
Reader A = List ℕ → ℕ → Outcome (A × ℕ)

abbrev pub pure : {A : Type 0} → A → Reader A
pure a buffer pos = ok (a, pos)

abbrev pub lift : {A : Type 0} → Outcome A → Reader A
lift m buffer pos = elim m [ ok a ↦ ok (a, pos) | fault e ↦ fault e ]

infixl 5 ◌>>=◌ ◌>>◌
abbrev pub ◌>>=◌ : {A B : Type 0} → Reader A → (A → Reader B) → Reader B
◌>>=◌ r f buffer pos = elim (r buffer pos) [ ok (a, next) ↦ f a buffer next | fault e ↦ fault e ]

abbrev pub ◌>>◌ : {B : Type 0} → Reader (Unit {0}) → Reader B → Reader B
r >> s = r >>= λ _. s

abbrev pub position : Reader ℕ
position buffer pos = ok (pos, pos)

-- pos += n
abbrev pub advance : ℕ → Reader (Unit {0})
advance n buffer pos = ok (tt, add32 pos n)

-- `buffer[i]` of a const std::string: the element behind the last is '\0'.
unfoldable pub char_at : List ℕ → ℕ → Outcome ℕ
char_at [] zero = ok 0
char_at [] (suc i) = fault undefined
char_at (c ∷ cs) zero = ok c
char_at (c ∷ cs) (suc i) = char_at cs i

-- buffer[*next_pos - k]
abbrev pub byte_back : ℕ → Reader ℕ
byte_back k buffer pos = lift (char_at buffer (sub32 pos k)) buffer pos

-- std::string::substr; a length beyond the end stops there.
unfoldable pub substr : List ℕ → ℕ → ℕ → Outcome (List ℕ)
substr buffer pos len =
    if ltb (length buffer) pos then fault out_of_range else ok (take len (drop pos buffer))

abbrev pub substr_from : ℕ → ℕ → Reader (List ℕ)
substr_from start len buffer pos = lift (substr buffer start len) buffer pos
