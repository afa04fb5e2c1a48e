-- ===== src/Messages/ExecuteRoundTrip.antt =====
-- Writing and reading Execute (execute_messages.h).
use native.Mathlib.Nat.{mod-eq_of_lt}
use rpc_library.Common.{
  ℕ, ◌+◌, ◌-◌, ◌*◌, ◌^◌, ◌<◌, ◌≡◌, refl, ap, List, [], ◌∷◌, ◌++◌, length, length-append,
  append_assoc, arith, ok, ◌>>=◌, All-imp, ltb, false, take-length, take-append_self,
  drop-append_self, take, drop,
}
use rpc_library.Arg.{number_of_args, AreArgTypes, terminated, size_in_bytes}
use rpc_library.Arg.Counting.{number_of_args-terminated}
use rpc_library.Message.{raw_message, byte_of_type}
use rpc_library.Message
use rpc_library.Wire.{encode_string}
use rpc_library.Wire.Fields.{Decodes, Decodes-bind, Decodes-map, Decodes-end, Decodes-pure, Fits}
use rpc_library.Wire.RoundTrip.{decode_string-encode_string, length-encode_string}
use rpc_library.Messages.Fields.{
  type_fields, length-type_fields, decode_arg_types-Decodes, copy_arg_types-terminated,
  encode_arg_types-terminated, read_message-Decodes,
}
use rpc_library.Messages.Execute.{
  Execute, read_block, copy_args, new_execute, encode_args, serialize_execute, read_bytes,
  decode_args, read_execute, deserialize_execute,
}

-- Each block holds exactly the bytes that its type announces.
abbrev pub BlocksFit : List ℕ → List (List ℕ) → Type 0
BlocksFit [] [] = Unit {0}
BlocksFit [] (b ∷ bs) = ⊥
BlocksFit (t ∷ ts) [] = ⊥
BlocksFit (t ∷ ts) (b ∷ bs) = (length b ≡ size_in_bytes t) × BlocksFit ts bs

abbrev pub joined : List (List ℕ) → List ℕ
joined [] = []
joined (b ∷ bs) = b ++ joined bs

pub read_block-all : (n : ℕ) (b : List ℕ) → length b ≡ n → read_block n b ≡ ok b
unfolding read_block
read_block-all n b e = rw (← e, within) (ap ok (take-length b))
  where
    within : ltb (length b) (length b) ≡ false
    within = ground arith

copy_args-BlocksFit : (ts : List ℕ) (bs : List (List ℕ)) → BlocksFit ts bs → copy_args ts bs ≡ ok bs
unfolding copy_args
copy_args-BlocksFit [] [] h = refl
copy_args-BlocksFit [] (b ∷ bs) h = absurd h
copy_args-BlocksFit (t ∷ ts) [] h = absurd h
copy_args-BlocksFit (t ∷ ts) (b ∷ bs) h =
    rw (read_block-all (size_in_bytes t) b h.0, copy_args-BlocksFit ts bs h.1) refl

encode_args-BlocksFit :
    (ts : List ℕ) (bs : List (List ℕ)) → BlocksFit ts bs → encode_args ts bs ≡ ok (joined bs)
unfolding encode_args
encode_args-BlocksFit [] [] h = refl
encode_args-BlocksFit [] (b ∷ bs) h = absurd h
encode_args-BlocksFit (t ∷ ts) [] h = absurd h
encode_args-BlocksFit (t ∷ ts) (b ∷ bs) h =
    rw (read_block-all (size_in_bytes t) b h.0, encode_args-BlocksFit ts bs h.1) refl

block_at :
    (front s rest : List ℕ)
    → take (length s) (drop (length front) (front ++ (s ++ rest) ++ 0 ∷ [])) ≡ s
block_at front s rest =
    rw
      (
        append_assoc front (s ++ rest) (0 ∷ []),
        drop-append_self front (s ++ rest ++ 0 ∷ []),
        append_assoc s rest (0 ∷ []),
      )
      (take-append_self s (rest ++ 0 ∷ []))

read_bytes-Decodes : (s : List ℕ) → Decodes (read_bytes (length s)) s s
unfolding read_bytes
read_bytes-Decodes s = record {
  at = λ front rest fits.
      rw (within front rest, block_at front s rest)
        (ap (λ (n : ℕ). ok (s, n)) (mod-eq_of_lt (small front rest fits)));
}
  where
    within :
        (front rest : List ℕ)
        → ltb (length (front ++ (s ++ rest)) + 1) (length front + length s) ≡ false
    within front rest = ground (arith, length-append front (s ++ rest), length-append s rest)

    small : (front rest : List ℕ) → Fits (front ++ (s ++ rest)) → length front + length s < 2 ^ 32
    small front rest fits = omega (arith, length-append front (s ++ rest), length-append s rest)

decode_args-Decodes :
    (ts : List ℕ) (bs : List (List ℕ)) → BlocksFit ts bs → Decodes (decode_args ts) (joined bs) bs
unfolding decode_args
decode_args-Decodes [] [] h = Decodes-pure []
decode_args-Decodes [] (b ∷ bs) h = absurd h
decode_args-Decodes (t ∷ ts) [] h = absurd h
decode_args-Decodes (t ∷ ts) (b ∷ bs) h =
    Decodes-bind {r = read_bytes (size_in_bytes t)} _ b (joined bs) b (b ∷ bs)
      (rw (← h.0) (read_bytes-Decodes b))
      (Decodes-map (◌∷◌ b) (joined bs) bs (decode_args-Decodes ts bs h.1))

abbrev pub call : List ℕ → List ℕ → List (List ℕ) → Execute
call name args blocks = record { function_name = name; arg_types = terminated args; args = blocks }

module _ (name args : List ℕ) (blocks : List (List ℕ)) (valid : AreArgTypes args)
    (filled : BlocksFit args blocks) where
  abbrev execute_fields : List ℕ
  execute_fields = encode_string name ++ (type_fields args ++ joined blocks)

  counted : number_of_args (args ++ 0 ∷ []) ≡ ok (length args)
  counted = number_of_args-terminated args [] (All-imp (λ t h. h.0) args valid)

  -- The constructor copies the arguments whole.
  pub new_execute-call : new_execute name (args ++ 0 ∷ []) blocks ≡ ok (call name args blocks)
  unfolding new_execute
  new_execute-call =
      rw
        (
          counted,
          copy_arg_types-terminated args valid [],
          take-append_self args (0 ∷ []),
          copy_args-BlocksFit args blocks filled,
        )
        refl

  pub serialize_execute-call :
      serialize_execute (call name args blocks)
      ≡ ok (raw_message (byte_of_type Message.execute ∷ execute_fields))
  unfolding serialize_execute
  serialize_execute-call =
      rw
        (
          counted,
          encode_arg_types-terminated args valid,
          take-append_self args (0 ∷ []),
          encode_args-BlocksFit args blocks filled,
        )
        refl

  module _ (fits : length name + 4 * length args + length (joined blocks) + 9 < 2 ^ 31) where
    fields : Decodes read_execute execute_fields (call name args blocks)
    unfolding read_execute
    fields =
        Decodes-bind _ (encode_string name) _ name _
          (decode_string-encode_string name (omega arith))
          (Decodes-bind _ (type_fields args) (joined blocks) args _
            (decode_arg_types-Decodes args valid (omega arith))
            (Decodes-end _ (joined blocks) blocks _ (decode_args-Decodes args blocks filled)
              new_execute-call))

    size : length execute_fields < 2 ^ 31 - 1
    size = omega (
      arith,
      length-append (encode_string name) (type_fields args ++ joined blocks),
      length-append (type_fields args) (joined blocks),
      length-encode_string name,
      length-type_fields args,
    )

    -- An Execute with a well-formed array of argument types, and arguments of the announced sizes,
    -- is read back from its bytes as it was, if the bytes number less than 2 ^ 31.
    pub execute_round_trip :
        (serialize_execute (call name args blocks) >>= deserialize_execute)
        ≡ ok (call name args blocks)
    unfolding deserialize_execute raw_message
    execute_round_trip = rw serialize_execute-call (read_message-Decodes _ _ _ size fields)
