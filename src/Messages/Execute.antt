-- ===== src/Messages/Execute.antt =====
-- execute_messages.h and execute_messages.cc. An argument is the block of bytes that its pointer
-- leads to; reading beyond a block is `fault undefined`.
use rpc_library.Common.{
  ℕ, ◌+◌, List, [], ◌∷◌, ◌++◌, length, take, drop, Outcome, ok, fault, undefined, ◌>>=◌, ltb,
  if◌then◌else◌,
}
use rpc_library.Common.Ints.{add32}
use rpc_library.Arg.{number_of_args, size_in_bytes}
use rpc_library.Message.{RawMessage, raw_message, byte_of_type, execute}
use rpc_library.Wire.{encode_string, decode_string}
use rpc_library.Wire.Cursor
use rpc_library.Wire.Cursor.{Reader, pure, lift}
use rpc_library.Messages.Fields.{copy_arg_types, encode_arg_types, decode_arg_types, read_message}

pub record Execute : Type 0 where
  pub function_name : List ℕ
  pub arg_types : List ℕ
  pub args : List (List ℕ)

-- The first `n` bytes of a block, as `memcpy` and the constructor of std::string read them.
unfoldable pub read_block : ℕ → List ℕ → Outcome (List ℕ)
read_block n block = if ltb (length block) n then fault undefined else ok (take n block)

-- The loop of Execute::Execute over the arguments
unfoldable pub copy_args : List ℕ → List (List ℕ) → Outcome (List (List ℕ))
unfolding read_block
copy_args [] blocks = ok []
copy_args (t ∷ ts) [] = fault undefined
copy_args (t ∷ ts) (b ∷ bs) = do
  copy ← read_block (size_in_bytes t) b
  copies ← copy_args ts bs
  ok (copy ∷ copies)

-- Execute::Execute
unfoldable pub new_execute : List ℕ → List ℕ → List (List ℕ) → Outcome Execute
new_execute function_name arg_types arg_ptrs = do
  num_args ← number_of_args arg_types
  types ← copy_arg_types arg_types
  args ← copy_args (take num_args arg_types) arg_ptrs
  ok (record { function_name = function_name; arg_types = types; args = args })

-- The second loop of Serializer<Execute>::serialize
unfoldable pub encode_args : List ℕ → List (List ℕ) → Outcome (List ℕ)
unfolding read_block
encode_args [] blocks = ok []
encode_args (t ∷ ts) [] = fault undefined
encode_args (t ∷ ts) (b ∷ bs) = do
  arg_data ← read_block (size_in_bytes t) b
  more ← encode_args ts bs
  ok (arg_data ++ more)

-- Serializer<Execute>::serialize
unfoldable pub serialize_execute : Execute → Outcome RawMessage
serialize_execute m = do
  num_args ← number_of_args m.arg_types
  types ← encode_arg_types m.arg_types
  blocks ← encode_args (take num_args m.arg_types) m.args
  ok (raw_message (byte_of_type execute ∷ encode_string m.function_name ++ (types ++ blocks)))

-- memcpy(args[i], buffer.c_str() + pos, nbytes); pos += nbytes. c_str() has one more byte, '\0'.
unfoldable pub read_bytes : ℕ → Reader (List ℕ)
read_bytes n buffer pos =
    if ltb (length buffer + 1) (pos + n)
    then fault undefined
    else ok (take n (drop pos (buffer ++ 0 ∷ [])), add32 pos n)

-- The second loop of Serializer<Execute>::deserialize
unfoldable pub decode_args : List ℕ → Reader (List (List ℕ))
unfolding read_bytes
decode_args [] = pure []
decode_args (t ∷ ts) =
    Cursor.◌>>=◌ (read_bytes (size_in_bytes t))
      λ arg. Cursor.◌>>=◌ (decode_args ts) λ args. pure (arg ∷ args)

-- The fields of Serializer<Execute>::deserialize. The loop runs over all the elements that were
-- read, and not only over those before the first 0.
unfoldable pub read_execute : Reader Execute
read_execute = Cursor.◌>>=◌ decode_string λ function_name. Cursor.◌>>=◌ decode_arg_types λ ints.
    Cursor.◌>>=◌ (decode_args ints) λ args. lift (new_execute function_name (ints ++ 0 ∷ []) args)

-- Serializer<Execute>::deserialize
unfoldable pub deserialize_execute : RawMessage → Outcome Execute
deserialize_execute m = read_message read_execute m.buffer
