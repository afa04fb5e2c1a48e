-- ===== src/Libserver/Serving.antt =====
-- What a server's answer to an Execute is (libserver.cc, `handle_execute`), from bytes to bytes.
use rpc_library.Common.{
  ℕ, ◌+◌, ◌*◌, ◌^◌, ◌<◌, ◌≡◌, refl, List, ◌∷◌, ◌++◌, length, none, some, ok, ◌>>=◌,
}
use rpc_library.Arg.{AreArgTypes, terminated}
use rpc_library.Signature.{Signature, signature_of_arg_types}
use rpc_library.Message
use rpc_library.Message.{RawMessage, raw_message, byte_of_type, unexpected_message, int_of_code}
use rpc_library.Wire.{encode_string}
use rpc_library.Messages.Fields.{type_fields}
use rpc_library.Messages.Status.{serialize_status}
use rpc_library.Messages.Execute.{deserialize_execute}
use rpc_library.Messages.ExecuteRoundTrip.{
  BlocksFit, joined, call, new_execute-call, serialize_execute-call, execute_round_trip,
}
use rpc_library.Libserver.{
  Skeleton, ServerDatabase, skeleton_of, after_skeleton, handle_execute, answer_execute,
}

-- The bytes of an Execute.
abbrev pub execute_bytes : List ℕ → List ℕ → List (List ℕ) → List ℕ
execute_bytes name args blocks =
    Message.byte_of_type Message.execute ∷ encode_string name ++ (type_fields args ++ joined blocks)

module _ (name args : List ℕ) (blocks : List (List ℕ)) (valid : AreArgTypes args)
    (filled : BlocksFit args blocks)
    (fits : length name + 4 * length args + length (joined blocks) + 9 < 2 ^ 31) where
  pub read_back :
      deserialize_execute (raw_message (execute_bytes name args blocks))
      ≡ ok (call name args blocks)
  read_back =
      rw (serialize_execute-call name args blocks valid filled) at
        (execute_round_trip name args blocks valid filled fits)

  module _ (sig : Signature) (database : ServerDatabase)
      (signed : signature_of_arg_types name (terminated args) ≡ ok sig) where
    pub answer_execute_unknown :
        skeleton_of sig database ≡ none
        → answer_execute (raw_message (execute_bytes name args blocks)) database
          ≡ ok (serialize_status Message.execute_failure (int_of_code unexpected_message)).buffer
    unfolding answer_execute handle_execute
    answer_execute_unknown missing = rw (read_back, signed, ◌>>=◌, missing) refl

    pub answer_execute_runs :
        (f : Skeleton) (outs : List (List ℕ))
        → skeleton_of sig database ≡ some f
        → f (terminated args) blocks ≡ (0, outs)
        → BlocksFit args outs
        → answer_execute (raw_message (execute_bytes name args blocks)) database
          ≡ ok (execute_bytes name args outs)
    unfolding answer_execute handle_execute after_skeleton raw_message
    answer_execute_runs f outs found ran kept =
        rw
          (
            read_back,
            signed,
            ◌>>=◌,
            found,
            ran,
            new_execute-call name args outs valid kept,
            serialize_execute-call name args outs valid kept,
          )
          refl
