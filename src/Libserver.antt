-- ===== src/Libserver.antt =====
-- libserver.h and libserver.cc: how a server answers its clients. A skeleton is a function of the
-- server's programmer; it is given the argument types and the blocks, and the blocks that it leaves
-- stand beside the `int` that it returns.
pub mod Serving
pub mod Thread
pub mod Threads
pub mod Counting
pub mod Leaving
pub mod Waiting
use mathlib.Core.Logic.{ite}
use rpc_library.Common.{
  ℕ, Bool, true, false, List, [], ◌∷◌, ◌++◌, Option, none, some, Outcome, ok, ◌>>=◌, ◌==◌,
  if◌then◌else◌,
}
use rpc_library.Signature.{Signature, signature_of_arg_types}
use rpc_library.Binder.Database.{Signature-discrete}
use rpc_library.Message
use rpc_library.Message.{MessageType, RawMessage, raw_message, unexpected_message, int_of_code}
use rpc_library.Messages.Status.{serialize_status}
use rpc_library.Messages.Execute.{Execute, new_execute, serialize_execute, deserialize_execute}

abbrev pub Skeleton : Type 0
Skeleton = List ℕ → List (List ℕ) → ℕ × List (List ℕ)

-- std::map<Signature, skeleton>; the order of its keys is never read.
abbrev pub ServerDatabase : Type 0
ServerDatabase = List (Signature × Skeleton)

-- count(signature) and at(signature)
unfoldable pub skeleton_of : Signature → ServerDatabase → Option Skeleton
skeleton_of sig [] = none
skeleton_of sig ((k, f) ∷ db) = ite (Signature-discrete sig k) (some f) (skeleton_of sig db)

-- database[signature] = f
unfoldable pub set_skeleton : Signature → Skeleton → ServerDatabase → ServerDatabase
set_skeleton sig f [] = (sig, f) ∷ []
set_skeleton sig f ((k, g) ∷ db) =
    ite (Signature-discrete sig k) ((k, f) ∷ db) ((k, g) ∷ set_skeleton sig f db)

-- What follows the call of the skeleton in handle_execute.
unfoldable pub after_skeleton : Execute → ℕ × List (List ℕ) → Outcome RawMessage
after_skeleton m (ret, args) =
    let success : Outcome RawMessage = do
      answer ← new_execute m.function_name m.arg_types args
      serialize_execute answer
    in if ret == 0 then success else ok (serialize_status Message.execute_failure ret)

unfoldable pub handle_execute : Execute → ServerDatabase → Outcome RawMessage
handle_execute m database = do
  signature ← signature_of_arg_types m.function_name m.arg_types
  elim (skeleton_of signature database) [
    | none ↦ ok (serialize_status Message.execute_failure (int_of_code unexpected_message))
    | some f ↦ after_skeleton m (f m.arg_types m.args)
  ]

-- From the reading of the message on: the bytes of the response.
unfoldable pub answer_execute : RawMessage → ServerDatabase → Outcome (List ℕ)
answer_execute raw database = do
  m ← deserialize_execute raw
  response ← handle_execute m database
  ok response.buffer

abbrev pub is_execute : MessageType → Bool
is_execute Message.execute = true
is_execute _ = false

-- One round of the loop of serve_client_thread behind a `recv` that succeeded: what is handed to
-- `send`, and whether the loop goes on. Each `send` succeeds or throws. What is sent first for a message
-- of another type is the client's own buffer.
unfoldable pub serve_round : List ℕ → Bool → Bool → ServerDatabase → Outcome (List (List ℕ) × Bool)
serve_round buffer first_sent second_sent database =
    let raw = raw_message buffer in
    let rest = answer_execute raw database >>= λ response. ok (response ∷ [], second_sent) in
    if is_execute raw.message_type
    then rest
    else if first_sent
    then (rest >>= λ (sent, more). ok (buffer ∷ sent, more))
    else ok (buffer ∷ [], false)

-- The loop of serve_client_thread: what the client sends, and what its `send`s come to, in order; the
-- end of the list is the `recv` that throws.
unfoldable pub serve_client_thread :
    List (List ℕ × Bool × Bool) → ServerDatabase → Outcome (List (List ℕ))
serve_client_thread [] database = ok []
serve_client_thread ((buffer, first_sent, second_sent) ∷ later) database =
    let after = serve_client_thread later database in
    serve_round buffer first_sent second_sent database >>= λ (sent, more). elim more [
      | true ↦ (after >>= λ others. ok (sent ++ others))
      | false ↦ ok sent
    ]
