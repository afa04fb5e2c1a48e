-- ===== src/Libserver/Thread.antt =====
-- The conversation of a thread of libserver.cc with its client (`serve_client_thread`).
use rpc_library.Common.{ℕ, ◌≡◌, refl, Bool, true, List, [], ◌∷◌, ok, ◌>>=◌}
use mathlib.Core.List.{map}
use rpc_library.Message.{raw_message}
use rpc_library.Libserver.{
  ServerDatabase, is_execute, answer_execute, serve_round, serve_client_thread,
}

-- A message with the response to it.
pub record Exchanged : Type 0 where
  pub sent : List ℕ
  pub response : List ℕ

-- The message is an Execute, and the response is the answer to it.
pub record IsAnswered (database : ServerDatabase) (x : Exchanged) : Type 0 where
  pub executes : is_execute (raw_message x.sent).message_type ≡ true
  pub answered : answer_execute (raw_message x.sent) database ≡ ok x.response

abbrev pub AreAnswered : ServerDatabase → List Exchanged → Type 0
AreAnswered database [] = Unit {0}
AreAnswered database (x ∷ xs) = IsAnswered database x × AreAnswered database xs

-- What the client sends, where every `send` of the server succeeds.
abbrev pub received : Exchanged → List ℕ × Bool × Bool
received x = (x.sent, true, true)

abbrev pub response_to : Exchanged → List ℕ
response_to x = x.response

-- A thread answers each Execute that its client sends with one message, in order, until the connection
-- ends, if each can be read and run and every `send` succeeds.
pub thread_answers_in_order :
    (database : ServerDatabase) (xs : List Exchanged)
    → AreAnswered database xs
    → serve_client_thread (map received xs) database ≡ ok (map response_to xs)
unfolding serve_client_thread serve_round
thread_answers_in_order database [] h = refl
thread_answers_in_order database (x ∷ xs) h =
    rw (h.0.executes, h.0.answered, ◌>>=◌, thread_answers_in_order database xs h.1) refl
