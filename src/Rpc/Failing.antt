-- ===== src/Rpc/Failing.antt =====
-- What `rpcCall` of rpc.cc leaves behind when it reports anything but success.
use rpc_library.Common.{
  ℕ, ◌≡◌, ◌≢◌, refl, sym, ◌∙◌, Bool, List, Option, none, some, Outcome, ok, fault, ◌>>=◌,
  Bool-cases, inl, inr, Option-cases,
}
use rpc_library.Message
use rpc_library.Message.{
  int_of_code, server_connection_error, binder_connection_error, MessageType, RawMessage,
  raw_message,
}
use rpc_library.Messages.Status.{deserialize_status}
use rpc_library.Messages.Locate.{
  new_locate_request, serialize_locate_request, deserialize_locate_success,
}
use rpc_library.Messages.Execute.{new_execute, serialize_execute, deserialize_execute}
use rpc_library.Rpc.{
  Exchange, Network, RpcState, Returned, rpc_call, locate_and_call, locate_answer, call_server,
  execute_answer, copy_output_arguments_back, with_binder,
}

-- If there is a result with another status than 0, the arguments are `args`.
abbrev Unchanged : List (List ℕ) → Outcome Returned → Type 0
Unchanged args (ok (status, after)) = status ≢ 0 → after ≡ args
Unchanged args (fault e) = Unit {0}

module _ (args : List (List ℕ)) where
  Unchanged-bind :
      {A : Type 0} (o : Outcome A) (f : A → Outcome Returned)
      → ((a : A) → Unchanged args (f a))
      → Unchanged args (o >>= f)
  Unchanged-bind (ok a) f h = h a
  Unchanged-bind (fault e) f h = tt

  execute_answer-Unchanged :
      (type : MessageType) (raw : RawMessage) → Unchanged args (execute_answer type raw args)
  unfolding execute_answer
  execute_answer-Unchanged Message.execute raw =
      Unchanged-bind (deserialize_execute raw) _ λ result.
        Unchanged-bind (copy_output_arguments_back result args) _
          λ outputs. λ nonzero. absurd (nonzero refl)
  execute_answer-Unchanged Message.execute_failure raw =
      Unchanged-bind (deserialize_status raw) _ λ status. λ nonzero. refl
  execute_answer-Unchanged _ raw = λ nonzero. refl

  module _ (network : Network) (name arg_types : List ℕ) where
    call_server-Unchanged :
        (host : List ℕ) (port : ℕ)
        → Unchanged args (call_server network host port name arg_types args)
    unfolding call_server
    call_server-Unchanged host port = elim (Option-cases (network host port)) [
      | inl nowhere ↦ rw (Unchanged, call_server, nowhere) (λ nonzero. refl)
      | inr (server, there) ↦
          rw (Unchanged, call_server, there)
            (Unchanged-bind (new_execute name arg_types args) _ λ message.
              Unchanged-bind (serialize_execute message) _ λ sent. received (server sent.buffer))
    ]
      where
        received :
            (o : Option (List ℕ))
            → Unchanged args (elim o [
              | none ↦ ok (int_of_code server_connection_error, args)
              | some response ↦
                  execute_answer (raw_message response).message_type (raw_message response) args
            ])
        received none = λ nonzero. refl
        received (some response) = execute_answer-Unchanged _ _

    locate_answer-Unchanged :
        (type : MessageType) (raw : RawMessage)
        → Unchanged args (locate_answer type raw network name arg_types args)
    unfolding locate_answer
    locate_answer-Unchanged Message.locate_failure raw = λ nonzero. refl
    locate_answer-Unchanged Message.locate_success raw =
        Unchanged-bind (deserialize_locate_success raw) _
          λ place. call_server-Unchanged place.server_hostname place.server_port
    locate_answer-Unchanged _ raw = λ nonzero. refl

    locate_and_call-Unchanged :
        (binder : Exchange) → Unchanged args (locate_and_call binder network name arg_types args)
    unfolding locate_and_call
    locate_and_call-Unchanged binder =
        Unchanged-bind (new_locate_request name arg_types) _ λ locate.
          Unchanged-bind (serialize_locate_request locate) _ λ sent. received (binder sent.buffer)
      where
        received :
            (o : Option (List ℕ))
            → Unchanged args (elim o [
              | none ↦ ok (int_of_code binder_connection_error, args)
              | some response ↦
                  locate_answer
                    (raw_message response).message_type
                    (raw_message response)
                    network
                    name
                    arg_types
                    args
            ])
        received none = λ nonzero. refl
        received (some response) = locate_answer-Unchanged _ _

abbrev with_state : RpcState → Outcome Returned → Outcome (Returned × RpcState)
with_state st o = o >>= λ r. ok (r, st)

-- A call that returns any other status than 0 leaves the arguments as they were, whatever the binder
-- and the server send.
pub call_failed_unchanged :
    (name arg_types : List ℕ) (args : List (List ℕ)) (connects : Bool) (exchange : Exchange)
    (network : Network) (st st' : RpcState) (status : ℕ) (after : List (List ℕ))
    → rpc_call name arg_types args connects exchange network st ≡ ok ((status, after), st')
    → status ≢ 0
    → after ≡ args
unfolding rpc_call
call_failed_unchanged name arg_types args connects exchange network st st' status after returned
      nonzero =
    elim (Bool-cases (with_binder connects st).binder) [
      | inl reached ↦
          behind (locate_and_call exchange network name arg_types args)
            (locate_and_call-Unchanged args network name arg_types exchange)
            (rw (rpc_call, reached) at returned)
      | inr apart ↦ cc (rw (rpc_call, apart) at returned)
    ]
  where
    behind :
        (o : Outcome Returned)
        → Unchanged args o
        → with_state (with_binder connects st) o ≡ ok ((status, after), st')
        → after ≡ args
    behind (ok (s, a)) h e =
        let same : a ≡ after = cc in
        let its : s ≡ status = cc in sym same ∙ h (λ z. nonzero (sym its ∙ z))
    behind (fault f) h e = cc
