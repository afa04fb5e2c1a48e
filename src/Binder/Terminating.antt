-- ===== src/Binder/Terminating.antt =====
-- `handleTerminate` of binder.cc. What sending to a server and receiving from it came to is a
-- parameter.
use mathlib.Core.List.{map}
use rpc_library.Common.{
  ℕ, ◌≡◌, refl, ap, Bool, true, false, List, [], ◌∷◌, if◌then◌else◌, Option, none, some, Outcome,
  ok, fault, bad_alloc, ◌>>=◌, Bool-cases, inl, inr,
}
use rpc_library.Message.{
  MessageType, terminate, terminate_success, terminate_failure, RawMessage, raw_message,
  empty_message, int_of_code, unexpected_message, server_connection_error, StatusCode,
}
use rpc_library.Messages.Status.{serialize_status}
use rpc_library.Binder.Server.{ServerData}
use rpc_library.Binder.Database.{Entry, BinderDatabase, server_of}

-- The bytes of the answer, or an `Error` from the sending or the receiving; or the `bad_alloc` of a `recv`
-- that reads a length below -1, which is no `Error` and is not caught.
pub data Reply : Type 0 where
  answered : List ℕ → Reply
  failed : Reply
  overflows : Reply

abbrev pub is_terminate_success : MessageType → Bool
is_terminate_success terminate_success = true
is_terminate_success _ = false

-- `had_error` and `error_message`, and the messages sent, newest last.
pub record Progress : Type 0 where
  pub had_error : Bool
  pub error_message : RawMessage

-- What one round of the loop does with a reply.
unfoldable pub note_reply : Reply → Progress → Outcome Progress
note_reply failed p = ok (record {
  had_error = true;
  error_message = serialize_status terminate_failure (int_of_code server_connection_error);
})
note_reply overflows p = fault bad_alloc
note_reply (answered bytes) p =
    if is_terminate_success (raw_message bytes).message_type
    then ok p
    else ok (record {
      had_error = true;
      error_message = serialize_status terminate_failure (int_of_code unexpected_message);
    })

unfoldable pub terminate_servers : (ServerData → Reply) → List Entry → Progress → Outcome Progress
terminate_servers replies [] p = ok p
terminate_servers replies (e ∷ es) p = do
  p' ← note_reply (replies e.server) p
  terminate_servers replies es p'

-- What the binder writes to the sockets of the servers, in order.
unfoldable pub terminate_messages : BinderDatabase → List (ℕ × RawMessage)
terminate_messages db =
    map (λ (e : Entry). (e.server.server_socket, serialize_status terminate 0))
      db.server_to_timestamp

unfoldable pub handle_terminate : (ServerData → Reply) → BinderDatabase → Outcome RawMessage
handle_terminate replies db = do
  p ←
      terminate_servers replies db.server_to_timestamp
        (record { had_error = false; error_message = empty_message })
  ok (if p.had_error then p.error_message else serialize_status terminate_success 0)

-- What is wrong with a reply, if anything.
abbrev pub failure_of : Reply → Option StatusCode
failure_of failed = some server_connection_error
failure_of overflows = some server_connection_error
failure_of (answered bytes) =
    if is_terminate_success (raw_message bytes).message_type then none else some unexpected_message

-- The last server in the order of the map whose reply is wrong decides.
abbrev pub last_failure : (ServerData → Reply) → List Entry → Option StatusCode
last_failure replies [] = none
last_failure replies (e ∷ es) =
    let later = last_failure replies es in
    elim later [ some c ↦ some c | none ↦ failure_of (replies e.server) ]

abbrev pub failure_message : StatusCode → RawMessage
failure_message c = serialize_status terminate_failure (int_of_code c)

-- The progress that stands for no failure so far, or for the last one.
abbrev progress_of : Option StatusCode → Progress
progress_of none = record { had_error = false; error_message = empty_message }
progress_of (some c) = record { had_error = true; error_message = failure_message c }

abbrev or_else : Option StatusCode → Option StatusCode → Option StatusCode
or_else (some c) d = some c
or_else none d = d

abbrev pub is_overflow : Reply → Bool
is_overflow overflows = true
is_overflow _ = false

-- A reply to one of these servers' Terminates ends the program.
abbrev pub any_overflow : (ServerData → Reply) → List ServerData → Bool
any_overflow replies [] = false
any_overflow replies (s ∷ ss) =
    let later = any_overflow replies ss in if is_overflow (replies s) then true else later

abbrev pub or_bad_alloc : {A : Type 0} → Bool → A → Outcome A
or_bad_alloc true a = fault bad_alloc
or_bad_alloc false a = ok a

note_reply-progress :
    (r : Reply) (o : Option StatusCode)
    → note_reply r (progress_of o)
      ≡ or_bad_alloc (is_overflow r) (progress_of (or_else (failure_of r) o))
unfolding note_reply
note_reply-progress failed o = refl
note_reply-progress overflows o = refl
note_reply-progress (answered bytes) o =
    elim (Bool-cases (is_terminate_success (raw_message bytes).message_type)) [
      | inl fine ↦ rw fine refl
      | inr wrong ↦ rw wrong refl
    ]

or_else_assoc : (a b c : Option StatusCode) → or_else a (or_else b c) ≡ or_else (or_else a b) c
or_else_assoc none b c = refl
or_else_assoc (some a) b c = refl

last_failure-cons :
    (replies : ServerData → Reply) (e : Entry) (es : List Entry)
    → last_failure replies (e ∷ es)
      ≡ or_else (last_failure replies es) (failure_of (replies e.server))
last_failure-cons replies e es = cases (last_failure replies es)
  where
    cases :
        (o : Option StatusCode)
        → elim o [ some c ↦ some c | none ↦ failure_of (replies e.server) ]
          ≡ or_else o (failure_of (replies e.server))
    cases none = refl
    cases (some c) = refl

terminate_servers-progress :
    (replies : ServerData → Reply) (es : List Entry) (o : Option StatusCode)
    → terminate_servers replies es (progress_of o)
      ≡ or_bad_alloc
          (any_overflow replies (map server_of es))
          (progress_of (or_else (last_failure replies es) o))
unfolding terminate_servers
terminate_servers-progress replies [] o = refl
terminate_servers-progress replies (e ∷ es) o = elim (Bool-cases (is_overflow (replies e.server))) [
  | inl over ↦ rw (note_reply-progress (replies e.server) o, over) refl
  | inr fine ↦
      rw
        (
          note_reply-progress (replies e.server) o,
          fine,
          ◌>>=◌,
          terminate_servers-progress replies es (or_else (failure_of (replies e.server)) o),
          last_failure-cons replies e es,
        )
        (ap
          (λ (p : Option StatusCode).
            or_bad_alloc (any_overflow replies (map server_of es)) (progress_of p))
          (or_else_assoc _ _ o))
]

-- What the binder answers if no reply overflows
abbrev pub verdict : Option StatusCode → RawMessage
verdict none = serialize_status terminate_success 0
verdict (some c) = failure_message c

-- If a `recv` from a server reads a length below -1, then a Terminate ends the binder by a `bad_alloc`.
-- Otherwise the binder answers it with success exactly if every server in its map confirmed, and else
-- with the failure of the last server that did not.
pub handle_terminate-last_failure :
    (replies : ServerData → Reply) (db : BinderDatabase)
    → handle_terminate replies db ≡ (
        if any_overflow replies (map server_of db.server_to_timestamp)
        then fault bad_alloc
        else ok (verdict (last_failure replies db.server_to_timestamp)))
unfolding handle_terminate
handle_terminate-last_failure replies db =
    rw (terminate_servers-progress replies db.server_to_timestamp none) (
      answer (any_overflow replies (map server_of db.server_to_timestamp))
        (last_failure replies db.server_to_timestamp))
  where
    answer :
        (b : Bool) (o : Option StatusCode)
        → (or_bad_alloc b (progress_of (or_else o none)) >>= λ p.
            ok (if p.had_error then p.error_message else serialize_status terminate_success 0))
          ≡ (if b then fault bad_alloc else ok (verdict o))
    answer true o = refl
    answer false none = refl
    answer false (some c) = refl

-- Servers that all confirm do not end the program.
pub confirmed-any_overflow :
    (replies : ServerData → Reply) (es : List Entry)
    → last_failure replies es ≡ none
    → any_overflow replies (map server_of es) ≡ false
confirmed-any_overflow replies [] h = refl
confirmed-any_overflow replies (e ∷ es) h =
    let e_fails = rw (last_failure-cons replies e es) at h in
    let (later, now) = or_else-none _ _ e_fails in
    rw (failure_of-none (replies e.server) now) (confirmed-any_overflow replies es later)
  where
    or_else-none : (a b : Option StatusCode) → or_else a b ≡ none → (a ≡ none) × (b ≡ none)
    or_else-none none b h = (refl, h)
    or_else-none (some a) b h = cc h

    failure_of-none : (r : Reply) → failure_of r ≡ none → is_overflow r ≡ false
    failure_of-none failed h = refl
    failure_of-none overflows h = cc h
    failure_of-none (answered bytes) h = refl
