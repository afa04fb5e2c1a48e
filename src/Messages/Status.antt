-- ===== src/Messages/Status.antt =====
-- MAKE_STATUS_MESSAGE (protocol_macros.h), which makes RegisterSuccess, RegisterFailure,
-- LocateFailure, ExecuteFailure, Terminate, TerminateSuccess and TerminateFailure: a message with
-- an `int` status that travels as one `char`.
use rpc_library.Common.{
  ℕ, ◌+◌, ◌^◌, ◌<◌, ◌≤◌, ◌≡◌, ◌⊎◌, ◌↔◌, refl, Outcome, ok, ◌>>=◌, [], ◌∷◌, arith, ap,
}
use rpc_library.Common.Ints.{IsInt, pos, negsuc, signed, char_of_int, int_of_char}
use rpc_library.Message.{
  StatusCode, server_socket_creation_error, binder_connection_error, unexpected_message,
  server_connection_error, locate_failure_code, int_of_code, MessageType, byte_of_type, RawMessage,
  raw_message, get_byte_at,
}

-- `type` is the macro's parameter `Type`.
unfoldable pub serialize_status : MessageType → ℕ → RawMessage
unfolding raw_message
serialize_status type status = raw_message (byte_of_type type ∷ char_of_int status ∷ [])

-- `int status = raw_message.getByte(1)`
unfoldable pub deserialize_status : RawMessage → Outcome ℕ
unfolding get_byte_at
deserialize_status m = do c ← get_byte_at m 1; ok (int_of_char c)

-- The statuses that fit a `char`: -128 to 127.
abbrev pub FitsChar : ℕ → Type 0
FitsChar status = (status < 128) ⊎ (2 ^ 32 ≤ status + 128)

-- What arrives is the status cut to a `char`, whatever the type of the message.
pub deserialize_status-serialize_status :
    (type : MessageType) (status : ℕ)
    → deserialize_status (serialize_status type status) ≡ ok (int_of_char (char_of_int status))
unfolding deserialize_status serialize_status
deserialize_status-serialize_status type status = refl

-- A status, an `int`, is read back as it was sent exactly if it lies between -128 and 127.
pub status_survives_iff :
    (type : MessageType) (status : ℕ)
    → IsInt status
    → (deserialize_status (serialize_status type status) ≡ ok status) ↔ FitsChar status
unfolding deserialize_status serialize_status
status_survives_iff type status h = (λ e. ground arith, λ f. ap ok (ground arith))

-- No code of `StatusCodes` survives: each is negative, and each arrives as a positive number, which
-- the protocol reads as a warning and not as an error.
pub status_codes_arrive_positive :
    (type : MessageType) (c : StatusCode)
    → (n : ℕ) × (w : ℕ) × (signed (int_of_code c) ≡ negsuc n)
      × (deserialize_status (serialize_status type (int_of_code c)) ≡ ok w)
      × (signed w ≡ pos w)
      × (0 < w)
unfolding deserialize_status serialize_status
status_codes_arrive_positive type server_socket_creation_error =
    (1000, 23, refl, refl, refl, omega arith)
status_codes_arrive_positive type binder_connection_error =
    (1001, 22, refl, refl, refl, omega arith)
status_codes_arrive_positive type unexpected_message = (1002, 21, refl, refl, refl, omega arith)
status_codes_arrive_positive type server_connection_error =
    (1003, 20, refl, refl, refl, omega arith)
status_codes_arrive_positive type locate_failure_code = (1004, 19, refl, refl, refl, omega arith)
