-- ===== src/Message.antt =====
-- message.h and message.cc: status codes, message types and the bytes of a message.
pub mod Memory
use rpc_library.Common.{ℕ, List, [], ◌∷◌, Outcome, ok, fault, undefined, ◌==◌, if◌then◌else◌}
use rpc_library.Common.Ints.{ℤ, negsuc, pattern_of}

-- enum class StatusCodes
pub data StatusCode : Type 0 where
  server_socket_creation_error : StatusCode
  binder_connection_error : StatusCode
  unexpected_message : StatusCode
  server_connection_error : StatusCode
  locate_failure_code : StatusCode

abbrev pub value_of_code : StatusCode → ℤ
value_of_code server_socket_creation_error = negsuc 1000
value_of_code binder_connection_error = negsuc 1001
value_of_code unexpected_message = negsuc 1002
value_of_code server_connection_error = negsuc 1003
value_of_code locate_failure_code = negsuc 1004

-- static_cast<int>(code)
abbrev pub int_of_code : StatusCode → ℕ
int_of_code c = pattern_of (value_of_code c)

-- enum class MessageType. A `char` that names no enumerator is `undeclared` with its byte.
pub data MessageType : Type 0 where
  register register_success register_failure : MessageType
  locate_request locate_success locate_failure : MessageType
  execute execute_failure : MessageType
  terminate terminate_success terminate_failure : MessageType
  unknown : MessageType
  undeclared : ℕ → MessageType

-- static_cast<char>(type), as a byte
unfoldable pub byte_of_type : MessageType → ℕ
byte_of_type register = 0
byte_of_type register_success = 1
byte_of_type register_failure = 2
byte_of_type locate_request = 3
byte_of_type locate_success = 4
byte_of_type locate_failure = 5
byte_of_type execute = 6
byte_of_type execute_failure = 7
byte_of_type terminate = 8
byte_of_type terminate_success = 9
byte_of_type terminate_failure = 10
byte_of_type unknown = 11
byte_of_type (undeclared b) = b

-- static_cast<MessageType>(c)
unfoldable pub type_of_byte : ℕ → MessageType
type_of_byte b =
    if b == 0
    then register
    else if b == 1
    then register_success
    else if b == 2
    then register_failure
    else if b == 3
    then locate_request
    else if b == 4
    then locate_success
    else if b == 5
    then locate_failure
    else if b == 6
    then execute
    else if b == 7
    then execute_failure
    else if b == 8
    then terminate
    else if b == 9
    then terminate_success
    else if b == 10
    then terminate_failure
    else if b == 11
    then unknown
    else undeclared b

unfoldable pub extract_message_type : List ℕ → MessageType
unfolding type_of_byte
extract_message_type [] = unknown
extract_message_type (c ∷ cs) = type_of_byte c

-- The length is that of the list.
pub record RawMessage : Type 0 where
  pub buffer : List ℕ
  pub message_type : MessageType

unfoldable pub raw_message : List ℕ → RawMessage
unfolding extract_message_type
raw_message buffer = record { buffer = buffer; message_type = extract_message_type buffer }

-- RawMessage()
unfoldable pub empty_message : RawMessage
unfolding raw_message
empty_message = raw_message []

byte_of : List ℕ → ℕ → Outcome ℕ
byte_of [] pos = fault undefined
byte_of (c ∷ cs) Prim.Native.Nat.ℕ.zero = ok c
byte_of (c ∷ cs) (Prim.Native.Nat.ℕ.suc pos) = byte_of cs pos

unfoldable pub get_byte_at : RawMessage → ℕ → Outcome ℕ
unfolding byte_of
get_byte_at m pos = byte_of m.buffer pos

abbrev pub get_string : RawMessage → List ℕ
get_string m = m.buffer
