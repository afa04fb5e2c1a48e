-- ===== src/Message/Memory.antt =====
-- The memory of the RawMessages of message.cc: the blocks that they allocate, copy and free. Where `new`
-- allocates is a parameter of each event.
pub mod Ownership
pub mod Values
pub mod Runs
use rpc_library.Common.{
  ℕ, List, [], ◌∷◌, length, take, Option, none, some, Outcome, ok, fault, undefined, ◌>>=◌, ltb,
  ◌==◌, if◌then◌else◌,
}
use rpc_library.Message.{MessageType, extract_message_type}

-- The members of a RawMessage; `address` is the pointer `buffer`.
pub record Held : Type 0 where
  pub address : ℕ
  pub size : ℕ
  pub type : MessageType

-- The blocks at the addresses where something is allocated
abbrev pub Blocks : Type 0
Blocks = ℕ → Option (List ℕ)

abbrev pub put {ℓ} : {A : Type ℓ} → ℕ → A → (ℕ → A) → ℕ → A
put i a f x = if x == i then a else f x

-- copy_buffer(source, size)
unfoldable pub copy_buffer : ℕ → ℕ → ℕ → Blocks → Outcome Blocks
copy_buffer source size address blocks = elim (blocks source) [
  | none ↦ fault undefined
  | some bytes ↦
      if ltb (length bytes) size
      then fault undefined
      else ok (put address (some (take size bytes)) blocks)
]

-- RawMessage(const char*, int), on bytes of the caller
unfoldable pub construct : ℕ → List ℕ → Blocks → Held × Blocks
construct address bytes blocks = (
  record { address = address; size = length bytes; type = extract_message_type bytes },
  put address (some bytes) blocks,
)

-- RawMessage(const RawMessage&)
unfoldable pub copy_message : ℕ → Held → Blocks → Outcome (Held × Blocks)
copy_message address other blocks = do
  copied ← copy_buffer other.address other.size address blocks
  ok (record { address = address; size = other.size; type = other.type }, copied)

-- ~RawMessage
unfoldable pub delete_message : Held → Blocks → Outcome Blocks
delete_message m blocks = elim (blocks m.address) [
  | none ↦ fault undefined
  | some bytes ↦ ok (put m.address none blocks)
]

-- operator=, for another object: a copy, the swaps, and the end of `tmp`, which has the old members
unfoldable pub assign_message : ℕ → Held → Held → Blocks → Outcome (Held × Blocks)
assign_message address this other blocks = do
  (tmp, copied) ← copy_message address other blocks
  let this' = tmp
  let tmp' = this
  left ← delete_message tmp' copied
  ok (this', left)

-- All blocks, and the objects by their names
pub record Memory : Type 0 where
  pub blocks : Blocks
  pub objects : ℕ → Option Held

-- What a program does with its RawMessages: the object, another object, the address of a new block
pub data MessageEvent : Type 0 where
  constructs : ℕ → ℕ → List ℕ → MessageEvent
  copies : ℕ → ℕ → ℕ → MessageEvent
  assigns : ℕ → ℕ → ℕ → MessageEvent
  destroys : ℕ → MessageEvent

abbrev pub object_at : Memory → ℕ → Outcome Held
object_at mem i = elim (mem.objects i) [ none ↦ fault undefined | some m ↦ ok m ]

unfoldable pub message_step : Memory → MessageEvent → Outcome Memory
message_step mem (constructs i address bytes) =
    let (m, blocks) = construct address bytes mem.blocks in
    ok (record { blocks = blocks; objects = put i (some m) mem.objects })
message_step mem (copies i other address) = do
  source ← object_at mem other
  (m, blocks) ← copy_message address source mem.blocks
  ok (record { blocks = blocks; objects = put i (some m) mem.objects })
message_step mem (assigns i other address) =
    if i == other
    then ok mem
    else (object_at mem i >>= λ this. object_at mem other >>= λ source.
        assign_message address this source mem.blocks >>= λ (m, blocks).
        ok (record { blocks = blocks; objects = put i (some m) mem.objects }))
message_step mem (destroys i) = do
  m ← object_at mem i
  blocks ← delete_message m mem.blocks
  ok (record { blocks = blocks; objects = put i none mem.objects })

unfoldable pub message_run : Memory → List MessageEvent → Outcome Memory
message_run mem [] = ok mem
message_run mem (e ∷ es) = message_step mem e >>= λ mem'. message_run mem' es

abbrev pub empty_memory : Memory
empty_memory = record { blocks = λ a. none; objects = λ i. none }
