-- ===== src/Examples/Memory.antt =====
-- Two RawMessages, one of which is assigned to the other.
use mathlib.Core.Path.{subst}
use rpc_library.Common.{◌≡◌, refl, List, [], ◌∷◌, none, some, Outcome, ok, fault}
use rpc_library.Message.Memory.{
  copy_buffer, construct, copy_message, delete_message, assign_message, Memory, MessageEvent,
  constructs, assigns, destroys, message_step, message_run, empty_memory,
}
use rpc_library.Message.Memory.Ownership.{IsOwned}
use rpc_library.Message.Memory.Values.{values_of, value_run, IsAllowed}
use rpc_library.Message.Memory.Runs.{AreAllowed, messages_are_values}

abbrev message_events : List MessageEvent
message_events =
    constructs 0 100 (3 ∷ 7 ∷ []) ∷ constructs 1 101 [] ∷ assigns 1 0 102 ∷ destroys 0 ∷ []

abbrev after_of : Outcome Memory → Memory
after_of (ok mem) = mem
after_of (fault why) = empty_memory

abbrev first_memory : Memory
first_memory = after_of (message_step empty_memory (constructs 0 100 (3 ∷ 7 ∷ [])))

abbrev second_memory : Memory
second_memory = after_of (message_step first_memory (constructs 1 101 []))

abbrev third_memory : Memory
third_memory = after_of (message_step second_memory (assigns 1 0 102))

allowed_next :
    (mem after : Memory) (e : MessageEvent) (es : List MessageEvent)
    → message_step mem e ≡ ok after
    → IsAllowed mem e
    → AreAllowed after es
    → AreAllowed mem (e ∷ es)
allowed_next mem after e es done allowed later =
    (allowed, λ x h. let same : after ≡ x = cc (done, h) in subst (λ y. AreAllowed y es) same later)

message_events-AreAllowed : AreAllowed empty_memory message_events
unfolding message_step construct assign_message copy_message copy_buffer delete_message
message_events-AreAllowed =
    allowed_next empty_memory first_memory (constructs 0 100 (3 ∷ 7 ∷ []))
      (constructs 1 101 [] ∷ assigns 1 0 102 ∷ destroys 0 ∷ []) refl (refl, refl)
      (allowed_next first_memory second_memory (constructs 1 101 [])
        (assigns 1 0 102 ∷ destroys 0 ∷ []) refl (refl, refl)
        (allowed_next second_memory third_memory (assigns 1 0 102) (destroys 0 ∷ []) refl
          (refl, (_, refl), (_, refl)) ((_, refl), λ x h. tt)))

-- The second object has the bytes of the first, in a block of its own.
kept_value : values_of third_memory 1 ≡ some (3 ∷ 7 ∷ [])
unfolding message_step construct assign_message copy_message copy_buffer delete_message
kept_value = refl

messages_are_values_example :
    (last : Memory) × (message_run empty_memory message_events ≡ ok last)
    × IsOwned last
    × (values_of last ≡ value_run (λ i. none) message_events)
messages_are_values_example = messages_are_values message_events message_events-AreAllowed
