-- ===== src/Message/Memory/Runs.antt =====
-- Whole runs of a program with RawMessages (message.cc).
use rpc_library.Common.{
  ℕ, ◌≡◌, refl, sym, ◌∙◌, ap, false, List, [], ◌∷◌, Option, none, some, ok, ◌>>=◌, ◌==◌, Bool-cases,
  inl, inr, arith,
}
use rpc_library.Message.Memory.{
  Held, put, delete_message, assign_message, Memory, MessageEvent, constructs, copies, assigns,
  destroys, object_at, message_step, message_run, empty_memory,
}
use rpc_library.Message.Memory.Ownership.{
  IsOwned, held_at, adopt, release, put_here, put_there, other_place, adopt-IsOwned,
  release-IsOwned,
}
use rpc_library.Message.Memory.Values.{
  Values, values_of, value_run, IsAllowed, put_swap, put_twice, put_same, memory_eq, values-adopt,
  values-release, Steps, copied, constructs-Steps, copies-Steps, destroys-Steps,
}

module _ (mem : Memory) (o : IsOwned mem) where
  assigned :
      (i other a : ℕ) (this source : Held)
      → (i == other) ≡ false
      → mem.objects i ≡ some this
      → mem.objects other ≡ some source
      → mem.blocks a ≡ none
      → Steps mem o (assigns i other a)
  unfolding message_step assign_message delete_message
  assigned i other a this source distinct at_i at_other free =
      let (old, there, size, type) = o.holds i this at_i in
      let (bytes, done, value) = copied mem o other a source at_other in
      let apart = other_place mem.blocks this.address a old there free in
      let still : put a (some bytes) mem.blocks this.address ≡ some old =
        put_there a (some bytes) mem.blocks this.address apart ∙ there in
      let rest = release i this.address mem in
      let owned = release-IsOwned i this mem o at_i in
      let unused : rest.objects i ≡ none = put_here i none mem.objects i (ground arith) in
      let free_still : rest.blocks a ≡ none = ground (arith, free) in
      let same : ◌≡◌ {A = Memory}
          (record {
            blocks = put this.address none (put a (some bytes) mem.blocks);
            objects = put i (some (held_at a bytes)) mem.objects;
          })
          (adopt i a bytes rest) =
        memory_eq _ _ _ _ (put_swap this.address a none (some bytes) mem.blocks apart)
          (sym (put_twice i (some (held_at a bytes)) none mem.objects)) in
      (
        adopt i a bytes rest,
        rw (message_step, distinct, object_at, at_i, ◌>>=◌, at_other, ◌>>=◌, done, ◌>>=◌, still)
            (ap ok same),
        adopt-IsOwned i a bytes rest owned unused free_still,
        values-adopt rest owned i a bytes unused free_still
            ∙ ap (put i (some bytes)) (values-release mem o i this at_i)
            ∙ put_twice i (some bytes) none (values_of mem)
            ∙ ap (λ (x : Option (List ℕ)). put i x (values_of mem)) (sym value),
      )

  assigns-Steps :
      (i other a : ℕ) → IsAllowed mem (assigns i other a) → Steps mem o (assigns i other a)
  unfolding message_step
  assigns-Steps i other a (free, (this, at_i), (source, at_other)) =
      elim (Bool-cases (i == other)) [
        | inr distinct ↦ assigned i other a this source distinct at_i at_other free
        | inl same ↦
            let e : i ≡ other = ground (arith, same) in
            (mem, rw same refl, o, sym (rw (← e) (put_same i (values_of mem))))
      ]

  message_step-Steps : (e : MessageEvent) → IsAllowed mem e → Steps mem o e
  message_step-Steps (constructs i a bytes) h = constructs-Steps mem o i a bytes h
  message_step-Steps (copies i other a) h = copies-Steps mem o i other a h
  message_step-Steps (assigns i other a) h = assigns-Steps i other a h
  message_step-Steps (destroys i) h = destroys-Steps mem o i h

-- Runs in which each event is allowed when it comes
abbrev pub AreAllowed : Memory → List MessageEvent → Type 0
AreAllowed mem [] = Unit {0}
AreAllowed mem (e ∷ es) =
    IsAllowed mem e × ((after : Memory) → message_step mem e ≡ ok after → AreAllowed after es)

message_run-values :
    (mem : Memory) (es : List MessageEvent)
    → IsOwned mem
    → AreAllowed mem es
    → (last : Memory) × (message_run mem es ≡ ok last)
      × IsOwned last
      × (values_of last ≡ value_run (values_of mem) es)
unfolding message_run
message_run-values mem [] o a = (mem, refl, o, refl)
message_run-values mem (e ∷ es) o a =
    let (after, done, owned, values) = message_step-Steps mem o e a.0 in
    let (last, run, owned', values') = message_run-values after es owned (a.1 after done) in
    (last, rw (done, ◌>>=◌) run, owned', values' ∙ ap (λ (v : Values). value_run v es) values)

-- Whatever a program does with RawMessages, if it begins each object once and uses it while it is alive, and
-- `new` returns addresses where nothing is: no read or free of a block that is gone takes place, each
-- object holds what it would if RawMessages were lists of bytes, with a block of its own, and no block is
-- left without an object.
pub messages_are_values :
    (es : List MessageEvent)
    → AreAllowed empty_memory es
    → (last : Memory) × (message_run empty_memory es ≡ ok last)
      × IsOwned last
      × (values_of last ≡ value_run (λ i. none) es)
messages_are_values es a =
    message_run-values empty_memory es
      (record { holds = λ i m h. cc h; apart = λ i j m n h k e. cc h; owned = λ b bytes h. cc h }) a
