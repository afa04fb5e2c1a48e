-- ===== src/Message/Memory/Ownership.antt =====
-- Which RawMessage (message.cc) owns which block, when an object is made or ends.
use rpc_library.Common.{
  ℕ, ◌≡◌, ◌⊎◌, refl, sym, ◌∙◌, ap, true, false, List, length, Option, none, some, ◌==◌, Bool-cases,
  inl, inr, arith,
}
use rpc_library.Message.{extract_message_type}
use rpc_library.Message.Memory.{Held, put, Memory}

-- Each object has a block of its own with its bytes, and each block belongs to an object.
pub record IsOwned (mem : Memory) : Type 0 where
  pub holds :
      (i : ℕ) (m : Held)
      → mem.objects i ≡ some m
      → (bytes : List ℕ) × (mem.blocks m.address ≡ some bytes)
        × (m.size ≡ length bytes)
        × (m.type ≡ extract_message_type bytes)
  pub apart :
      (i j : ℕ) (m n : Held)
      → mem.objects i ≡ some m
      → mem.objects j ≡ some n
      → m.address ≡ n.address
      → i ≡ j
  pub owned :
      (a : ℕ) (bytes : List ℕ)
      → mem.blocks a ≡ some bytes
      → (i : ℕ) × (m : Held) × (mem.objects i ≡ some m) × (m.address ≡ a)

abbrev pub held_at : ℕ → List ℕ → Held
held_at a bytes = record { address = a; size = length bytes; type = extract_message_type bytes }

-- The memory with one more object
abbrev pub adopt : ℕ → ℕ → List ℕ → Memory → Memory
adopt i a bytes mem = record {
  blocks = put a (some bytes) mem.blocks;
  objects = put i (some (held_at a bytes)) mem.objects;
}

-- The memory with one object less
abbrev pub release : ℕ → ℕ → Memory → Memory
release i a mem = record { blocks = put a none mem.blocks; objects = put i none mem.objects }

pub put_here : {A : Type 0} (i : ℕ) (a : A) (f : ℕ → A) (x : ℕ) → (x == i) ≡ true → put i a f x ≡ a
put_here i a f x h = rw h refl

pub put_there :
    {A : Type 0} (i : ℕ) (a : A) (f : ℕ → A) (x : ℕ) → (x == i) ≡ false → put i a f x ≡ f x
put_there i a f x h = rw h refl

-- What is at one place and not at another
pub other_place :
    {A : Type 0} (f : ℕ → Option A) (x y : ℕ) (a : A) → f x ≡ some a → f y ≡ none → (x == y) ≡ false
other_place f x y a there free = elim (Bool-cases (x == y)) [
  | inr other ↦ other
  | inl same ↦ let e : x ≡ y = ground (arith, same) in cc (sym there ∙ ap f e ∙ free)
]

module _ (i a : ℕ) (bytes : List ℕ) (mem : Memory) (o : IsOwned mem) (unused : mem.objects i ≡ none)
    (free : mem.blocks a ≡ none) where
  -- The objects behind the adoption: the new one, or one from before with another block
  pub adopted :
      (j : ℕ) (m : Held)
      → (adopt i a bytes mem).objects j ≡ some m
      → ((j ≡ i) × (m ≡ held_at a bytes)) ⊎ ((mem.objects j ≡ some m) × ((m.address == a) ≡ false))
  adopted j m at_j = elim (Bool-cases (j == i)) [
    | inl same ↦
        let e : some (held_at a bytes) ≡ some m = (rw same at at_j) in
        inl (ground (arith, same), cc e)
    | inr other ↦
        let before : mem.objects j ≡ some m = (rw other at at_j) in
        let (content, there, size, type) = o.holds j m before in
        inr (before, other_place mem.blocks m.address a content there free)
  ]

  pub adopt-IsOwned : IsOwned (adopt i a bytes mem)
  adopt-IsOwned = record {
    holds = λ j m at_j. elim (adopted j m at_j) [
      | inl (same, new) ↦
          rw new (bytes, put_here a (some bytes) mem.blocks a (ground arith), refl, refl)
      | inr (before, other) ↦
          let (content, there, size, type) = o.holds j m before in
          (content, put_there a (some bytes) mem.blocks m.address other ∙ there, size, type)
    ];
    apart = λ j k m n at_j at_k same. elim (adopted j m at_j) [
      | inl (j_new, m_new) ↦ elim (adopted k n at_k) [
        | inl (k_new, n_new) ↦ j_new ∙ sym k_new
        | inr (k_before, k_other) ↦
            let e : n.address ≡ a = sym same ∙ ap (λ (x : Held). x.address) m_new in
            absurd (ground (arith, e, k_other))
      ]
      | inr (j_before, j_other) ↦ elim (adopted k n at_k) [
        | inl (k_new, n_new) ↦
            let e : m.address ≡ a = same ∙ ap (λ (x : Held). x.address) n_new in
            absurd (ground (arith, e, j_other))
        | inr (k_before, k_other) ↦ o.apart j k m n j_before k_before same
      ]
    ];
    owned = λ b content there. elim (Bool-cases (b == a)) [
      | inl same ↦ (
        i,
        held_at a bytes,
        put_here i (some (held_at a bytes)) mem.objects i (ground arith),
        ground (arith, same),
      )
      | inr other ↦
          let (j, m, at_j, e) = o.owned b content (rw other at there) in
          let apart_from_i = other_place mem.objects j i m at_j unused in
          (j, m, put_there i (some (held_at a bytes)) mem.objects j apart_from_i ∙ at_j, e)
    ];
  }

module _ (i : ℕ) (m : Held) (mem : Memory) (o : IsOwned mem) (at_i : mem.objects i ≡ some m) where
  abbrev pub rest : Memory
  rest = release i m.address mem

  -- The objects that are left have other names and other blocks.
  pub left :
      (j : ℕ) (n : Held)
      → rest.objects j ≡ some n
      → (mem.objects j ≡ some n) × ((n.address == m.address) ≡ false)
  left j n at_j = elim (Bool-cases (j == i)) [
    | inl same ↦ cc (rw same at at_j)
    | inr other ↦
        let before : mem.objects j ≡ some n = (rw other at at_j) in
        (
          before,
          elim (Bool-cases (n.address == m.address)) [
            | inr apart ↦ apart
            | inl same ↦
                let e : j ≡ i = o.apart j i n m before at_i (ground (arith, same)) in
                absurd (ground (arith, other, e))
          ],
        )
  ]

  pub release-IsOwned : IsOwned rest
  release-IsOwned = record {
    holds = λ j n at_j.
        let (before, other) = left j n at_j in
        let (content, there, size, type) = o.holds j n before in
        (content, put_there m.address none mem.blocks n.address other ∙ there, size, type);
    apart = λ j k n n' at_j at_k same. o.apart j k n n' (left j n at_j).0 (left k n' at_k).0 same;
    owned = λ b content there. elim (Bool-cases (b == m.address)) [
      | inl same ↦ cc (rw same at there)
      | inr other ↦
          let (j, n, at_j, e) = o.owned b content (rw other at there) in
          (
            j,
            n,
            elim (Bool-cases (j == i)) [
              | inr apart ↦ put_there i none mem.objects j apart ∙ at_j
              | inl same ↦
                  let e' : j ≡ i = ground (arith, same) in
                  let both : some n ≡ some m = sym at_j ∙ ap mem.objects e' ∙ at_i in
                  let one : n ≡ m = cc both in
                  let own : b ≡ m.address = sym e ∙ ap (λ (x : Held). x.address) one in
                  absurd (ground (arith, own, other))
            ],
            e,
          )
    ];
  }
