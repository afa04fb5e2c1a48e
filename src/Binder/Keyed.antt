-- ===== src/Binder/Keyed.antt =====
-- The standard containers of binder.cc as lists of entries with a server for a key: std::set and
-- std::map without the tree, in the order in which an iterator visits them.
use rpc_library.Common.{
  ◌≡◌, refl, Bool, true, false, List, [], ◌∷◌, Option, none, some, if◌then◌else◌, arith, keep,
  Bool-cases, inl, inr,
}
use mathlib.Core.Option
use rpc_library.Binder.Server.{ServerData, same_server, same_server_congr, same_server_sym}

-- The value of an entry that was found, if it passes a test.
abbrev pub only {ℓ} : {A : Type ℓ} → (A → Bool) → Option A → Option A
only p none = none
only p (some a) = if p a then some a else none

abbrev pub is_some {ℓ} : {A : Type ℓ} → Option A → Bool
is_some none = false
is_some (some a) = true

-- insert(e) of a std::set under `lt`: an equivalent element stays.
unfoldable pub insert {ℓ} : {E : Type ℓ} → (E → E → Bool) → E → List E → List E
insert lt e [] = e ∷ []
insert lt e (y ∷ ys) =
    let rest = insert lt e ys in if lt e y then e ∷ y ∷ ys else if lt y e then y ∷ rest else y ∷ ys

-- erase of the element that passes the test; of several, the first.
unfoldable pub erase {ℓ} : {E : Type ℓ} → (E → Bool) → List E → List E
erase p [] = []
erase p (y ∷ ys) = let rest = erase p ys in if p y then ys else y ∷ rest

module _ {E : Type 0} (key : E → ServerData) where
  -- find(x): the entry with an equivalent key
  unfoldable pub find : ServerData → List E → Option E
  find x [] = none
  find x (e ∷ es) = if same_server x (key e) then some e else find x es

  -- Replaces the value of the entry with an equivalent key.
  unfoldable pub update : ServerData → (E → E) → List E → List E
  update x g [] = []
  update x g (e ∷ es) =
      let rest = update x g es in if same_server x (key e) then g e ∷ es else e ∷ rest

  -- No two entries have equivalent keys.
  abbrev pub Distinct : List E → Type 0
  Distinct [] = Unit {0}
  Distinct (e ∷ es) = (find (key e) es ≡ none) × Distinct es

  pub find_congr : (x y : ServerData) (es : List E) → same_server x y ≡ true → find x es ≡ find y es
  unfolding find
  find_congr x y [] h = refl
  find_congr x y (e ∷ es) h = rw (same_server_congr x y (key e) h, find_congr x y es h) refl

  pub find-key :
      (x : ServerData) (e : E) (es : List E) → find x es ≡ some e → same_server x (key e) ≡ true
  unfolding find
  find-key x e [] h = cc
  find-key x e (y ∷ ys) h = ground (arith, find-key x e ys)

  module _ (lt : E → E → Bool) (e : E)
      (tie : (y : E) → lt e y ≡ false → lt y e ≡ false → same_server (key e) (key y) ≡ true) where
    -- A new key is found at its entry, and every other key where it was.
    pub find-insert :
        (x : ServerData) (es : List E)
        → find (key e) es ≡ none
        → find x (insert lt e es) ≡ (if same_server x (key e) then some e else find x es)
    unfolding find insert
    find-insert x [] h = refl
    find-insert x (y ∷ ys) h =
        ground (arith, tie y, find-insert x ys, same_server_congr x (key e) (key y))

  -- Erasing the entry of a key leaves every other key where it was.
  pub find-erase :
      (p : E → Bool) (k x : ServerData) (e : E) (es : List E)
      → Distinct es
      → ((y : E) → p y ≡ true → same_server k (key y) ≡ true)
      → find k es ≡ some e
      → p e ≡ true
      → find x (erase p es) ≡ (if same_server x k then none else find x es)
  unfolding find erase
  find-erase p k x e [] d imp h pe = cc
  find-erase p k x e (y ∷ ys) d imp h pe = ground (
    arith,
    imp y,
    find-erase p k x e ys d.1 imp,
    find_congr x (key y) ys,
    same_server_congr x k (key y),
    same_server_congr k (key y) x,
    same_server_sym x k,
    same_server_sym x (key y),
  )

  -- In a list with distinct keys a filter keeps or drops what a key leads to.
  pub find-keep :
      (p : E → Bool) (x : ServerData) (es : List E)
      → Distinct es
      → find x (keep p es) ≡ only p (find x es)
  unfolding find
  find-keep p x [] d = refl
  find-keep p x (y ∷ ys) d = ground (arith, find-keep p x ys d.1, find_congr x (key y) ys)

  pub find-update :
      (k x : ServerData) (g : E → E) (es : List E)
      → ((y : E) → key (g y) ≡ key y)
      → find x (update k g es) ≡ (if same_server x k then Option.map g (find x es) else find x es)
  unfolding find update
  find-update k x g [] h = ground arith
  find-update k x g (y ∷ ys) h = ground (
    arith,
    h y,
    find-update k x g ys h,
    same_server_congr x k (key y),
    same_server_congr k (key y) x,
    same_server_sym x k,
    same_server_sym x (key y),
  )

  pub Distinct-keep : (p : E → Bool) (es : List E) → Distinct es → Distinct (keep p es)
  Distinct-keep p [] d = tt
  Distinct-keep p (y ∷ ys) d = ground (arith, Distinct-keep p ys d.1, find-keep p (key y) ys d.1)

  find-erase-none :
      (p : E → Bool) (x : ServerData) (es : List E) → find x es ≡ none → find x (erase p es) ≡ none
  unfolding find erase
  find-erase-none p x [] h = refl
  find-erase-none p x (y ∷ ys) h = ground (arith, find-erase-none p x ys)

  pub Distinct-erase : (p : E → Bool) (es : List E) → Distinct es → Distinct (erase p es)
  unfolding erase
  Distinct-erase p [] d = tt
  Distinct-erase p (y ∷ ys) d =
      ground (arith, Distinct-erase p ys d.1, find-erase-none p (key y) ys)

  pub Distinct-update :
      (k : ServerData) (g : E → E) (es : List E)
      → ((y : E) → key (g y) ≡ key y)
      → Distinct es
      → Distinct (update k g es)
  unfolding update
  Distinct-update k g [] h d = tt
  Distinct-update k g (y ∷ ys) h d = elim (Bool-cases (same_server k (key y))) [
    | inl hit ↦ rw hit (rw (h y) d.0, d.1)
    | inr miss ↦ rw miss (none_left, Distinct-update k g ys h d.1)
  ]
    where
      none_left : find (key y) (update k g ys) ≡ none
      none_left = ground (arith, find-update k (key y) g ys h)

  module _ (lt : E → E → Bool) (e : E)
      (tie : (y : E) → lt e y ≡ false → lt y e ≡ false → same_server (key e) (key y) ≡ true) where
    pub Distinct-insert :
        (es : List E) → find (key e) es ≡ none → Distinct es → Distinct (insert lt e es)
    unfolding insert find
    Distinct-insert [] h d = (refl, tt)
    Distinct-insert (y ∷ ys) h d = ground (
      arith,
      Distinct-insert ys,
      find-insert lt e tie (key y) ys,
      same_server_sym (key y) (key e),
    )
