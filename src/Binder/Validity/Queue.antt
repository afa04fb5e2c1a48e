-- ===== src/Binder/Validity/Queue.antt =====
-- The queue of binder.cc in the order of its timestamps.
use rpc_library.Common.{ℕ, ◌+◌, ◌≤◌, ◌<◌, ◌≡◌, Bool, true, false, List, [], ◌∷◌, some, keep, arith}
use rpc_library.Binder.Server.{ServerData, same_server, server_ltb}
use rpc_library.Binder.Keyed.{insert, erase, find}
use rpc_library.Binder.Database.{Entry, server_of, itself, queue_ltb, stamp_ltb}

-- The timestamps rise along the queue, from `lo` on and below `hi`.
abbrev pub Ascending : ℕ → ℕ → List Entry → Type 0
Ascending lo hi [] = Unit {0}
Ascending lo hi (e ∷ es) =
    (lo ≤ e.timestamp) × (e.timestamp < hi) × Ascending (e.timestamp + 1) hi es

Ascending-weaken :
    (lo lo' hi : ℕ) (es : List Entry) → lo' ≤ lo → Ascending lo hi es → Ascending lo' hi es
Ascending-weaken lo lo' hi [] h a = tt
Ascending-weaken lo lo' hi (e ∷ es) h a = (omega arith, a.1, a.2)

pub Ascending-erase :
    (lo hi : ℕ) (p : Entry → Bool) (es : List Entry)
    → Ascending lo hi es
    → Ascending lo hi (erase p es)
unfolding erase
Ascending-erase lo hi p [] a = tt
Ascending-erase lo hi p (e ∷ es) a = ground (
  arith,
  Ascending-erase (e.timestamp + 1) hi p es a.2,
  Ascending-weaken (e.timestamp + 1) lo hi es (omega arith) a.2,
)

pub Ascending-keep :
    (lo hi : ℕ) (p : Entry → Bool) (es : List Entry)
    → Ascending lo hi es
    → Ascending lo hi (keep p es)
Ascending-keep lo hi p [] a = tt
Ascending-keep lo hi p (e ∷ es) a = ground (
  arith,
  Ascending-keep (e.timestamp + 1) hi p es a.2,
  Ascending-weaken (e.timestamp + 1) lo hi (keep p es) (omega arith)
      (Ascending-keep (e.timestamp + 1) hi p es a.2),
)

-- An entry with the newest timestamp goes to the end.
pub Ascending-insert :
    (lo hi : ℕ) (s : ServerData) (es : List Entry)
    → lo ≤ hi
    → Ascending lo hi es
    → Ascending lo (hi + 1) (insert queue_ltb (record { timestamp = hi; server = s }) es)
unfolding insert queue_ltb
Ascending-insert lo hi s [] h a = omega arith
Ascending-insert lo hi s (e ∷ es) h a =
    ground (arith, Ascending-insert (e.timestamp + 1) hi s es (omega arith) a.2)

pub Ascending-find :
    (lo hi : ℕ) (x : ServerData) (e : Entry) (es : List Entry)
    → Ascending lo hi es
    → find server_of x es ≡ some e
    → (lo ≤ e.timestamp) × (e.timestamp < hi)
unfolding find
Ascending-find lo hi x e [] a h = cc
Ascending-find lo hi x e (y ∷ ys) a h =
    ground (arith, Ascending-find (y.timestamp + 1) hi x e ys a.2)

-- Neither of two entries is less only if they have one server.
pub queue_tie :
    (e y : Entry)
    → queue_ltb e y ≡ false
    → queue_ltb y e ≡ false
    → same_server (server_of e) (server_of y) ≡ true
unfolding queue_ltb same_server
queue_tie e y h k = ground arith

pub stamp_tie :
    (e y : Entry)
    → stamp_ltb e y ≡ false
    → stamp_ltb y e ≡ false
    → same_server (server_of e) (server_of y) ≡ true
unfolding same_server
stamp_tie e y h k = ground arith

pub server_tie :
    (s y : ServerData)
    → server_ltb s y ≡ false
    → server_ltb y s ≡ false
    → same_server (itself s) (itself y) ≡ true
unfolding same_server
server_tie s y h k = ground arith
