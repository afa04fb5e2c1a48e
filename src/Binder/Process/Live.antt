-- ===== src/Binder/Process/Live.antt =====
-- The sockets in the database of binder.cc, whatever holds of each: what the methods do to a predicate
-- of all servers that are stored.
use mathlib.Core.Logic.{if_pos, if_neg}
use rpc_library.Common.{
  ℕ, ◌≡◌, ◌≢◌, Bool, true, List, [], ◌∷◌, some, keep, All, All-imp, Bool-cases, Option-cases, inl,
  inr, arith, ltb,
}
use rpc_library.Signature.{Signature}
use rpc_library.Binder.Server.{ServerData}
use rpc_library.Binder.Keyed.{insert, erase, update, is_some, find}
use rpc_library.Binder.Database.{
  Entry, BinderDatabase, server_of, itself, queue_ltb, stamp_ltb, choose, Signature-discrete,
  servers_of, set_servers, erase_signature, drop_empty, set_timestamp, stamp_server,
  register_server, locate_server, without_socket, other_socket, remove_if_server, empty_database,
  timestamp_of,
}
use rpc_library.Binder.Locating.{registered, swept, locate_server_nobody, locate_server_chosen}
use rpc_library.Binder.Line.{trimmed}

module _ {E : Type 0} (P : E → Type 0) where
  All-insert : (lt : E → E → Bool) (e : E) (es : List E) → P e → All P es → All P (insert lt e es)
  unfolding insert
  All-insert lt e [] p h = (p, tt)
  All-insert lt e (y ∷ ys) p h = ground (arith, All-insert lt e ys p h.1)

  All-erase : (q : E → Bool) (es : List E) → All P es → All P (erase q es)
  unfolding erase
  All-erase q [] h = tt
  All-erase q (y ∷ ys) h = ground (arith, All-erase q ys h.1)

  All-update :
      (key : E → ServerData) (x : ServerData) (g : E → E) (es : List E)
      → ((e : E) → P e → P (g e))
      → All P es
      → All P (update key x g es)
  unfolding update
  All-update key x g [] keeps h = tt
  All-update key x g (y ∷ ys) keeps h = ground (arith, keeps y h.0, All-update key x g ys keeps h.1)

-- Every stored server, in the queue, in the map of timestamps and in the sets.
pub record AllStored (P : ServerData → Type 0) (db : BinderDatabase) : Type 0 where
  pub queue : All (λ e. P e.server) db.server_queue
  pub stamps : All (λ e. P e.server) db.server_to_timestamp
  pub sets : All (λ entry. All P entry.1) db.signature_to_servers

module _ (P : ServerData → Type 0) where
  abbrev Sets : List (Signature × List ServerData) → Type 0
  Sets = All (λ entry. All P entry.1)

  Sets-servers_of :
      (sig : Signature) (m : List (Signature × List ServerData)) → Sets m → All P (servers_of sig m)
  unfolding servers_of
  Sets-servers_of sig [] h = tt
  Sets-servers_of sig ((k, ss) ∷ m) h = elim (Signature-discrete sig k) [
    | yes e ↦ rw (if_pos _ e) h.0
    | no e ↦ rw (if_neg _ e) (Sets-servers_of sig m h.1)
  ]

  Sets-set_servers :
      (sig : Signature) (ss : List ServerData) (m : List (Signature × List ServerData))
      → All P ss
      → Sets m
      → Sets (set_servers sig ss m)
  unfolding set_servers
  Sets-set_servers sig ss [] p h = (p, tt)
  Sets-set_servers sig ss ((k, old) ∷ m) p h = elim (Signature-discrete sig k) [
    | yes e ↦ rw (if_pos _ e) (p, h.1)
    | no e ↦ rw (if_neg _ e) (h.0, Sets-set_servers sig ss m p h.1)
  ]

  Sets-erase_signature :
      (sig : Signature) (m : List (Signature × List ServerData))
      → Sets m
      → Sets (erase_signature sig m)
  unfolding erase_signature
  Sets-erase_signature sig [] h = tt
  Sets-erase_signature sig ((k, old) ∷ m) h = elim (Signature-discrete sig k) [
    | yes e ↦ rw (if_pos _ e) (Sets-erase_signature sig m h.1)
    | no e ↦ rw (if_neg _ e) (h.0, Sets-erase_signature sig m h.1)
  ]

  Sets-drop_empty :
      (sig : Signature) (m : List (Signature × List ServerData)) → Sets m → Sets (drop_empty sig m)
  unfolding drop_empty
  Sets-drop_empty sig m h = ground (arith, Sets-erase_signature sig m h)

  set_timestamp-all :
      (s : ServerData) (t : ℕ) (m : List Entry)
      → P s
      → All (λ e. P e.server) m
      → All (λ e. P e.server) (set_timestamp s t m)
  unfolding set_timestamp
  set_timestamp-all s t m p h = elim (Bool-cases (is_some (find server_of s m))) [
    | inl known ↦ rw known (All-update (λ e. P e.server) server_of s _ m (λ e q. q) h)
    | inr new ↦ rw new (All-insert (λ e. P e.server) stamp_ltb _ m p h)
  ]

  stamp_server-AllStored :
      (s : ServerData) (db : BinderDatabase)
      → P s
      → AllStored P db
      → AllStored P (stamp_server s db)
  unfolding stamp_server
  stamp_server-AllStored s db p h = record {
    queue = All-insert (λ e. P e.server) queue_ltb _ db.server_queue p h.queue;
    stamps = set_timestamp-all s db.time db.server_to_timestamp p h.stamps;
    sets = h.sets;
  }

  trimmed-all :
      (s : ServerData) (db : BinderDatabase)
      → All (λ e. P e.server) db.server_queue
      → All (λ e. P e.server) (trimmed s db)
  trimmed-all s db h = elim (Bool-cases (ltb 0 (timestamp_of s db.server_to_timestamp))) [
    | inl known ↦ rw known (All-erase (λ e. P e.server) _ db.server_queue h)
    | inr new ↦ rw new h
  ]

  pub register_server-AllStored :
      (sig : Signature) (s : ServerData) (db : BinderDatabase)
      → P s
      → AllStored P db
      → AllStored P (register_server sig s db).1
  unfolding register_server
  register_server-AllStored sig s db p h =
      elim (Bool-cases (is_some (find itself s (servers_of sig db.signature_to_servers)))) [
        | inl old ↦ rw old h
        | inr new ↦ rw new (
            stamp_server-AllStored s _ p (record {
              queue = trimmed-all s db h.queue;
              stamps = h.stamps;
              sets =
                  Sets-set_servers sig _ db.signature_to_servers
                    (All-insert P _ s _ p (Sets-servers_of sig db.signature_to_servers h.sets))
                    h.sets;
            }))
      ]

  choose-all :
      (servers : List ServerData) (e : Entry) (es : List Entry)
      → choose servers es ≡ some e
      → All (λ e. P e.server) es
      → P e.server
  unfolding choose
  choose-all servers e [] h a = cc
  choose-all servers e (y ∷ ys) h a = elim (Bool-cases (is_some (find itself y.server servers))) [
    | inl serves ↦ let same : y ≡ e = cc (rw serves at h) in rw (← same) a.0
    | inr other ↦ choose-all servers e ys (rw other at h) a.1
  ]

  swept-AllStored :
      (sig : Signature) (db : BinderDatabase) → AllStored P db → AllStored P (swept sig db)
  swept-AllStored sig db h = record {
    queue = h.queue;
    stamps = h.stamps;
    sets = Sets-drop_empty sig db.signature_to_servers h.sets;
  }

  pub locate_server-AllStored :
      (sig : Signature) (db : BinderDatabase)
      → AllStored P db
      → AllStored P (locate_server sig db).1
  locate_server-AllStored sig db h =
      elim (Option-cases (choose (registered sig db) db.server_queue)) [
        | inl nobody ↦ rw (locate_server_nobody sig db nobody) (swept-AllStored sig db h)
        | inr (e, chosen) ↦ rw (locate_server_chosen sig db e chosen) (
            stamp_server-AllStored e.server _
              (choose-all (registered sig db) e db.server_queue chosen h.queue)
              (record {
                queue = All-erase (λ e. P e.server) _ db.server_queue h.queue;
                stamps = h.stamps;
                sets = (swept-AllStored sig db h).sets;
              }))
      ]

  pub empty_database-AllStored : AllStored P empty_database
  empty_database-AllStored = record { queue = tt; stamps = tt; sets = tt }

All-keep_imp :
    {A : Type 0} {P Q : A → Type 0} (p : A → Bool)
    → ((a : A) → P a → p a ≡ true → Q a)
    → (xs : List A) → All P xs
    → All Q (keep p xs)
All-keep_imp p f [] h = tt
All-keep_imp p f (x ∷ xs) h = elim (Bool-cases (p x)) [
  | inl kept ↦ rw kept (f x h.0 kept, All-keep_imp p f xs h.1)
  | inr dropped ↦ rw dropped (All-keep_imp p f xs h.1)
]

-- What is left after a disconnection does not name the socket.
pub remove_if_server-AllStored :
    {P Q : ServerData → Type 0} (socket : ℕ) (db : BinderDatabase)
    → ((s : ServerData) → P s → s.server_socket ≢ socket → Q s)
    → AllStored P db
    → AllStored Q (remove_if_server socket db)
unfolding remove_if_server other_socket without_socket
remove_if_server-AllStored {P} {Q} socket db f h = record {
  queue = All-keep_imp _ (λ e. left e.server) db.server_queue h.queue;
  stamps = All-keep_imp _ (λ e. left e.server) db.server_to_timestamp h.stamps;
  sets = sets_left db.signature_to_servers h.sets;
}
  where
    left : (s : ServerData) → P s → other_socket socket s ≡ true → Q s
    left s p other = f s p (ground (arith, other))

    sets_left :
        (m : List (Signature × List ServerData))
        → All (λ entry. All P entry.1) m
        → All (λ entry. All Q entry.1) (without_socket socket m)
    sets_left [] h = tt
    sets_left ((k, ss) ∷ m) h = (All-keep_imp _ left ss h.0, sets_left m h.1)

pub AllStored-imp :
    {P Q : ServerData → Type 0} (db : BinderDatabase)
    → ((s : ServerData) → P s → Q s)
    → AllStored P db
    → AllStored Q db
AllStored-imp {P} {Q} db f h = record {
  queue = All-imp (λ e. f e.server) db.server_queue h.queue;
  stamps = All-imp (λ e. f e.server) db.server_to_timestamp h.stamps;
  sets = All-imp (λ entry. All-imp f entry.1) db.signature_to_servers h.sets;
}
