-- ===== src/Binder/Database.antt =====
-- `class BinderDatabase` of binder.cc. The state is a record, a method returns the new state beside
-- its result; `time_` is an unsigned int and wraps.
use native.Mathlib.Decide.{ℕ_discrete}
use mathlib.Core.Logic.{ite}
use rpc_library.Common.{
  ℕ, ◌+◌, ◌%◌, ◌^◌, Bool, true, false, not, List, [], ◌∷◌, Option, none, some, ltb, ◌==◌, ◌&&◌,
  if◌then◌else◌, keep,
}
use rpc_library.Signature.{Signature}
use rpc_library.Binder.Server.{ServerData, server_ltb, same_server}
use rpc_library.Binder.Keyed
use rpc_library.Binder.Keyed.{is_some}

-- pair<unsigned int, ServerData> in the queue, and a key with its value in the map of timestamps.
pub record Entry : Type 0 where
  pub timestamp : ℕ
  pub server : ServerData

-- The map from signatures: no method depends on the order of its keys.
pub record BinderDatabase : Type 0 where
  pub time : ℕ
  pub server_queue : List Entry
  pub server_to_timestamp : List Entry
  pub signature_to_servers : List (Signature × List ServerData)

abbrev pub server_of : Entry → ServerData
server_of e = e.server

abbrev pub itself : ServerData → ServerData
itself s = s

-- operator< of pair<unsigned int, ServerData>
unfoldable pub queue_ltb : Entry → Entry → Bool
queue_ltb a b =
    if ltb a.timestamp b.timestamp
    then true
    else if ltb b.timestamp a.timestamp
    then false
    else server_ltb a.server b.server

-- Equivalence in the queue
abbrev pub same_entry : Entry → Entry → Bool
same_entry a b = (a.timestamp == b.timestamp) && same_server a.server b.server

abbrev pub stamp_ltb : Entry → Entry → Bool
stamp_ltb a b = server_ltb a.server b.server

unfoldable pub Signature-discrete : Discrete Signature
Signature-discrete = hlevel ℕ_discrete

-- What operator[] reads: a key that is not there counts as an empty set.
unfoldable pub servers_of : Signature → List (Signature × List ServerData) → List ServerData
servers_of sig [] = []
servers_of sig ((k, ss) ∷ m) = ite (Signature-discrete sig k) ss (servers_of sig m)

-- count(sig)
unfoldable pub has_signature : Signature → List (Signature × List ServerData) → Bool
has_signature sig [] = false
has_signature sig ((k, ss) ∷ m) = ite (Signature-discrete sig k) true (has_signature sig m)

-- signature_to_servers[sig] = ss
unfoldable pub set_servers :
    Signature
    → List ServerData
    → List (Signature × List ServerData)
    → List (Signature × List ServerData)
set_servers sig ss [] = (sig, ss) ∷ []
set_servers sig ss ((k, old) ∷ m) =
    ite (Signature-discrete sig k) ((k, ss) ∷ m) ((k, old) ∷ set_servers sig ss m)

-- erase(sig)
unfoldable pub erase_signature :
    Signature → List (Signature × List ServerData) → List (Signature × List ServerData)
erase_signature sig [] = []
erase_signature sig ((k, ss) ∷ m) =
    ite (Signature-discrete sig k) (erase_signature sig m) ((k, ss) ∷ erase_signature sig m)

-- timestamps[server], where a missing key counts as 0
unfoldable pub timestamp_of : ServerData → List Entry → ℕ
timestamp_of s m = elim (Keyed.find server_of s m) [ none ↦ 0 | some e ↦ e.timestamp ]

-- timestamps[server] = t; a key that is there stays as it is.
unfoldable pub set_timestamp : ServerData → ℕ → List Entry → List Entry
set_timestamp s t m =
    if is_some (Keyed.find server_of s m)
    then Keyed.update server_of s (λ e. record e { timestamp = t }) m
    else Keyed.insert stamp_ltb (record { timestamp = t; server = s }) m

-- The two statements that give a server the newest timestamp:
-- server_to_timestamp[s] = time_; server_queue.insert(make_pair(time_++, s));
unfoldable pub stamp_server : ServerData → BinderDatabase → BinderDatabase
stamp_server s db = record db {
  time = (db.time + 1) % 2 ^ 32;
  server_queue =
      Keyed.insert queue_ltb (record { timestamp = db.time; server = s }) db.server_queue;
  server_to_timestamp = set_timestamp s db.time db.server_to_timestamp;
}

-- `handleRegister` behind the reading of the message: the status of the answer, 1 for a warning.
unfoldable pub register_server : Signature → ServerData → BinderDatabase → ℕ × BinderDatabase
register_server sig server db =
    let servers = servers_of sig db.signature_to_servers in
    if is_some (Keyed.find itself server servers)
    then (1, db)
    else (let timestamp = timestamp_of server db.server_to_timestamp in
        let old : Entry = record { timestamp = timestamp; server = server } in
        let queue =
          if ltb 0 timestamp
          then Keyed.erase (same_entry old) db.server_queue
          else db.server_queue in
        (
          0,
          stamp_server server (record db {
            server_queue = queue;
            signature_to_servers =
                set_servers sig (Keyed.insert server_ltb server servers) db.signature_to_servers;
          }),
        ))

-- The loop of `handleLocate`: the first entry of the queue whose server is in the set.
unfoldable pub choose : List ServerData → List Entry → Option Entry
choose servers [] = none
choose servers (e ∷ es) =
    if is_some (Keyed.find itself e.server servers) then some e else choose servers es

abbrev is_empty : List ServerData → Bool
is_empty [] = true
is_empty (s ∷ ss) = false

-- `if (count(sig) && [sig].empty()) erase(sig)`
unfoldable pub drop_empty :
    Signature → List (Signature × List ServerData) → List (Signature × List ServerData)
drop_empty sig m =
    if has_signature sig m && is_empty (servers_of sig m) then erase_signature sig m else m

-- `handleLocate` behind the reading of the message: the server of the answer, if there is one.
unfoldable pub locate_server : Signature → BinderDatabase → Option ServerData × BinderDatabase
locate_server sig db =
    let sets = drop_empty sig db.signature_to_servers in
    let cleaned = record db { signature_to_servers = sets } in
    if not (has_signature sig sets)
    then (none, cleaned)
    else elim (choose (servers_of sig sets) db.server_queue) [
      | none ↦ (none, cleaned)
      | some e ↦ (
        some e.server,
        stamp_server e.server
            (record cleaned { server_queue = Keyed.erase (same_entry e) db.server_queue }),
      )
    ]

unfoldable pub other_socket : ℕ → ServerData → Bool
other_socket socket s = not (s.server_socket == socket)

unfoldable pub without_socket :
    ℕ → List (Signature × List ServerData) → List (Signature × List ServerData)
without_socket socket [] = []
without_socket socket ((k, ss) ∷ m) = (k, keep (other_socket socket) ss) ∷ without_socket socket m

-- removeIfServer: three loops, one for each container.
unfoldable pub remove_if_server : ℕ → BinderDatabase → BinderDatabase
remove_if_server socket db = record db {
  server_queue = keep (λ e. other_socket socket e.server) db.server_queue;
  server_to_timestamp = keep (λ e. other_socket socket e.server) db.server_to_timestamp;
  signature_to_servers = without_socket socket db.signature_to_servers;
}

-- BinderDatabase()
abbrev pub empty_database : BinderDatabase
empty_database = record {
  time = 1;
  server_queue = [];
  server_to_timestamp = [];
  signature_to_servers = [];
}
