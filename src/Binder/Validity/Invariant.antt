-- ===== src/Binder/Validity/Invariant.antt =====
-- What holds of a `BinderDatabase` (binder.cc) between two messages.
use mathlib.Core.Option
use rpc_library.Common.{◌≤◌, ◌≡◌, true, false, Option, none, some}
use rpc_library.Signature.{Signature}
use rpc_library.Binder.Server.{ServerData, same_server}
use rpc_library.Binder.Keyed.{find, Distinct}
use rpc_library.Binder.Database.{Entry, BinderDatabase, server_of, itself, servers_of}
use rpc_library.Binder.Validity.Queue.{Ascending}

-- The server that a key leads to in the queue.
abbrev pub queued : ServerData → BinderDatabase → Option ServerData
queued x db = Option.map server_of (find server_of x db.server_queue)

pub record IsValid (db : BinderDatabase) : Type 0 where
  pub started : 1 ≤ db.time
  pub ordered : Ascending 1 db.time db.server_queue
  pub queue_distinct : Distinct server_of db.server_queue
  pub stamps_distinct : Distinct server_of db.server_to_timestamp
  pub sets_distinct : (sig : Signature) → Distinct itself (servers_of sig db.signature_to_servers)
  -- The queue and the map of timestamps hold the same servers with the same timestamps.
  pub agree :
      (x : ServerData) → find server_of x db.server_queue ≡ find server_of x db.server_to_timestamp
  -- A server that is in the set of a signature is in the queue, with the same socket.
  pub served :
      (sig : Signature) (x s : ServerData)
      → find itself x (servers_of sig db.signature_to_servers) ≡ some s
      → queued x db ≡ some s

-- The same, while `s` is out of the queue to be given the newest timestamp.
pub record IsWithdrawn (s : ServerData) (db : BinderDatabase) : Type 0 where
  pub started : 1 ≤ db.time
  pub ordered : Ascending 1 db.time db.server_queue
  pub queue_distinct : Distinct server_of db.server_queue
  pub stamps_distinct : Distinct server_of db.server_to_timestamp
  pub sets_distinct : (sig : Signature) → Distinct itself (servers_of sig db.signature_to_servers)
  pub absent : find server_of s db.server_queue ≡ none
  pub owned : (e : Entry) → find server_of s db.server_to_timestamp ≡ some e → e.server ≡ s
  pub agree :
      (x : ServerData)
      → same_server x s ≡ false
      → find server_of x db.server_queue ≡ find server_of x db.server_to_timestamp
  pub served_self :
      (sig : Signature) (x t : ServerData)
      → same_server x s ≡ true
      → find itself x (servers_of sig db.signature_to_servers) ≡ some t
      → t ≡ s
  pub served_other :
      (sig : Signature) (x t : ServerData)
      → same_server x s ≡ false
      → find itself x (servers_of sig db.signature_to_servers) ≡ some t
      → queued x db ≡ some t

-- No other process is known under the address of `s`: what is stored there has the socket of `s`.
abbrev pub IsUnclaimed : ServerData → BinderDatabase → Type 0
IsUnclaimed s db = (e : Entry) → find server_of s db.server_queue ≡ some e → e.server ≡ s
