-- ===== src/Binder/Restart.antt =====
-- A server that comes back at its old address before the binder has seen its old connection close
-- (binder.cc, `handleRegister` and `removeIfServer`).
use rpc_library.Common.{◌≡◌, ◌≢◌, ◌∙◌, true, none, some, arith}
use rpc_library.Signature.{Signature}
use rpc_library.Binder.Server.{ServerData, same_server}
use rpc_library.Binder.Keyed
use rpc_library.Binder.Keyed.{find, only}
use rpc_library.Binder.Database.{
  BinderDatabase, itself, register_server, remove_if_server, other_socket,
}
use rpc_library.Binder.Validity.Invariant.{IsValid}
use rpc_library.Binder.Locating.{registered}
use rpc_library.Binder.Registering.{register_server-status}
use rpc_library.Binder.Removing.{find-remove_if_server}

-- While the old connection of an address still stands for a signature in a valid database, a
-- registration of the same address over a new connection is answered with the warning and not
-- recorded; when the old connection then closes, the address is registered no more, though the new
-- connection lives.
pub restarted_server_forgotten :
    (sig : Signature) (old new : ServerData) (db : BinderDatabase)
    → IsValid db
    → same_server new old ≡ true
    → new.server_socket ≢ old.server_socket
    → find itself old (registered sig db) ≡ some old
    → (register_server sig new db ≡ (1, db))
      × (find itself new (registered sig (remove_if_server old.server_socket db)) ≡ none)
unfolding other_socket
restarted_server_forgotten sig old new db v same apart known = (
  (register_server-status sig new db).1 old found,
  (find-remove_if_server old.server_socket db v sig new).2 ∙ rw found (ground arith),
)
  where
    found : find itself new (registered sig db) ≡ some old
    found = Keyed.find_congr itself new old (registered sig db) same ∙ known
