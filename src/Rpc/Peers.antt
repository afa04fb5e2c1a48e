-- ===== src/Rpc/Peers.antt =====
-- The programs at the other ends of the connections of rpc.cc: binder.cc and libserver.cc.
use rpc_library.Common.{ℕ, ◌≡◌, refl, List, Option, none, some, Outcome, ok, fault}
use rpc_library.Message.{raw_message}
use rpc_library.Binder.Server.{ServerData}
use rpc_library.Binder.Database.{BinderDatabase}
use rpc_library.Binder.Terminating.{Reply}
use rpc_library.Binder.Loop.{dispatch, Handled}
use rpc_library.Libserver.{ServerDatabase, answer_execute}
use rpc_library.Rpc.{Exchange}

-- The bytes of the response, if there is one.
abbrev pub response_of : Outcome (Option Handled) → Option (List ℕ)
response_of (ok (some h)) = some h.response.buffer
response_of (ok none) = none
response_of (fault e) = none

abbrev pub bytes_of : Outcome (List ℕ) → Option (List ℕ)
bytes_of (ok bytes) = some bytes
bytes_of (fault e) = none

-- The binder at the end of a connection, with its database as it is.
unfoldable pub asks_binder : (ServerData → Reply) → ℕ → BinderDatabase → Exchange
asks_binder replies client db bytes =
    let raw = raw_message bytes in response_of (dispatch raw.message_type replies client raw db)

-- A thread of a server at the end of a connection.
unfoldable pub asks_server : ServerDatabase → Exchange
asks_server database bytes = bytes_of (answer_execute (raw_message bytes) database)

pub raw_bytes : (bytes : List ℕ) → raw_message (raw_message bytes).buffer ≡ raw_message bytes
unfolding raw_message
raw_bytes bytes = refl
