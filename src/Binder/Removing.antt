-- ===== src/Binder/Removing.antt =====
-- What `removeIfServer` of binder.cc takes away.
use rpc_library.Common.{ℕ, ◌≡◌, ◌≢◌, sym, ◌∙◌, Option, some, arith}
use rpc_library.Signature.{Signature}
use rpc_library.Binder.Server.{ServerData}
use rpc_library.Binder.Keyed
use rpc_library.Binder.Keyed.{is_some, find, insert, only}
use rpc_library.Binder.Sets.{servers_of-without_socket}
use rpc_library.Binder.Database.{
  BinderDatabase, itself, server_of, remove_if_server, other_socket, locate_server,
}
use rpc_library.Binder.Validity.Invariant.{IsValid}
use rpc_library.Binder.Validity.Methods.{remove_if_server-IsValid}
use rpc_library.Binder.Locating.{registered, locate_least_recent}

module _ (socket : ℕ) (db : BinderDatabase) (v : IsValid db) where
  -- Of a valid database, exactly the servers of the closed socket go, from the queue, from the map
  -- of timestamps and from every set: a key leads to what it led to before, unless that had the
  -- socket.
  pub find-remove_if_server :
      (sig : Signature) (x : ServerData)
      → (find server_of x (remove_if_server socket db).server_queue
          ≡ only (λ e. other_socket socket e.server) (find server_of x db.server_queue))
        × (find server_of x (remove_if_server socket db).server_to_timestamp
            ≡ only (λ e. other_socket socket e.server) (find server_of x db.server_to_timestamp))
        × (find itself x (registered sig (remove_if_server socket db))
            ≡ only (other_socket socket) (find itself x (registered sig db)))
  unfolding remove_if_server
  find-remove_if_server sig x = (
    Keyed.find-keep server_of _ x db.server_queue v.queue_distinct,
    Keyed.find-keep server_of _ x db.server_to_timestamp v.stamps_distinct,
    rw (servers_of-without_socket socket sig db.signature_to_servers)
        (Keyed.find-keep itself _ x _ (v.sets_distinct sig)),
  )

  only_other :
      (o : Option ServerData) (s : ServerData)
      → only (other_socket socket) o ≡ some s
      → s.server_socket ≢ socket
  unfolding other_socket
  only_other o s h = λ e. ground arith

  -- After a connection has closed, no inquiry to a database that was valid is answered with a server
  -- of that connection.
  pub removed_not_located :
      (sig : Signature) (s : ServerData)
      → (locate_server sig (remove_if_server socket db)).0 ≡ some s
      → s.server_socket ≢ socket
  removed_not_located sig s h =
      let (found, _) =
        locate_least_recent sig (remove_if_server socket db) (remove_if_server-IsValid socket db v)
          s h in
      only_other _ s (sym (find-remove_if_server sig s).2 ∙ found)
