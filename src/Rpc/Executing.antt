-- ===== src/Rpc/Executing.antt =====
-- rpcExecute behind rpcInit (rpc.cc), as server.c calls them.
use rpc_library.Common.{
  >>=-eq-ok, ℕ, ◌≡◌, refl, ◌||◌, ◌==◌, if◌then◌else◌, Bool, true, false, Option, none, some,
  Outcome, ok, fault, undefined,
}
use rpc_library.Message.{int_of_code, binder_connection_error}
use rpc_library.Libserver.{ServerDatabase}
use rpc_library.TcpServer.Creating.{Descriptors, ListenerInput, LocalServer, new_tcp_server}
use rpc_library.Rpc.{RpcState}
use rpc_library.Rpc.Starting.{
  Environment, Hosts, connect_to_binder, keep_server, keep_binder, rpc_init, rpc_execute,
}

-- The globals of a program that has not called the library, but for the skeletons
abbrev pub unstarted : ServerDatabase → RpcState
unstarted database = record { binder = false; local_server = none; database = database }

-- What rpcExecute comes to behind an rpcInit that returned a status
abbrev pub executed : Bool → ℕ → ℕ × RpcState × Descriptors → Outcome (ℕ × RpcState)
executed connects served (status, st, opened) =
    if status == 0
    then ok (served, st)
    else if st.binder || connects
    then fault undefined
    else ok (int_of_code binder_connection_error, st)

module _ (connects : Bool) (served : ℕ) (database : ServerDatabase) where
  keep_server-execute :
      (found : Option LocalServer × Descriptors)
      → let result = keep_server (record (unstarted database) { binder = true }) found in
        rpc_execute connects served result.1 ≡ executed connects served result
  unfolding rpc_execute keep_server
  keep_server-execute (none, opened) = refl
  keep_server-execute (some server, opened) = refl

  unconnected_execute :
      (now : Bool)
      → rpc_execute now served (unstarted database) ≡ (
          if now
          then fault undefined
          else ok (int_of_code binder_connection_error, unstarted database))
  unfolding rpc_execute
  unconnected_execute true = refl
  unconnected_execute false = refl

  keep_binder-execute :
      (input : ListenerInput) (found : Option ℕ × Descriptors)
      → let result = keep_binder input (unstarted database) found in
        rpc_execute connects served result.1 ≡ executed connects served result
  unfolding rpc_execute keep_binder
  keep_binder-execute input (none, opened) = unconnected_execute connects
  keep_binder-execute input (some fd, opened) = keep_server-execute (new_tcp_server input opened)

-- In a program that starts with rpcInit and then calls rpcExecute, whatever the first returned, the
-- second serves if the status was 0. If it was not, rpcExecute reads through a null pointer if there is a
-- connection to the binder, from before or made now; and else returns BINDER_CONNECTION_ERROR.
pub init_then_execute :
    (connects : Bool) (served : ℕ) (database : ServerDatabase) (environment : Environment)
    (hosts : Hosts) (input : ListenerInput) (opened : Descriptors)
    (result : ℕ × RpcState × Descriptors)
    → rpc_init environment hosts input (unstarted database) opened ≡ ok result
    → rpc_execute connects served result.1 ≡ executed connects served result
unfolding rpc_init
init_then_execute connects served database environment hosts input opened result e =
    let (found, asked, kept) = >>=-eq-ok (connect_to_binder environment hosts opened) _ e in
    let same : keep_binder input (unstarted database) found ≡ result = cc kept in
    rw (← same) (keep_binder-execute connects served database input found)
