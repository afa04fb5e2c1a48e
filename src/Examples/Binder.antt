-- ===== src/Examples/Binder.antt =====
-- The binder's database with two servers of one procedure.
use native.Mathlib.Decide.{ℕ_discrete}
use mathlib.Core.List.{map}
use rpc_library.Common.{
  ok, ℕ, ◌≤◌, ◌≡◌, ◌≢◌, ◌↔◌, refl, List, [], ◌∷◌, some, none, arith, length, ltb, if◌then◌else◌,
}
use rpc_library.Examples.Data.{sig_f, server_a, server_b, server_a_again}
use rpc_library.Message.{raw_message, server_connection_error}
use rpc_library.Binder.Server.{ServerData, same_server}
use rpc_library.Binder.Keyed
use rpc_library.Binder.Keyed.{find, only, is_some}
use rpc_library.Binder.Database.{
  BinderDatabase, server_of, itself, register_server, locate_server, remove_if_server, other_socket,
  without_socket, empty_database, servers_of, set_servers, stamp_server, timestamp_of,
  set_timestamp, choose, drop_empty, has_signature, queue_ltb, Signature-discrete,
}
use rpc_library.Binder.Validity.Invariant.{IsValid}
use rpc_library.Binder.History.{Event, registers, step, run, history-IsValid, IsOrderly}
use rpc_library.Binder.Locating.{registered, locate_fails_iff, locate_least_recent}
use rpc_library.Binder.RoundRobin.{eligible, locate_times, round_robin}
use rpc_library.Binder.Removing.{find-remove_if_server, removed_not_located}
use rpc_library.Binder.Restart.{restarted_server_forgotten}
use rpc_library.Binder.Directory.{serve_events}
use rpc_library.Binder.Refinement.{view}
use rpc_library.Binder.Promise.{answer_events, empty_directory, history_refines_directory}
use rpc_library.Binder.Terminating.{
  Reply, answered, failed, handle_terminate, failure_message, handle_terminate-last_failure,
}

-- What a run of the database computes with.
unfoldable pub opened : Unit {0}
unfolding run step register_server locate_server servers_of set_servers stamp_server timestamp_of
    set_timestamp choose drop_empty has_signature queue_ltb Keyed.find Keyed.insert Keyed.erase
    Keyed.update same_server Signature-discrete ℕ_discrete remove_if_server without_socket
    other_socket eligible locate_times
opened = tt

abbrev two_events : List Event
two_events = registers sig_f server_a ∷ registers sig_f server_b ∷ []

abbrev two_servers : BinderDatabase
two_servers = run empty_database two_events

two_events-IsOrderly : IsOrderly empty_database two_events
unfolding opened
two_events-IsOrderly = (λ e h. cc, (λ e h. cc, tt))

two_servers-IsValid : IsValid two_servers
two_servers-IsValid = history-IsValid two_events (omega arith) two_events-IsOrderly

-- Inquiries go round; a server that leaves is not named again.
turns : (locate_times 3 sig_f two_servers).0 ≡ some server_a ∷ some server_b ∷ some server_a ∷ []
unfolding opened
turns = refl

after_disconnect :
    (locate_times 2 sig_f (remove_if_server 7 two_servers)).0 ≡ some server_b ∷ some server_b ∷ []
unfolding opened
after_disconnect = refl

history-IsValid_example : IsValid (run empty_database two_events)
history-IsValid_example = history-IsValid two_events (omega arith) two_events-IsOrderly

round_robin_example :
    ((locate_times (length (eligible sig_f two_servers)) sig_f two_servers).0
      ≡ map some (eligible sig_f two_servers))
    × (eligible sig_f (locate_times (length (eligible sig_f two_servers)) sig_f two_servers).1
        ≡ eligible sig_f two_servers)
unfolding opened
round_robin_example = round_robin sig_f two_servers two_servers-IsValid (omega arith)

locate_fails_iff_example :
    ((locate_server sig_f two_servers).0 ≡ none) ↔ (registered sig_f two_servers ≡ [])
locate_fails_iff_example = locate_fails_iff sig_f two_servers two_servers-IsValid

locate_least_recent_example :
    (find itself server_a (registered sig_f two_servers) ≡ some server_a)
    × ((x t : ServerData)
        → find itself x (registered sig_f two_servers) ≡ some t
        → timestamp_of server_a two_servers.server_to_timestamp
          ≤ timestamp_of x two_servers.server_to_timestamp)
unfolding opened
locate_least_recent_example =
    locate_least_recent sig_f two_servers two_servers-IsValid server_a refl

find-remove_if_server_example :
    (find server_of server_a (remove_if_server 7 two_servers).server_queue
      ≡ only (λ e. other_socket 7 e.server) (find server_of server_a two_servers.server_queue))
    × (find server_of server_a (remove_if_server 7 two_servers).server_to_timestamp
        ≡ only
            (λ e. other_socket 7 e.server)
            (find server_of server_a two_servers.server_to_timestamp))
    × (find itself server_a (registered sig_f (remove_if_server 7 two_servers))
        ≡ only (other_socket 7) (find itself server_a (registered sig_f two_servers)))
find-remove_if_server_example =
    find-remove_if_server 7 two_servers two_servers-IsValid sig_f server_a

removed_not_located_example : ◌≢◌ {A = ℕ} 8 7
unfolding opened
removed_not_located_example =
    removed_not_located 7 two_servers two_servers-IsValid sig_f server_b refl

restarted_server_forgotten_example :
    (register_server sig_f server_a_again two_servers ≡ (1, two_servers))
    × (find itself server_a_again (registered sig_f (remove_if_server 7 two_servers)) ≡ none)
unfolding opened
restarted_server_forgotten_example =
    restarted_server_forgotten sig_f server_a server_a_again two_servers two_servers-IsValid refl
      (omega arith) refl

-- The first server confirms, the connection of the second fails.
pub second_fails : ServerData → Reply
second_fails s = if ltb s.server_socket 8 then answered (9 ∷ 0 ∷ []) else failed

handle_terminate-last_failure_example :
    handle_terminate second_fails two_servers ≡ ok (failure_message server_connection_error)
unfolding opened second_fails raw_message
handle_terminate-last_failure_example = handle_terminate-last_failure second_fails two_servers

history_refines_directory_example :
    ((answer_events empty_database two_events).0 ≡ (serve_events empty_directory two_events).0)
    × (view (answer_events empty_database two_events).1
        ≡ (serve_events empty_directory two_events).1)
history_refines_directory_example =
    history_refines_directory two_events (omega arith) two_events-IsOrderly
