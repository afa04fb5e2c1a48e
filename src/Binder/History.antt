-- ===== src/Binder/History.antt =====
-- Histories of a `BinderDatabase` (binder.cc): what holds after any sequence of messages.
use rpc_library.Common.{ℕ, ◌+◌, ◌^◌, ◌<◌, ◌≤◌, List, [], ◌∷◌, length, arith}
use rpc_library.Signature.{Signature}
use rpc_library.Binder.Server.{ServerData}
use rpc_library.Binder.Database.{
  BinderDatabase, register_server, locate_server, remove_if_server, empty_database, stamp_server,
}
use rpc_library.Binder.Validity.Invariant.{IsValid, IsUnclaimed}
use rpc_library.Binder.Validity.Methods.{
  empty_database-IsValid, register_server-IsValid, locate_server-IsValid, remove_if_server-IsValid,
}

-- The events that change the database.
pub data Event : Type 0 where
  registers : Signature → ServerData → Event
  locates : Signature → Event
  disconnects : ℕ → Event

unfoldable pub step : BinderDatabase → Event → BinderDatabase
step db (registers sig s) = (register_server sig s db).1
step db (locates sig) = (locate_server sig db).1
step db (disconnects socket) = remove_if_server socket db

unfoldable pub run : BinderDatabase → List Event → BinderDatabase
run db [] = db
run db (e ∷ es) = run (step db e) es

-- Every registration comes over the connection under which its address is known, if it is known.
abbrev pub IsOrderly : BinderDatabase → List Event → Type 0
IsOrderly db [] = Unit {0}
IsOrderly db (registers sig s ∷ es) = IsUnclaimed s db × IsOrderly (step db (registers sig s)) es
IsOrderly db (e ∷ es) = IsOrderly (step db e) es

pub time-register_server :
    (sig : Signature) (s : ServerData) (db : BinderDatabase)
    → (register_server sig s db).1.time ≤ db.time + 1
unfolding register_server stamp_server
time-register_server sig s db = ground arith

pub time-locate_server :
    (sig : Signature) (db : BinderDatabase) → (locate_server sig db).1.time ≤ db.time + 1
unfolding locate_server stamp_server
time-locate_server sig db = ground arith

pub time-step : (db : BinderDatabase) (e : Event) → (step db e).time ≤ db.time + 1
unfolding step remove_if_server
time-step db (registers sig s) = time-register_server sig s db
time-step db (locates sig) = time-locate_server sig db
time-step db (disconnects socket) = omega arith

pub step-IsValid :
    (db : BinderDatabase) (e : Event) (es : List Event)
    → IsValid db
    → db.time + 1 < 2 ^ 32
    → IsOrderly db (e ∷ es)
    → IsValid (step db e) × IsOrderly (step db e) es
unfolding step
step-IsValid db (registers sig s) es v small o = (register_server-IsValid sig s db v o.0 small, o.1)
step-IsValid db (locates sig) es v small o = (locate_server-IsValid sig db v small, o)
step-IsValid db (disconnects socket) es v small o = (remove_if_server-IsValid socket db v, o)

run-IsValid :
    (db : BinderDatabase) (es : List Event)
    → IsValid db
    → db.time + length es < 2 ^ 32
    → IsOrderly db es
    → IsValid (run db es)
unfolding run
run-IsValid db [] v small o = v
run-IsValid db (e ∷ es) v small o =
    let (v', o') = step-IsValid db e es v (omega arith) o in
    run-IsValid (step db e) es v' (omega (arith, time-step db e)) o'

-- After any history of fewer than 2 ^ 32 - 1 events from the empty database, in which every
-- registration of a known address comes over the connection that it is known under, the database is
-- valid.
pub history-IsValid :
    (es : List Event)
    → length es + 1 < 2 ^ 32
    → IsOrderly empty_database es
    → IsValid (run empty_database es)
history-IsValid es small o = run-IsValid empty_database es empty_database-IsValid (omega arith) o
