-- ===== src/Binder/Promise.antt =====
-- What binder.cc answers over whole histories, against the directory.
use mathlib.Core.Path.{ap₂}
use rpc_library.Common.{◌+◌, ◌^◌, ◌<◌, ◌≡◌, refl, ap, false, List, [], ◌∷◌, length, arith}
use rpc_library.Binder.Keyed.{find}
use rpc_library.Binder.Database.{
  BinderDatabase, register_server, locate_server, remove_if_server, empty_database, servers_of,
}
use rpc_library.Binder.Validity.Invariant.{IsValid}
use rpc_library.Binder.Validity.Methods.{empty_database-IsValid}
use rpc_library.Binder.History.{
  Event, registers, locates, disconnects, step, IsOrderly, step-IsValid, time-step,
}
use rpc_library.Binder.Directory.{
  Directory, Answer, status, named, nothing, serve_event, serve_events,
}
use rpc_library.Binder.Refinement.{
  view, register_server-enrol, locate_server-name_next, remove_if_server-dismiss,
}

-- What an event is answered with, and what it makes of the database
unfoldable pub answer_event : BinderDatabase → Event → Answer × BinderDatabase
answer_event db (registers sig s) = let (code, db') = register_server sig s db in (status code, db')
answer_event db (locates sig) = let (s, db') = locate_server sig db in (named s, db')
answer_event db (disconnects socket) = (nothing, remove_if_server socket db)

unfoldable pub answer_events : BinderDatabase → List Event → List Answer × BinderDatabase
answer_events db [] = ([], db)
answer_events db (e ∷ es) =
    let (answer, db') = answer_event db e in
    let (answers, last) = answer_events db' es in (answer ∷ answers, last)

abbrev pub empty_directory : Directory
empty_directory = record { line = []; offers = λ sig s. false }

pub view-empty : view empty_database ≡ empty_directory
unfolding find servers_of
view-empty = refl

answer_event-step : (db : BinderDatabase) (e : Event) → (answer_event db e).1 ≡ step db e
unfolding answer_event step
answer_event-step db (registers sig s) = refl
answer_event-step db (locates sig) = refl
answer_event-step db (disconnects socket) = refl

answer_event-serve_event :
    (db : BinderDatabase) (e : Event)
    → IsValid db
    → ((answer_event db e).0 ≡ (serve_event (view db) e).0)
      × (view (answer_event db e).1 ≡ (serve_event (view db) e).1)
unfolding answer_event serve_event
answer_event-serve_event db (registers sig s) v =
    let (code, after) = register_server-enrol sig s db v in (ap status code, after)
answer_event-serve_event db (locates sig) v =
    let (s, after) = locate_server-name_next sig db v in (ap named s, after)
answer_event-serve_event db (disconnects socket) v = (refl, remove_if_server-dismiss socket db v)

answer_events-serve_events :
    (db : BinderDatabase) (d : Directory) (es : List Event)
    → view db ≡ d
    → IsValid db
    → db.time + length es < 2 ^ 32
    → IsOrderly db es
    → ((answer_events db es).0 ≡ (serve_events d es).0)
      × (view (answer_events db es).1 ≡ (serve_events d es).1)
unfolding answer_events serve_events
answer_events-serve_events db d [] same v small o = (refl, same)
answer_events-serve_events db d (e ∷ es) same v small o =
    let (v', o') = step-IsValid db e es v (omega arith) o in
    let (answer, after) = rw same at (answer_event-serve_event db e v) in
    let (answers, last) =
      answer_events-serve_events (answer_event db e).1 (serve_event d e).1 es after
        (rw (answer_event-step db e) v')
        (rw (answer_event-step db e) (omega (arith, time-step db e)))
        (rw (answer_event-step db e) o') in
    (ap₂ ◌∷◌ answer answers, last)

-- Over any history of fewer than 2 ^ 32 - 1 events from the empty database, in which every
-- registration of a known address comes over the connection that it is known under, the database
-- answers each event as the directory does, and stands for the directory's state at the end.
pub history_refines_directory :
    (es : List Event)
    → length es + 1 < 2 ^ 32
    → IsOrderly empty_database es
    → ((answer_events empty_database es).0 ≡ (serve_events empty_directory es).0)
      × (view (answer_events empty_database es).1 ≡ (serve_events empty_directory es).1)
history_refines_directory es small o =
    answer_events-serve_events empty_database empty_directory es view-empty empty_database-IsValid
      (omega arith) o
