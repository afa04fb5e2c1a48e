-- ===== src/Binder/Directory.antt =====
-- What binder.cc promises, without timestamps, sets or a clock: servers that wait in a line, and what
-- each of them offers.
use rpc_library.Common.{
  ℕ, Bool, ◌&&◌, ◌||◌, not, List, [], ◌∷◌, ◌++◌, Option, none, some, keep, if◌then◌else◌,
}
use mathlib.Core.Logic.{ite}
use rpc_library.Signature.{Signature}
use rpc_library.Binder.Server.{ServerData, same_server}
use rpc_library.Binder.Keyed
use rpc_library.Binder.Keyed.{is_some}
use rpc_library.Binder.Database.{itself, other_socket, Signature-discrete}
use rpc_library.Binder.History.{Event, registers, locates, disconnects}

pub record Directory : Type 0 where
  pub line : List ServerData
  pub offers : Signature → ServerData → Bool

abbrev pub without : ServerData → List ServerData → List ServerData
without s = keep (λ x. not (same_server s x))

abbrev pub to_the_end : ServerData → List ServerData → List ServerData
to_the_end s line = without s line ++ s ∷ []

-- The first in a line that passes a test
unfoldable pub first : (ServerData → Bool) → List ServerData → Option ServerData
first p [] = none
first p (x ∷ xs) = if p x then some x else first p xs

abbrev pub offers_too :
    Signature → ServerData → (Signature → ServerData → Bool) → Signature → ServerData → Bool
offers_too sig s offers k x =
    ite (Signature-discrete k sig) (same_server x s || offers k x) (offers k x)

-- A new offer is answered with 0, and its server goes to the end of the line; an old one with 1.
unfoldable pub enrol : Signature → ServerData → Directory → ℕ × Directory
enrol sig s d =
    if d.offers sig s
    then (1, d)
    else (0, record { line = to_the_end s d.line; offers = offers_too sig s d.offers })

-- The first in the line that offers the procedure is named, and goes to the end.
unfoldable pub name_next : Signature → Directory → Option ServerData × Directory
name_next sig d = elim (first (d.offers sig) d.line) [
  | none ↦ (none, d)
  | some s ↦ (some s, record d { line = to_the_end s d.line })
]

-- The servers of a connection leave the line, and what they offered is offered no more.
unfoldable pub dismiss : ℕ → Directory → Directory
dismiss socket d = record {
  line = keep (other_socket socket) d.line;
  offers = λ k x. d.offers k x && is_some (Keyed.find itself x (keep (other_socket socket) d.line));
}

pub data Answer : Type 0 where
  status : ℕ → Answer
  named : Option ServerData → Answer
  nothing : Answer

unfoldable pub serve_event : Directory → Event → Answer × Directory
serve_event d (registers sig s) = let (code, d') = enrol sig s d in (status code, d')
serve_event d (locates sig) = let (s, d') = name_next sig d in (named s, d')
serve_event d (disconnects socket) = (nothing, dismiss socket d)

-- The answers to a history, and the directory behind it
unfoldable pub serve_events : Directory → List Event → List Answer × Directory
serve_events d [] = ([], d)
serve_events d (e ∷ es) =
    let (answer, d') = serve_event d e in
    let (answers, last) = serve_events d' es in (answer ∷ answers, last)
