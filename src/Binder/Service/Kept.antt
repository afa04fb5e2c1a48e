-- ===== src/Binder/Service/Kept.antt =====
-- What holds of the database of binder.cc while no address registers over two connections at once.
use mathlib.Core.List.{map}
use rpc_library.Common.{
  ℕ, ◌+◌, ◌^◌, ◌<◌, ◌≤◌, ◌≡◌, List, [], ◌∷◌, some, arith, Bool-cases, inl, inr,
}
use rpc_library.Signature.{Signature}
use rpc_library.Binder.Server.{ServerData, same_server}
use rpc_library.Binder.Keyed.{find}
use rpc_library.Binder.Database.{
  Entry, BinderDatabase, server_of, register_server, locate_server, remove_if_server,
  empty_database,
}
use rpc_library.Binder.Validity.Invariant.{IsValid, IsUnclaimed}
use rpc_library.Binder.Validity.Methods.{
  empty_database-IsValid, register_server-IsValid, locate_server-IsValid, remove_if_server-IsValid,
}
use rpc_library.Binder.History.{time-register_server, time-locate_server}
use rpc_library.Binder.Refinement.{view}
use rpc_library.Binder.Service.{IsAlone}

-- A database at a time of at most `n`
pub record Kept (n : ℕ) (db : BinderDatabase) : Type 0 where
  pub valid : IsValid db
  pub clock : db.time ≤ n

find-IsAlone :
    (s : ServerData) (es : List Entry) (e : Entry)
    → IsAlone s (map server_of es)
    → find server_of s es ≡ some e
    → e.server ≡ s
unfolding find
find-IsAlone s [] e a found = cc found
find-IsAlone s (x ∷ es) e a found = elim (Bool-cases (same_server s x.server)) [
  | inl same ↦ let e≡x : x ≡ e = cc (rw same at found) in rw (← e≡x) (a.0 same)
  | inr other ↦ find-IsAlone s es e a.1 (rw other at found)
]

pub IsAlone-IsUnclaimed :
    (s : ServerData) (db : BinderDatabase) → IsAlone s (view db).line → IsUnclaimed s db
IsAlone-IsUnclaimed s db a e = find-IsAlone s db.server_queue e a

module _ (n : ℕ) (db : BinderDatabase) (small : n + 1 < 2 ^ 32) (k : Kept n db) where
  pub register_server-Kept :
      (sig : Signature) (s : ServerData)
      → IsUnclaimed s db
      → Kept (n + 1) (register_server sig s db).1
  register_server-Kept sig s own = record {
    valid = register_server-IsValid sig s db k.valid own (omega (arith, k.clock));
    clock = omega (arith, k.clock, time-register_server sig s db);
  }

  pub locate_server-Kept : (sig : Signature) → Kept (n + 1) (locate_server sig db).1
  locate_server-Kept sig = record {
    valid = locate_server-IsValid sig db k.valid (omega (arith, k.clock));
    clock = omega (arith, k.clock, time-locate_server sig db);
  }

pub remove_if_server-Kept :
    (n socket : ℕ) (db : BinderDatabase) → Kept n db → Kept n (remove_if_server socket db)
unfolding remove_if_server
remove_if_server-Kept n socket db k = record {
  valid = remove_if_server-IsValid socket db k.valid;
  clock = k.clock;
}

pub Kept-later : (n m : ℕ) (db : BinderDatabase) → n ≤ m → Kept n db → Kept m db
Kept-later n m db le k = record { valid = k.valid; clock = omega (arith, k.clock) }

pub empty_database-Kept : Kept 1 empty_database
empty_database-Kept = record { valid = empty_database-IsValid; clock = omega arith }
