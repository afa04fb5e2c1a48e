-- ===== src/Binder/Line.antt =====
-- The queue of binder.cc as a line of servers, without the timestamps.
use mathlib.Core.List.{map, map-append}
use mathlib.Core.Option
use rpc_library.Common.{
  ℕ, ◌≡◌, refl, sym, ◌∙◌, ap, Bool, true, ◌&&◌, List, [], ◌∷◌, ◌++◌, Option, none, some, keep, ltb,
  Option-cases, Bool-cases, inl, inr, if◌then◌else◌, arith,
}
use rpc_library.Signature.{Signature}
use rpc_library.Binder.Server.{ServerData}
use rpc_library.Binder.Keyed
use rpc_library.Binder.Keyed.{is_some, find, erase, only}
use rpc_library.Binder.Database.{
  Entry, BinderDatabase, server_of, itself, same_entry, choose, register_server, stamp_server,
  timestamp_of,
}
use rpc_library.Binder.Validity.Invariant.{IsValid}
use rpc_library.Binder.Validity.Queue.{Ascending, Ascending-erase, Ascending-find}
use rpc_library.Binder.Validity.Stamping.{stamped}
use rpc_library.Binder.Validity.Methods.{timestamp_of_missing, timestamp_of_found}
use rpc_library.Binder.Locating.{registered}
use rpc_library.Binder.RoundRobin.{insert-newest, find-map}
use rpc_library.Binder.Directory.{without, to_the_end, first}

-- Who is not in a list is not taken out of it.
without_missing :
    (s : ServerData) (es : List Entry)
    → find server_of s es ≡ none
    → without s (map server_of es) ≡ map server_of es
unfolding find
without_missing s [] h = refl
without_missing s (y ∷ ys) h = ground (arith, without_missing s ys)

-- Erasing the entry of a server takes the server out of the line.
pub line-erase :
    (s : ServerData) (t : ℕ) (e : Entry) (es : List Entry)
    → Keyed.Distinct server_of es
    → find server_of s es ≡ some e
    → e.timestamp ≡ t
    → map server_of (erase (same_entry (stamped t s)) es) ≡ without s (map server_of es)
unfolding find erase
line-erase s t e [] d h same = cc
line-erase s t e (y ∷ ys) d h same =
    ground (
      arith,
      line-erase s t e ys d.1,
      without_missing s ys,
      Keyed.find_congr server_of s y.server ys,
    )

pub first-choose :
    (servers : List ServerData) (es : List Entry)
    → first (λ x. is_some (find itself x servers)) (map server_of es)
      ≡ Option.map server_of (choose servers es)
unfolding first choose
first-choose servers [] = refl
first-choose servers (e ∷ es) = ground (arith, first-choose servers es)

pub line-stamp_server :
    (s : ServerData) (db : BinderDatabase)
    → Ascending 1 db.time db.server_queue
    → map server_of (stamp_server s db).server_queue ≡ map server_of db.server_queue ++ s ∷ []
unfolding stamp_server
line-stamp_server s db up =
    ap (map server_of) (insert-newest 1 db.time s db.server_queue up)
    ∙ map-append server_of db.server_queue (stamped db.time s ∷ [])

-- The queue of `handleRegister` without the old entry of the server.
abbrev pub trimmed : ServerData → BinderDatabase → List Entry
trimmed s db =
    let timestamp = timestamp_of s db.server_to_timestamp in
    if ltb 0 timestamp
    then erase (same_entry (stamped timestamp s)) db.server_queue
    else db.server_queue

module _ (db : BinderDatabase) (v : IsValid db) where
  line-trimmed :
      (s : ServerData) → map server_of (trimmed s db) ≡ without s (map server_of db.server_queue)
  line-trimmed s = elim (Option-cases (find server_of s db.server_queue)) [
    | inl missing ↦
        rw (timestamp_of_missing s db.server_to_timestamp (sym (v.agree s) ∙ missing))
          (sym (without_missing s db.server_queue missing))
    | inr (e, found) ↦
        let positive : ltb 0 e.timestamp ≡ true =
          ground (arith, Ascending-find 1 db.time s e db.server_queue v.ordered found) in
        rw (timestamp_of_found s db.server_to_timestamp e (sym (v.agree s) ∙ found), positive)
          (line-erase s e.timestamp e db.server_queue v.queue_distinct found refl)
  ]

  Ascending-trimmed : (s : ServerData) → Ascending 1 db.time (trimmed s db)
  Ascending-trimmed s = elim (Bool-cases (ltb 0 (timestamp_of s db.server_to_timestamp))) [
    | inl known ↦ rw known (Ascending-erase 1 db.time _ db.server_queue v.ordered)
    | inr new ↦ rw new v.ordered
  ]

  pub line-register_new :
      (sig : Signature) (s : ServerData)
      → find itself s (registered sig db) ≡ none
      → map server_of (register_server sig s db).1.server_queue
        ≡ to_the_end s (map server_of db.server_queue)
  unfolding register_server
  line-register_new sig s new = rw new (
      line-stamp_server s (record db { server_queue = trimmed s db; signature_to_servers = _ })
        (Ascending-trimmed s)
      ∙ ap (λ (l : List ServerData). l ++ s ∷ []) (line-trimmed s))

pub keep-map :
    (p : ServerData → Bool) (es : List Entry)
    → keep p (map server_of es) ≡ map server_of (keep (λ e. p e.server) es)
keep-map p [] = refl
keep-map p (e ∷ es) = ground (arith, keep-map p es)

-- Who is registered is in the line, so who is dismissed from the one is dismissed from the other.
pub only_both :
    (p : ServerData → Bool) (s : Option ServerData) (q : Option Entry)
    → ((t : ServerData) → s ≡ some t → Option.map server_of q ≡ some t)
    → is_some (only p s) ≡ (is_some s && is_some (Option.map server_of (only (λ e. p e.server) q)))
only_both p none q h = refl
only_both p (some t) none h = cc (h t refl)
only_both p (some t) (some e) h = let same : e.server ≡ t = cc (h t refl) in ground arith

pub find-keep_line :
    (p : ServerData → Bool) (x : ServerData) (es : List Entry)
    → Keyed.Distinct server_of es
    → find itself x (keep p (map server_of es))
      ≡ Option.map server_of (only (λ e. p e.server) (find server_of x es))
find-keep_line p x es d =
    ap (find itself x) (keep-map p es)
    ∙ find-map x (keep (λ e. p e.server) es)
    ∙ ap (Option.map server_of) (Keyed.find-keep server_of _ x es d)
