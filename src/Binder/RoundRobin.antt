-- ===== src/Binder/RoundRobin.antt =====
-- The load balancing of binder.cc: inquiries for one signature in a row.
use mathlib.Core.Option
use mathlib.Core.Path.{ap₂}
use mathlib.Core.List.{map, map-append}
use rpc_library.Common.{
  ℕ, zero, suc, ◌+◌, ◌≤◌, ◌<◌, ◌^◌, ◌≡◌, refl, sym, ◌∙◌, ap, Bool, false, List, [], ◌∷◌, ◌++◌,
  append_assoc, append-nil, Option, none, some, arith, keep, length, Option-cases, inl, inr,
}
use rpc_library.Signature.{Signature}
use rpc_library.Binder.Server.{ServerData, same_server_refl}
use rpc_library.Binder.Keyed
use rpc_library.Binder.Keyed.{is_some, find, insert, erase, only}
use rpc_library.Binder.Sets.{servers_of-drop_empty}
use rpc_library.Binder.Database.{
  Entry, BinderDatabase, server_of, itself, same_entry, choose, locate_server, stamp_server,
  queue_ltb,
}
use rpc_library.Binder.Validity.Queue.{Ascending, Ascending-erase}
use rpc_library.Binder.Validity.Invariant.{IsValid}
use rpc_library.Binder.Validity.Stamping.{stamped}
use rpc_library.Binder.Validity.Methods.{locate_server-IsValid}
use rpc_library.Binder.Locating.{
  registered, serves, choose-serves, registered_entry, registered-serves, locate_server-answer,
  locate_server_nobody, locate_server_chosen,
}

-- The servers of a signature in the order of the queue.
unfoldable pub eligible : Signature → BinderDatabase → List ServerData
eligible sig db = map server_of (keep (serves (registered sig db)) db.server_queue)

-- `n` inquiries for one signature, with their answers in order.
unfoldable pub locate_times :
    ℕ → Signature → BinderDatabase → List (Option ServerData) × BinderDatabase
locate_times zero sig db = ([], db)
locate_times (suc n) sig db =
    let (answer, db') = locate_server sig db in
    let (answers, last) = locate_times n sig db' in (answer ∷ answers, last)

keep-append {ℓ} :
    {A : Type ℓ} (p : A → Bool) (xs ys : List A) → keep p (xs ++ ys) ≡ keep p xs ++ keep p ys
keep-append p [] ys = refl
keep-append p (x ∷ xs) ys = ground (arith, keep-append p xs ys)

-- The newest entry goes to the end of the queue.
pub insert-newest :
    (lo hi : ℕ) (s : ServerData) (es : List Entry)
    → Ascending lo hi es
    → insert queue_ltb (stamped hi s) es ≡ es ++ stamped hi s ∷ []
unfolding insert queue_ltb
insert-newest lo hi s [] a = refl
insert-newest lo hi s (e ∷ es) a = ground (arith, insert-newest (e.timestamp + 1) hi s es a.2)

-- Erasing the entry that was chosen takes the first that serves.
keep-erase :
    (servers : List ServerData) (e : Entry) (es : List Entry)
    → choose servers es ≡ some e
    → keep (serves servers) es ≡ e ∷ keep (serves servers) (erase (same_entry e) es)
unfolding choose erase
keep-erase servers e [] h = cc
keep-erase servers e (y ∷ ys) h = ground (
  arith,
  keep-erase servers e ys,
  choose-serves servers e ys,
  same_server_refl e.server,
  Keyed.find_congr itself e.server y.server servers,
)

choose-keep_nil :
    (servers : List ServerData) (es : List Entry)
    → choose servers es ≡ none
    → keep (serves servers) es ≡ []
unfolding choose
choose-keep_nil servers [] h = refl
choose-keep_nil servers (y ∷ ys) h = ground (arith, choose-keep_nil servers ys)

-- An inquiry leaves every set of servers as it was.
pub registered-locate_server :
    (sig k : Signature) (db : BinderDatabase)
    → registered k (locate_server sig db).1 ≡ registered k db
unfolding stamp_server
registered-locate_server sig k db =
    elim (Option-cases (choose (registered sig db) db.server_queue)) [
      | inl nobody ↦
          rw (locate_server_nobody sig db nobody)
            (servers_of-drop_empty sig k db.signature_to_servers)
      | inr (e, chosen) ↦
          rw (locate_server_chosen sig db e chosen)
            (servers_of-drop_empty sig k db.signature_to_servers)
    ]

module _ (sig : Signature) (db : BinderDatabase) (v : IsValid db) where
  -- The queue behind an inquiry that finds `e`.
  queue-locate_server :
      (e : Entry)
      → choose (registered sig db) db.server_queue ≡ some e
      → (locate_server sig db).1.server_queue
        ≡ erase (same_entry e) db.server_queue ++ stamped db.time e.server ∷ []
  unfolding stamp_server
  queue-locate_server e chosen =
      rw (locate_server_chosen sig db e chosen)
        (insert-newest 1 db.time e.server _ (Ascending-erase 1 db.time _ db.server_queue v.ordered))

  eligible-locate_server :
      (e : Entry)
      → choose (registered sig db) db.server_queue ≡ some e
      → eligible sig (locate_server sig db).1
        ≡ map server_of (keep (serves (registered sig db)) (erase (same_entry e) db.server_queue))
          ++ e.server ∷ []
  unfolding eligible
  eligible-locate_server e chosen =
      rw
        (
          registered-locate_server sig sig db,
          queue-locate_server e chosen,
          keep-append (serves (registered sig db)) (erase (same_entry e) db.server_queue)
              (stamped db.time e.server ∷ []),
          choose-serves (registered sig db) e db.server_queue chosen,
        )
        (map-append server_of _ _)

  -- An inquiry answers with the first eligible server and sends it to the end of the line.
  pub locate_rotates :
      (s : ServerData) (rest : List ServerData)
      → eligible sig db ≡ s ∷ rest
      → ((locate_server sig db).0 ≡ some s)
        × (eligible sig (locate_server sig db).1 ≡ rest ++ s ∷ [])
  locate_rotates s rest h = elim (Option-cases (choose (registered sig db) db.server_queue)) [
    | inl nobody ↦ cc (nothing nobody)
    | inr (e, chosen) ↦
        let (first, others) = front e chosen in
        (
          locate_server-answer sig db ∙ rw chosen (ap some first),
          eligible-locate_server e chosen ∙ rw (others, first) refl,
        )
  ]
    where
      nothing : choose (registered sig db) db.server_queue ≡ none → s ∷ rest ≡ []
      nothing nobody = sym h ∙ unfold eligible in rw (choose-keep_nil _ _ nobody) refl

      line :
          (e : Entry)
          → choose (registered sig db) db.server_queue ≡ some e
          → e.server
              ∷ map server_of
                  (keep (serves (registered sig db)) (erase (same_entry e) db.server_queue))
            ≡ s ∷ rest
      line e chosen = unfold eligible in rw (keep-erase _ e db.server_queue chosen) at h

      front :
          (e : Entry)
          → choose (registered sig db) db.server_queue ≡ some e
          → (e.server ≡ s)
            × (map server_of
                  (keep (serves (registered sig db)) (erase (same_entry e) db.server_queue))
                ≡ rest)
      front e chosen = let l = line e chosen in (cc, cc)

-- The clock moves by one with an answer and not otherwise.
time-locate_server :
    (sig : Signature) (db : BinderDatabase)
    → db.time + 1 < 2 ^ 32
    → (locate_server sig db).1.time ≤ db.time + 1
unfolding stamp_server
time-locate_server sig db small = elim (Option-cases (choose (registered sig db) db.server_queue)) [
  | inl nobody ↦ rw (locate_server_nobody sig db nobody) (omega arith)
  | inr (e, chosen) ↦ rw (locate_server_chosen sig db e chosen) (omega arith)
]

line_turns :
    (xs ys : List ServerData) (sig : Signature) (db : BinderDatabase)
    → IsValid db
    → db.time + length xs < 2 ^ 32
    → eligible sig db ≡ xs ++ ys
    → ((locate_times (length xs) sig db).0 ≡ map some xs)
      × (eligible sig (locate_times (length xs) sig db).1 ≡ ys ++ xs)
unfolding locate_times
line_turns [] ys sig db v small h = (refl, h ∙ sym (append-nil ys))
line_turns (x ∷ xs) ys sig db v small h =
    let (answer, moved) = locate_rotates sig db v x (xs ++ ys) h in
    let one_more = time-locate_server sig db (omega arith) in
    let (answers, last) =
      line_turns xs (ys ++ x ∷ []) sig (locate_server sig db).1
        (locate_server-IsValid sig db v (omega arith)) (omega arith)
        (moved ∙ append_assoc xs ys (x ∷ [])) in
    (ap₂ ◌∷◌ answer answers, last ∙ append_assoc ys (x ∷ []) xs)

-- In a valid database whose clock does not wrap meanwhile, `n` inquiries in a row for a signature
-- with `n` servers in the queue answer with each of them once, in the order of the queue, and leave
-- that order as it was.
pub round_robin :
    (sig : Signature) (db : BinderDatabase)
    → IsValid db
    → db.time + length (eligible sig db) < 2 ^ 32
    → ((locate_times (length (eligible sig db)) sig db).0 ≡ map some (eligible sig db))
      × (eligible sig (locate_times (length (eligible sig db)) sig db).1 ≡ eligible sig db)
round_robin sig db v small =
    line_turns (eligible sig db) [] sig db v small (sym (append-nil (eligible sig db)))

pub find-map :
    (x : ServerData) (es : List Entry)
    → find itself x (map server_of es) ≡ Option.map server_of (find server_of x es)
unfolding find
find-map x [] = refl
find-map x (e ∷ es) = ground (arith, find-map x es)

-- In a valid database the servers of the queue that may answer for a signature are the registered
-- ones: a key leads to the same server in both.
pub eligible_are_registered :
    (sig : Signature) (db : BinderDatabase)
    → IsValid db
    → (x : ServerData) → find itself x (eligible sig db) ≡ find itself x (registered sig db)
unfolding eligible
eligible_are_registered sig db v x =
    find-map x (keep served db.server_queue)
    ∙ ap (Option.map server_of)
        (Keyed.find-keep server_of served x db.server_queue v.queue_distinct)
    ∙ elim (Option-cases (find itself x (registered sig db))) [
      | inr (s, found) ↦
          let (f, at_f, same) = registered_entry sig db v x s found in
          rw (at_f, registered-serves sig db v x s f found same, found) (ap some same)
      | inl missing ↦ elim (Option-cases (find server_of x db.server_queue)) [
        | inl nowhere ↦ rw (nowhere, missing) refl
        | inr (f, at_f) ↦ rw (at_f, unserved f at_f missing, missing) refl
      ]
    ]
  where
    served : Entry → Bool
    served = serves (registered sig db)

    unserved :
        (f : Entry)
        → find server_of x db.server_queue ≡ some f
        → find itself x (registered sig db) ≡ none
        → serves (registered sig db) f ≡ false
    unserved f at_f missing =
        let same = Keyed.find-key server_of x f db.server_queue at_f in
        rw (← Keyed.find_congr itself x f.server (registered sig db) same, missing) refl
