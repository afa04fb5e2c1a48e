-- ===== src/Binder/Locating.antt =====
-- What `handleLocate` of binder.cc answers.
use mathlib.Core.Option
use rpc_library.Common.{
  ℕ, ◌+◌, ◌≤◌, ◌≡◌, ◌↔◌, refl, sym, ◌∙◌, ap, Bool, true, false, List, [], ◌∷◌, Option, none, some,
  arith, Bool-cases, Option-cases, inl, inr,
}
use rpc_library.Signature.{Signature}
use rpc_library.Binder.Server.{ServerData, same_server_refl}
use rpc_library.Binder.Keyed
use rpc_library.Binder.Keyed.{is_some, find}
use rpc_library.Binder.Sets.{servers_of-drop_empty, has_signature-drop_empty}
use rpc_library.Binder.Database.{
  Entry, BinderDatabase, server_of, itself, servers_of, same_entry, choose, drop_empty,
  has_signature, locate_server, stamp_server, timestamp_of,
}
use rpc_library.Binder.Validity.Queue.{Ascending, Ascending-find}
use rpc_library.Binder.Validity.Invariant.{IsValid, queued}
use rpc_library.Binder.Validity.Methods.{choose-find, timestamp_of_found}

-- The servers that are registered for a signature.
abbrev pub registered : Signature → BinderDatabase → List ServerData
registered sig db = servers_of sig db.signature_to_servers

abbrev pub serves : List ServerData → Entry → Bool
serves servers e = is_some (find itself e.server servers)

pub choose-serves :
    (servers : List ServerData) (e : Entry) (es : List Entry)
    → choose servers es ≡ some e
    → serves servers e ≡ true
unfolding choose
choose-serves servers e [] h = cc
choose-serves servers e (y ∷ ys) h = ground (arith, choose-serves servers e ys)

choose_nobody :
    (servers : List ServerData) (x : ServerData) (e : Entry) (es : List Entry)
    → choose servers es ≡ none
    → find server_of x es ≡ some e
    → serves servers e ≡ false
unfolding choose find
choose_nobody servers x e [] h k = cc
choose_nobody servers x e (y ∷ ys) h k = ground (arith, choose_nobody servers x e ys)

choose-least :
    (servers : List ServerData) (x : ServerData) (lo hi : ℕ) (e f : Entry) (es : List Entry)
    → Ascending lo hi es
    → choose servers es ≡ some e
    → find server_of x es ≡ some f
    → serves servers f ≡ true
    → e.timestamp ≤ f.timestamp
unfolding choose find
choose-least servers x lo hi e f [] a h k s = cc
choose-least servers x lo hi e f (y ∷ ys) a h k s = ground (
  arith,
  choose-least servers x (y.timestamp + 1) hi e f ys a.2,
  Ascending-find (y.timestamp + 1) hi x f ys a.2,
)

choose-none_registered : (es : List Entry) → choose [] es ≡ none
unfolding choose find
choose-none_registered [] = refl
choose-none_registered (e ∷ es) = choose-none_registered es

find_head : (s : ServerData) (ss : List ServerData) → find itself s (s ∷ ss) ≡ some s
unfolding find
find_head s ss = rw (same_server_refl s) refl

queued_entry :
    (x s : ServerData) (db : BinderDatabase)
    → queued x db ≡ some s
    → (e : Entry) × (find server_of x db.server_queue ≡ some e) × (e.server ≡ s)
queued_entry x s db h = elim (Option-cases (find server_of x db.server_queue)) [
  | inl missing ↦ cc (rw missing at h)
  | inr (e, found) ↦ (e, found, map_some e found h)
]
  where
    map_some :
        (e : Entry)
        → find server_of x db.server_queue ≡ some e
        → queued x db ≡ some s
        → e.server ≡ s
    map_some e found h = cc (rw found at h)

module _ (sig : Signature) (db : BinderDatabase) (v : IsValid db) where
  -- A registered server has an entry in the queue that serves the signature.
  pub registered_entry :
      (x s : ServerData)
      → find itself x (registered sig db) ≡ some s
      → (e : Entry) × (find server_of x db.server_queue ≡ some e) × (e.server ≡ s)
  registered_entry x s h = queued_entry x s db (v.served sig x s h)

  choose_finds : choose (registered sig db) db.server_queue ≡ none → registered sig db ≡ []
  choose_finds nobody = go (registered sig db) refl
    where
      go : (ss : List ServerData) → registered sig db ≡ ss → registered sig db ≡ []
      go [] e = e
      go (s ∷ ss) e =
          let found : find itself s (registered sig db) ≡ some s = rw e (find_head s ss) in
          let (f, at_f, same) = registered_entry s s found in
          let missed = choose_nobody (registered sig db) s f db.server_queue nobody at_f in
          cc (rw (same, found) at missed)

module _ (sig : Signature) (db : BinderDatabase) where
  abbrev pub swept : BinderDatabase
  swept = record db { signature_to_servers = drop_empty sig db.signature_to_servers }

  same_set : registered sig swept ≡ registered sig db
  same_set = servers_of-drop_empty sig sig db.signature_to_servers

  -- What `handleLocate` returns and leaves behind when its loop finds nobody.
  pub locate_server_nobody :
      choose (registered sig db) db.server_queue ≡ none → locate_server sig db ≡ (none, swept)
  unfolding locate_server
  locate_server_nobody nobody =
      elim (Bool-cases (has_signature sig (drop_empty sig db.signature_to_servers))) [
        | inl present ↦ rw (present, same_set, nobody) refl
        | inr absent ↦ rw absent refl
      ]

  -- The same when it finds an entry.
  pub locate_server_chosen :
      (e : Entry)
      → choose (registered sig db) db.server_queue ≡ some e
      → locate_server sig db ≡ (
        some e.server,
        stamp_server e.server
            (record swept { server_queue = Keyed.erase (same_entry e) db.server_queue }),
      )
  unfolding locate_server
  locate_server_chosen e chosen =
      elim (Bool-cases (has_signature sig (drop_empty sig db.signature_to_servers))) [
        | inl present ↦ rw (present, same_set, chosen) refl
        | inr absent ↦
            let empty = (has_signature-drop_empty sig db.signature_to_servers).0 absent in
            cc (choose-none_registered db.server_queue, rw empty at chosen)
      ]

  -- The answer, in terms of what is registered and queued.
  pub locate_server-answer :
      (locate_server sig db).0 ≡ Option.map server_of (choose (registered sig db) db.server_queue)
  locate_server-answer = elim (Option-cases (choose (registered sig db) db.server_queue)) [
    | inl nobody ↦ rw (locate_server_nobody nobody, nobody) refl
    | inr (e, chosen) ↦ rw (locate_server_chosen e chosen, chosen) refl
  ]

-- The assertion that `handleLocate` leaves in a comment: in a valid database an inquiry fails
-- exactly if no server is registered for the signature.
pub locate_fails_iff :
    (sig : Signature) (db : BinderDatabase)
    → IsValid db
    → ((locate_server sig db).0 ≡ none) ↔ (registered sig db ≡ [])
locate_fails_iff sig db v = (
  λ h. choose_finds sig db v (map_none _ (sym (locate_server-answer sig db) ∙ h)),
  λ e. locate_server-answer sig db ∙ rw (e, choose-none_registered db.server_queue) refl,
)
  where
    map_none : (o : Option Entry) → Option.map server_of o ≡ none → o ≡ none
    map_none none h = refl
    map_none (some e) h = cc

-- The entry behind an answer.
pub answer_entry :
    (sig : Signature) (db : BinderDatabase) (s : ServerData)
    → (locate_server sig db).0 ≡ some s
    → (e : Entry) × (choose (registered sig db) db.server_queue ≡ some e) × (e.server ≡ s)
answer_entry sig db s h = inverse _ refl (sym (locate_server-answer sig db) ∙ h)
  where
    inverse :
        (o : Option Entry)
        → choose (registered sig db) db.server_queue ≡ o
        → Option.map server_of o ≡ some s
        → (e : Entry) × (choose (registered sig db) db.server_queue ≡ some e) × (e.server ≡ s)
    inverse none c m = cc
    inverse (some e) c m = (e, c, cc)

module _ (sig : Signature) (db : BinderDatabase) (v : IsValid db) where
  -- The timestamp in the map is that of the entry in the queue.
  stamp_in_queue :
      (x : ServerData) (e : Entry)
      → find server_of x db.server_queue ≡ some e
      → timestamp_of x db.server_to_timestamp ≡ e.timestamp
  stamp_in_queue x e h = timestamp_of_found x db.server_to_timestamp e (sym (v.agree x) ∙ h)

  pub registered-serves :
      (x t : ServerData) (f : Entry)
      → find itself x (registered sig db) ≡ some t
      → f.server ≡ t
      → serves (registered sig db) f ≡ true
  registered-serves x t f h same =
      let congr =
        Keyed.find_congr itself x t (registered sig db)
          (Keyed.find-key itself x t (registered sig db) h) in
      rw (same, ← congr, h) refl

  -- An entry that serves the signature stands for a registered server.
  pub serves-registered :
      (e : Entry)
      → find server_of e.server db.server_queue ≡ some e
      → serves (registered sig db) e ≡ true
      → find itself e.server (registered sig db) ≡ some e.server
  serves-registered e at_e yes_ = elim (Option-cases (find itself e.server (registered sig db))) [
    | inl missing ↦ cc (rw missing at yes_)
    | inr (t, found) ↦
        let (f, at_f, same) = registered_entry sig db v e.server t found in
        found ∙ ap some (sym same ∙ ap server_of (entry_eq f at_f))
  ]
    where
      entry_eq : (f : Entry) → find server_of e.server db.server_queue ≡ some f → f ≡ e
      entry_eq f at_f = cc (at_f, at_e)

  module _ (s : ServerData) (answered : (locate_server sig db).0 ≡ some s) where
    -- In a valid database, a server that answers an inquiry is registered for the signature, and no
    -- server that is registered for it has an older timestamp.
    pub locate_least_recent :
        (find itself s (registered sig db) ≡ some s)
        × ((x t : ServerData)
            → find itself x (registered sig db) ≡ some t
            → timestamp_of s db.server_to_timestamp ≤ timestamp_of x db.server_to_timestamp)
    locate_least_recent =
        let (e, chosen, same) = answer_entry sig db s answered in
        let at_e = choose-find _ e db.server_queue v.queue_distinct chosen in
        (
          rw same at (
              serves-registered e at_e
                (choose-serves (registered sig db) e db.server_queue chosen)),
          λ x t h.
              let (f, at_f, is_t) = registered_entry sig db v x t h in
              rw (← same, stamp_in_queue e.server e at_e, stamp_in_queue x f at_f)
                (choose-least (registered sig db) x 1 db.time e f db.server_queue v.ordered chosen
                  at_f (registered-serves x t f h is_t)),
        )
