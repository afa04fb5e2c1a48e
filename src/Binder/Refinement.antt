-- ===== src/Binder/Refinement.antt =====
-- The database of binder.cc as a directory: timestamps, set and maps stand for a line of servers.
use mathlib.Core.Path.{fun_ext, ap₂}
use mathlib.Core.Logic.{if_pos, if_neg}
use mathlib.Core.List.{map}
use rpc_library.Common.{
  ℕ, ◌≡◌, refl, sym, ◌∙◌, ap, Bool, true, false, ◌&&◌, ◌||◌, List, [], ◌∷◌, ◌++◌, Option, none,
  some, Option-cases, inl, inr, if◌then◌else◌,
}
use rpc_library.Signature.{Signature}
use rpc_library.Binder.Server.{ServerData, same_server}
use rpc_library.Binder.Keyed.{is_some, find, erase}
use rpc_library.Binder.Database.{
  Entry, BinderDatabase, server_of, itself, same_entry, choose, other_socket, Signature-discrete,
  register_server, locate_server, remove_if_server, stamp_server,
}
use rpc_library.Binder.Validity.Invariant.{IsValid}
use rpc_library.Binder.Validity.Queue.{Ascending-erase}
use rpc_library.Binder.Validity.Methods.{choose-find}
use rpc_library.Binder.Locating.{registered, locate_server_nobody, locate_server_chosen, swept}
use rpc_library.Binder.Registering.{registered-register_server, register_server-status}
use rpc_library.Binder.Removing.{find-remove_if_server}
use rpc_library.Binder.Sets.{servers_of-drop_empty}
use rpc_library.Binder.Line.{
  line-erase, first-choose, line-stamp_server, line-register_new, keep-map, only_both,
  find-keep_line,
}
use rpc_library.Binder.Directory.{Directory, to_the_end, enrol, name_next, dismiss, offers_too}

abbrev pub view : BinderDatabase → Directory
view db = record {
  line = map server_of db.server_queue;
  offers = λ k x. is_some (find itself x (registered k db));
}

directory_eq :
    (l l' : List ServerData) (o o' : Signature → ServerData → Bool)
    → l ≡ l'
    → ((k : Signature) (x : ServerData) → o k x ≡ o' k x)
    → ◌≡◌ {A = Directory} (record { line = l; offers = o }) (record { line = l'; offers = o' })
directory_eq l l' o o' e h =
    ap₂
      (λ (l : List ServerData) (o : Signature → ServerData → Bool). record { line = l; offers = o })
      e (fun_ext (λ k. fun_ext (λ x. h k x)))

offers-register_new :
    (sig : Signature) (s : ServerData) (db : BinderDatabase)
    → find itself s (registered sig db) ≡ none
    → (k : Signature) (x : ServerData)
    → (view (register_server sig s db).1).offers k x ≡ offers_too sig s (view db).offers k x
offers-register_new sig s db new k x = elim (Signature-discrete k sig) [
  | yes e ↦
      ap is_some (registered-register_server sig s db k x)
      ∙ rw (if_pos _ e, if_pos _ e, new, e) (added (same_server x s))
  | no e ↦ ap is_some (registered-register_server sig s db k x) ∙ rw (if_neg _ e, if_neg _ e) refl
]
  where
    added :
        (b : Bool)
        → is_some (if b then some s else find itself x (registered sig db))
          ≡ (b || is_some (find itself x (registered sig db)))
    added true = refl
    added false = refl

-- A registration is answered as the directory answers it, and leaves the database that stands for the
-- directory's.
pub register_server-enrol :
    (sig : Signature) (s : ServerData) (db : BinderDatabase)
    → IsValid db
    → ((register_server sig s db).0 ≡ (enrol sig s (view db)).0)
      × (view (register_server sig s db).1 ≡ (enrol sig s (view db)).1)
unfolding enrol
register_server-enrol sig s db v = elim (Option-cases (find itself s (registered sig db))) [
  | inl new ↦ rw new (
    (register_server-status sig s db).0 new,
    directory_eq _ _ _ _ (line-register_new db v sig s new) (offers-register_new sig s db new),
  )
  | inr (t, old) ↦
      let same = (register_server-status sig s db).1 t old in rw (same, old) (refl, refl)
]

module _ (sig : Signature) (db : BinderDatabase) where
  name_next_nobody :
      choose (registered sig db) db.server_queue ≡ none → name_next sig (view db) ≡ (none, view db)
  unfolding name_next
  name_next_nobody nobody =
      rw (name_next, first-choose (registered sig db) db.server_queue, nobody) refl

  name_next_chosen :
      (e : Entry)
      → choose (registered sig db) db.server_queue ≡ some e
      → name_next sig (view db)
        ≡ (some e.server, record (view db) { line = to_the_end e.server (view db).line })
  unfolding name_next
  name_next_chosen e chosen =
      rw (name_next, first-choose (registered sig db) db.server_queue, chosen) refl

  view-swept : view (swept sig db) ≡ view db
  view-swept = directory_eq _ _ _ _ refl (λ k x.
      ap (λ (l : List ServerData). is_some (find itself x l))
        (servers_of-drop_empty sig k db.signature_to_servers))

  view-chosen :
      (e : Entry)
      → IsValid db
      → choose (registered sig db) db.server_queue ≡ some e
      → view (
          stamp_server e.server
            (record (swept sig db) { server_queue = erase (same_entry e) db.server_queue }))
        ≡ record (view db) { line = to_the_end e.server (view db).line }
  unfolding stamp_server
  view-chosen e v chosen =
      directory_eq _ _ _ _
        (line-stamp_server e.server
            (record (swept sig db) { server_queue = erase (same_entry e) db.server_queue })
            (Ascending-erase 1 db.time _ db.server_queue v.ordered)
          ∙ ap (λ (l : List ServerData). l ++ e.server ∷ [])
              (line-erase e.server e.timestamp e db.server_queue v.queue_distinct
                (choose-find _ e db.server_queue v.queue_distinct chosen) refl))
        (λ k x.
          ap (λ (l : List ServerData). is_some (find itself x l))
            (servers_of-drop_empty sig k db.signature_to_servers))

-- So is an inquiry.
pub locate_server-name_next :
    (sig : Signature) (db : BinderDatabase)
    → IsValid db
    → ((locate_server sig db).0 ≡ (name_next sig (view db)).0)
      × (view (locate_server sig db).1 ≡ (name_next sig (view db)).1)
locate_server-name_next sig db v =
    elim (Option-cases (choose (registered sig db) db.server_queue)) [
      | inl nobody ↦
          rw (locate_server_nobody sig db nobody, name_next_nobody sig db nobody)
            (refl, view-swept sig db)
      | inr (e, chosen) ↦
          rw (locate_server_chosen sig db e chosen, name_next_chosen sig db e chosen)
            (refl, view-chosen sig db e v chosen)
    ]

-- And so is a disconnection.
pub remove_if_server-dismiss :
    (socket : ℕ) (db : BinderDatabase)
    → IsValid db
    → view (remove_if_server socket db) ≡ dismiss socket (view db)
unfolding dismiss remove_if_server
remove_if_server-dismiss socket db v =
    directory_eq _ _ _ _ (sym (keep-map (other_socket socket) db.server_queue)) (λ k x.
      ap is_some (find-remove_if_server socket db v k x).2
      ∙ only_both (other_socket socket) (find itself x (registered k db))
          (find server_of x db.server_queue) (v.served k x)
      ∙ ap (λ (o : Option ServerData). is_some (find itself x (registered k db)) && is_some o)
          (sym (find-keep_line (other_socket socket) x db.server_queue v.queue_distinct)))
