-- ===== src/Binder/Registering.antt =====
-- What `handleRegister` of binder.cc adds.
use mathlib.Core.Logic.{ite, if_pos, if_neg}
use rpc_library.Common.{
  ◌≡◌, refl, ◌∙◌, ap, List, none, some, if◌then◌else◌, Bool-cases, Option-cases, inl, inr,
}
use rpc_library.Signature.{Signature}
use rpc_library.Binder.Server.{ServerData, same_server, same_server_refl, server_ltb}
use rpc_library.Binder.Keyed
use rpc_library.Binder.Keyed.{is_some, find, insert}
use rpc_library.Binder.Sets.{servers_of-set_servers}
use rpc_library.Binder.Database.{
  BinderDatabase, itself, set_servers, register_server, stamp_server, Signature-discrete,
}
use rpc_library.Binder.Validity.Queue.{server_tie}
use rpc_library.Binder.Locating.{registered}

module _ (sig : Signature) (s : ServerData) (db : BinderDatabase) where
  abbrev grown : List ServerData
  grown = insert server_ltb s (registered sig db)

  sets-register_new :
      find itself s (registered sig db) ≡ none
      → (register_server sig s db).1.signature_to_servers
        ≡ set_servers sig grown db.signature_to_servers
  unfolding register_server stamp_server
  sets-register_new new = rw new refl

  -- The status is 0 for a new server and the warning 1 for one that is registered already, and a
  -- warning leaves the database alone.
  pub register_server-status :
      ((find itself s (registered sig db) ≡ none) → (register_server sig s db).0 ≡ 0)
      × ((t : ServerData)
          → find itself s (registered sig db) ≡ some t
          → register_server sig s db ≡ (1, db))
  unfolding register_server
  register_server-status = (λ new. rw new refl, λ t old. rw old refl)

  -- A registration adds the server to the set of its signature unless its address is there, and
  -- changes no other lookup of any signature.
  pub registered-register_server :
      (k : Signature) (x : ServerData)
      → find itself x (registered k (register_server sig s db).1)
        ≡ ite
            (Signature-discrete k sig)
            (if same_server x s
              then (if is_some (find itself s (registered sig db))
                  then find itself s (registered sig db)
                  else some s)
              else find itself x (registered sig db))
            (find itself x (registered k db))
  registered-register_server k x = elim (Option-cases (find itself s (registered sig db))) [
    | inl new ↦ elim (Signature-discrete k sig) [
      | yes e ↦
          rw
            (
              sets-register_new new,
              servers_of-set_servers sig k grown db.signature_to_servers,
              if_pos _ e,
              if_pos _ e,
              new,
            )
            (Keyed.find-insert itself server_ltb s (server_tie s) x (registered sig db) new)
      | no e ↦
          rw
            (
              sets-register_new new,
              servers_of-set_servers sig k grown db.signature_to_servers,
              if_neg _ e,
              if_neg _ e,
            )
            refl
    ]
    | inr (t, old) ↦ rw (register_server-status.1 t old, old) (unchanged t old)
  ]
    where
      unchanged :
          (t : ServerData)
          → find itself s (registered sig db) ≡ some t
          → find itself x (registered k db)
            ≡ ite
                (Signature-discrete k sig)
                (if same_server x s then some t else find itself x (registered sig db))
                (find itself x (registered k db))
      unchanged t old = elim (Signature-discrete k sig) [
        | yes e ↦ elim (Bool-cases (same_server x s)) [
          | inl same ↦
              rw (if_pos _ e, same)
                (ap (λ j. find itself x (registered j db)) e
                  ∙ Keyed.find_congr itself x s (registered sig db) same
                  ∙ old)
          | inr other ↦ rw (if_pos _ e, other) (ap (λ j. find itself x (registered j db)) e)
        ]
        | no e ↦ rw (if_neg _ e) refl
      ]

-- A registration that comes once more is answered with the warning, status 1, and changes nothing.
pub register_twice :
    (sig : Signature) (s : ServerData) (db : BinderDatabase)
    → let after = (register_server sig s db).1 in register_server sig s after ≡ (1, after)
register_twice sig s db = elim (Option-cases (find itself s (registered sig db))) [
  | inl new ↦ (register_server-status sig s (register_server sig s db).1).1 s (added new)
  | inr (t, old) ↦ let again = (register_server-status sig s db).1 t old in rw (again, again) refl
]
  where
    added :
        find itself s (registered sig db) ≡ none
        → find itself s (registered sig (register_server sig s db).1) ≡ some s
    added new =
        registered-register_server sig s db sig s ∙ rw (if_pos _ refl, same_server_refl s, new) refl
