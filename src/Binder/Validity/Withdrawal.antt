-- ===== src/Binder/Validity/Withdrawal.antt =====
-- Taking a server out of the queue (binder.cc: `handleRegister` when the server is known already,
-- and the loop of `handleLocate`).
use rpc_library.Common.{
  ◌≡◌, refl, ◌∙◌, true, List, none, some, arith, if◌then◌else◌, Option-cases, inl, inr, ◌⊎◌,
}
use rpc_library.Signature.{Signature}
use rpc_library.Binder.Server.{ServerData, same_server, same_server_refl}
use rpc_library.Binder.Keyed
use rpc_library.Binder.Keyed.{is_some, find}
use rpc_library.Binder.Database.{Entry, BinderDatabase, server_of, itself, servers_of, same_entry}
use rpc_library.Binder.Validity.Queue.{Ascending, Ascending-erase}
use rpc_library.Binder.Validity.Invariant.{IsValid, IsWithdrawn, queued, IsUnclaimed}

-- The sets of `new` lead where those of `db` do, or to `s` itself for a key equivalent to `s`.
abbrev pub SetsExtend :
    ServerData → List (Signature × List ServerData) → List (Signature × List ServerData) → Type 0
SetsExtend s old new =
    (sig : Signature) (x t : ServerData)
    → find itself x (servers_of sig new) ≡ some t
    → ((same_server x s ≡ true) × (t ≡ s)) ⊎ (find itself x (servers_of sig old) ≡ some t)

module _ (s : ServerData) (db : BinderDatabase) (v : IsValid db) (free : IsUnclaimed s db)
    (sets : List (Signature × List ServerData))
    (distinct : (sig : Signature) → Keyed.Distinct itself (servers_of sig sets))
    (extend : SetsExtend s db.signature_to_servers sets) where
  owned : (e : Entry) → find server_of s db.server_to_timestamp ≡ some e → e.server ≡ s
  owned e h = free e (v.agree s ∙ h)

  stored : (x t : ServerData) → same_server x s ≡ true → queued x db ≡ some t → t ≡ s
  stored x t same e =
      let e' = rw (Keyed.find_congr server_of x s db.server_queue same) at e in
      elim (Option-cases (find server_of s db.server_queue)) [
        | inl missing ↦ cc (rw missing at e')
        | inr (old, found) ↦ map_some old t found e' ∙ free old found
      ]
    where
      map_some :
          (old : Entry) (t : ServerData)
          → find server_of s db.server_queue ≡ some old
          → queued s db ≡ some t
          → t ≡ old.server
      map_some old t found e = cc (rw found at e)

  served_self :
      (sig : Signature) (x t : ServerData)
      → same_server x s ≡ true
      → find itself x (servers_of sig sets) ≡ some t
      → t ≡ s
  served_self sig x t same h = elim (extend sig x t h) [
    | inl (_, e) ↦ e
    | inr old ↦ stored x t same (v.served sig x t old)
  ]

  module _ (queue : List Entry) where
    abbrev withdrawn : BinderDatabase
    withdrawn = record db { server_queue = queue; signature_to_servers = sets }

    -- Any queue that has lost `s` and nothing else.
    pub withdrawn-IsWithdrawn :
        ((x : ServerData)
          → find server_of x queue
            ≡ (if same_server x s then none else find server_of x db.server_queue))
        → Ascending 1 db.time queue
        → Keyed.Distinct server_of queue
        → IsWithdrawn s withdrawn
    withdrawn-IsWithdrawn lost up d = record {
      started = v.started;
      ordered = up;
      queue_distinct = d;
      stamps_distinct = v.stamps_distinct;
      sets_distinct = distinct;
      absent = lost s ∙ rw (same_server_refl s) refl;
      owned = owned;
      agree = λ x other. lost x ∙ rw other (v.agree x);
      served_self = served_self;
      served_other = λ sig x t other h. elim (extend sig x t h) [
        | inl (same, _) ↦ cc
        | inr old ↦ rw (lost x, other) (v.served sig x t old)
      ];
    }

  -- The erase of a known server.
  pub erase-IsWithdrawn :
      (old : Entry)
      → find server_of s db.server_queue ≡ some old
      → IsWithdrawn s (record db {
        server_queue =
            Keyed.erase
              (same_entry (record { timestamp = old.timestamp; server = s }))
              db.server_queue;
        signature_to_servers = sets;
      })
  erase-IsWithdrawn old found =
      withdrawn-IsWithdrawn _
        (λ x.
          Keyed.find-erase server_of _ s x old db.server_queue v.queue_distinct
            (λ y h. ground arith) found
            (ground (arith, Keyed.find-key server_of s old db.server_queue found)))
        (Ascending-erase 1 db.time _ db.server_queue v.ordered)
        (Keyed.Distinct-erase server_of _ db.server_queue v.queue_distinct)

  -- A server that is not in the queue needs no erase.
  pub absent-IsWithdrawn :
      find server_of s db.server_queue ≡ none
      → IsWithdrawn s (record db { signature_to_servers = sets })
  absent-IsWithdrawn missing =
      withdrawn-IsWithdrawn db.server_queue
        (λ x. ground (arith, missing, Keyed.find_congr server_of x s db.server_queue)) v.ordered
        v.queue_distinct
