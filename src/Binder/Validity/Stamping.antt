-- ===== src/Binder/Validity/Stamping.antt =====
-- The end of `handleRegister` and of `handleLocate` of binder.cc: a server gets the newest timestamp.
use native.Mathlib.Nat.{mod-eq_of_lt}
use rpc_library.Common.{
  ℕ, ◌+◌, ◌<◌, ◌^◌, ◌≡◌, refl, sym, ◌∙◌, ap, List, some, arith, if◌then◌else◌, Bool-cases,
  Option-cases, inl, inr,
}
use rpc_library.Signature.{Signature}
use rpc_library.Binder.Server.{ServerData, same_server}
use rpc_library.Binder.Keyed
use rpc_library.Binder.Keyed.{is_some, find}
use rpc_library.Binder.Database.{
  Entry, BinderDatabase, server_of, itself, queue_ltb, stamp_ltb, servers_of, set_timestamp,
  stamp_server,
}
use rpc_library.Binder.Validity.Queue.{Ascending-insert, queue_tie, stamp_tie}
use rpc_library.Binder.Validity.Invariant.{IsValid, IsWithdrawn, queued}

abbrev pub stamped : ℕ → ServerData → Entry
stamped t s = record { timestamp = t; server = s }

find-set_timestamp :
    (s x : ServerData) (t : ℕ) (m : List Entry)
    → ((e : Entry) → find server_of s m ≡ some e → e.server ≡ s)
    → find server_of x (set_timestamp s t m)
      ≡ (if same_server x s then some (stamped t s) else find server_of x m)
unfolding set_timestamp
find-set_timestamp s x t m owned = elim (Option-cases (find server_of s m)) [
  | inl missing ↦
      rw missing
        (Keyed.find-insert server_of stamp_ltb (stamped t s) (stamp_tie (stamped t s)) x m missing)
  | inr (e, found) ↦ rw found (
      Keyed.find-update server_of s x (λ e. record e { timestamp = t }) m (λ y. refl)
      ∙ ground (arith, owned e found, Keyed.find_congr server_of x s m))
]

Distinct-set_timestamp :
    (s : ServerData) (t : ℕ) (m : List Entry)
    → Keyed.Distinct server_of m
    → Keyed.Distinct server_of (set_timestamp s t m)
unfolding set_timestamp
Distinct-set_timestamp s t m d = elim (Option-cases (find server_of s m)) [
  | inl missing ↦ rw missing (
      Keyed.Distinct-insert server_of stamp_ltb (stamped t s) (stamp_tie (stamped t s)) m missing d)
  | inr (e, found) ↦
      rw found (Keyed.Distinct-update server_of s (λ e. record e { timestamp = t }) m (λ y. refl) d)
]

module _ (s : ServerData) (db : BinderDatabase) (w : IsWithdrawn s db) where
  pub find-stamp_server :
      (x : ServerData)
      → find server_of x (stamp_server s db).server_queue
        ≡ (if same_server x s then some (stamped db.time s) else find server_of x db.server_queue)
  unfolding stamp_server
  find-stamp_server x =
      Keyed.find-insert server_of queue_ltb (stamped db.time s) (queue_tie (stamped db.time s)) x
        db.server_queue w.absent

  stamps :
      (x : ServerData)
      → find server_of x (stamp_server s db).server_to_timestamp ≡ (
          if same_server x s
          then some (stamped db.time s)
          else find server_of x db.server_to_timestamp)
  unfolding stamp_server
  stamps x = find-set_timestamp s x db.time db.server_to_timestamp w.owned

  sets : (stamp_server s db).signature_to_servers ≡ db.signature_to_servers
  unfolding stamp_server
  sets = refl

  served_after :
      (sig : Signature) (x t : ServerData)
      → find itself x (servers_of sig db.signature_to_servers) ≡ some t
      → queued x (stamp_server s db) ≡ some t
  served_after sig x t h = elim (Bool-cases (same_server x s)) [
    | inl same ↦ rw (find-stamp_server x, same) (ap some (sym (w.served_self sig x t same h)))
    | inr other ↦ rw (find-stamp_server x, other) (w.served_other sig x t other h)
  ]

  pub stamp_server-IsValid : db.time + 1 < 2 ^ 32 → IsValid (stamp_server s db)
  unfolding stamp_server
  stamp_server-IsValid small = record {
    started = ground arith;
    ordered =
        rw (mod-eq_of_lt small) (Ascending-insert 1 db.time s db.server_queue w.started w.ordered);
    queue_distinct =
        Keyed.Distinct-insert server_of queue_ltb (stamped db.time s)
          (queue_tie (stamped db.time s)) db.server_queue w.absent w.queue_distinct;
    stamps_distinct = Distinct-set_timestamp s db.time db.server_to_timestamp w.stamps_distinct;
    sets_distinct = w.sets_distinct;
    agree = λ x. find-stamp_server x ∙ ground (arith, w.agree x) ∙ sym (stamps x);
    served = served_after;
  }
