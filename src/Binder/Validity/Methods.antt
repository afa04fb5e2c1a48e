-- ===== src/Binder/Validity/Methods.antt =====
-- The methods of `BinderDatabase` (binder.cc) and its invariant.
use mathlib.Core.Option
use mathlib.Core.Logic.{if_pos, if_neg}
use rpc_library.Common.{
  ℕ, ◌+◌, ◌<◌, ◌^◌, ◌≡◌, refl, sym, ◌∙◌, ap, Bool, true, List, [], ◌∷◌, Option, none, some, arith,
  ltb, Bool-cases, Option-cases, inl, inr, ◌⊎◌,
}
use rpc_library.Signature.{Signature}
use rpc_library.Binder.Server.{ServerData, same_server, same_server_refl, server_ltb}
use rpc_library.Binder.Keyed
use rpc_library.Binder.Keyed.{is_some, find, only}
use rpc_library.Binder.Sets.{
  servers_of-set_servers, servers_of-drop_empty, servers_of-without_socket,
}
use rpc_library.Binder.Database.{
  Entry, BinderDatabase, server_of, itself, servers_of, same_entry, timestamp_of, choose,
  set_servers, drop_empty, has_signature, Signature-discrete, register_server, locate_server,
  remove_if_server, other_socket, empty_database,
}
use rpc_library.Binder.Validity.Queue.{Ascending-keep, Ascending-find, server_tie}
use rpc_library.Binder.Validity.Invariant.{IsValid, IsWithdrawn, IsUnclaimed}
use rpc_library.Binder.Validity.Stamping.{stamp_server-IsValid}
use rpc_library.Binder.Validity.Withdrawal.{SetsExtend, erase-IsWithdrawn, absent-IsWithdrawn}

pub empty_database-IsValid : IsValid empty_database
unfolding find servers_of
empty_database-IsValid = record {
  started = omega arith;
  ordered = tt;
  queue_distinct = tt;
  stamps_distinct = tt;
  sets_distinct = λ sig. tt;
  agree = λ x. refl;
  served = λ sig x s h. cc;
}

pub timestamp_of_missing :
    (s : ServerData) (m : List Entry) → find server_of s m ≡ none → timestamp_of s m ≡ 0
unfolding timestamp_of
timestamp_of_missing s m e = rw (e, timestamp_of) refl

pub timestamp_of_found :
    (s : ServerData) (m : List Entry) (e : Entry)
    → find server_of s m ≡ some e
    → timestamp_of s m ≡ e.timestamp
unfolding timestamp_of
timestamp_of_found s m e found = rw (found, timestamp_of) refl

module _ (sig : Signature) (s : ServerData) (db : BinderDatabase) (v : IsValid db)
    (new : find itself s (servers_of sig db.signature_to_servers) ≡ none) where
  abbrev grown : List (Signature × List ServerData)
  grown =
      set_servers sig (Keyed.insert server_ltb s (servers_of sig db.signature_to_servers))
        db.signature_to_servers

  grown-Distinct : (k : Signature) → Keyed.Distinct itself (servers_of k grown)
  grown-Distinct k = elim (Signature-discrete k sig) [
    | yes e ↦
        rw (servers_of-set_servers sig k _ db.signature_to_servers, if_pos _ e)
          (Keyed.Distinct-insert itself server_ltb s (server_tie s) _ new (v.sets_distinct sig))
    | no e ↦
        rw (servers_of-set_servers sig k _ db.signature_to_servers, if_neg _ e) (v.sets_distinct k)
  ]

  grown_lookup :
      (x t : ServerData)
      → find itself x (Keyed.insert server_ltb s (servers_of sig db.signature_to_servers)) ≡ some t
      → ((same_server x s ≡ true) × (t ≡ s))
        ⊎ (find itself x (servers_of sig db.signature_to_servers) ≡ some t)
  grown_lookup x t h = ground (arith, Keyed.find-insert itself server_ltb s (server_tie s) x _ new)

  grown-SetsExtend : SetsExtend s db.signature_to_servers grown
  grown-SetsExtend k x t h = elim (Signature-discrete k sig) [
    | yes e ↦ rw e (
        grown_lookup x t
          (rw (servers_of-set_servers sig k _ db.signature_to_servers, if_pos _ e) at h))
    | no e ↦ inr (rw (servers_of-set_servers sig k _ db.signature_to_servers, if_neg _ e) at h)
  ]

  module _ (free : IsUnclaimed s db) (small : db.time + 1 < 2 ^ 32) where
    register_new-IsValid : IsValid (register_server sig s db).1
    unfolding register_server
    register_new-IsValid = elim (Option-cases (find server_of s db.server_to_timestamp)) [
      | inl missing ↦
          rw (new, timestamp_of_missing s db.server_to_timestamp missing)
            (stamp_server-IsValid s _
              (absent-IsWithdrawn s db v free grown grown-Distinct grown-SetsExtend
                (v.agree s ∙ missing))
              small)
      | inr (e, found) ↦
          let known = v.agree s ∙ found in
          let positive : ltb 0 e.timestamp ≡ true =
            ground (arith, Ascending-find 1 db.time s e db.server_queue v.ordered known) in
          rw (new, timestamp_of_found s db.server_to_timestamp e found, positive)
            (stamp_server-IsValid s _
              (erase-IsWithdrawn s db v free grown grown-Distinct grown-SetsExtend e known) small)
    ]

-- A registration keeps the invariant, whatever the database holds, as long as the clock does not
-- wrap and no other process is known under the server's address.
pub register_server-IsValid :
    (sig : Signature) (s : ServerData) (db : BinderDatabase)
    → IsValid db
    → IsUnclaimed s db
    → db.time + 1 < 2 ^ 32
    → IsValid (register_server sig s db).1
register_server-IsValid sig s db v free small =
    elim (Option-cases (find itself s (servers_of sig db.signature_to_servers))) [
      | inl new ↦ register_new-IsValid sig s db v new free small
      | inr (t, old) ↦ unfold register_server in rw old v
    ]

-- The entry that is chosen is the one of its server.
pub choose-find :
    (servers : List ServerData) (e : Entry) (es : List Entry)
    → Keyed.Distinct server_of es
    → choose servers es ≡ some e
    → find server_of e.server es ≡ some e
unfolding choose find
choose-find servers e [] d h = cc
choose-find servers e (y ∷ ys) d h = ground (
  arith,
  choose-find servers e ys d.1,
  Keyed.find_congr server_of e.server y.server ys,
  same_server_refl e.server,
)

module _ (sig : Signature) (db : BinderDatabase) (v : IsValid db) where
  abbrev cleaned : BinderDatabase
  cleaned = record db { signature_to_servers = drop_empty sig db.signature_to_servers }

  same_sets :
      (k : Signature)
      → servers_of k (drop_empty sig db.signature_to_servers) ≡ servers_of k db.signature_to_servers
  same_sets k = servers_of-drop_empty sig k db.signature_to_servers

  cleaned-IsValid : IsValid cleaned
  cleaned-IsValid = record {
    started = v.started;
    ordered = v.ordered;
    queue_distinct = v.queue_distinct;
    stamps_distinct = v.stamps_distinct;
    sets_distinct = λ k. rw (same_sets k) (v.sets_distinct k);
    agree = v.agree;
    served = λ k x s h. v.served k x s (rw (same_sets k) at h);
  }

  module _ (servers : List ServerData) (e : Entry)
      (chosen : choose servers db.server_queue ≡ some e) where
    found_entry : find server_of e.server db.server_queue ≡ some e
    found_entry = choose-find servers e db.server_queue v.queue_distinct chosen

    -- What `handleLocate` has at its `time_++`.
    pub chosen-IsWithdrawn :
        IsWithdrawn e.server
          (record cleaned { server_queue = Keyed.erase (same_entry e) db.server_queue })
    chosen-IsWithdrawn =
        erase-IsWithdrawn e.server db v (λ y h. cc (found_entry, h))
          (drop_empty sig db.signature_to_servers) (λ k. rw (same_sets k) (v.sets_distinct k))
          (λ k x t h. inr (rw (same_sets k) at h)) e found_entry

-- So does an inquiry, under the same condition on the clock.
pub locate_server-IsValid :
    (sig : Signature) (db : BinderDatabase)
    → IsValid db
    → db.time + 1 < 2 ^ 32
    → IsValid (locate_server sig db).1
unfolding locate_server
locate_server-IsValid sig db v small =
    let sets = drop_empty sig db.signature_to_servers in
    elim (Bool-cases (has_signature sig sets)) [
      | inr absent ↦ rw absent (cleaned-IsValid sig db v)
      | inl present ↦ elim (Option-cases (choose (servers_of sig sets) db.server_queue)) [
        | inl nobody ↦ rw (present, nobody) (cleaned-IsValid sig db v)
        | inr (e, chosen) ↦
            rw (present, chosen)
              (stamp_server-IsValid e.server _ (chosen-IsWithdrawn sig db v _ e chosen) small)
      ]
    ]

only-eq-some :
    (p : ServerData → Bool) (o : Option ServerData) (s : ServerData)
    → only p o ≡ some s
    → (o ≡ some s) × (p s ≡ true)
only-eq-some p o s h = ground arith

map-only :
    (p : ServerData → Bool) (o : Option Entry) (s : ServerData)
    → Option.map server_of o ≡ some s
    → p s ≡ true
    → Option.map server_of (only (λ (e : Entry). p e.server) o) ≡ some s
map-only p o s h k = ground arith

-- Removing the servers of a socket keeps it.
pub remove_if_server-IsValid :
    (socket : ℕ) (db : BinderDatabase) → IsValid db → IsValid (remove_if_server socket db)
unfolding remove_if_server
remove_if_server-IsValid socket db v = record {
  started = v.started;
  ordered = Ascending-keep 1 db.time _ db.server_queue v.ordered;
  queue_distinct = Keyed.Distinct-keep server_of _ db.server_queue v.queue_distinct;
  stamps_distinct = Keyed.Distinct-keep server_of _ db.server_to_timestamp v.stamps_distinct;
  sets_distinct = λ sig.
      rw (servers_of-without_socket socket sig db.signature_to_servers)
        (Keyed.Distinct-keep itself (other_socket socket) _ (v.sets_distinct sig));
  agree = λ x.
      Keyed.find-keep server_of _ x db.server_queue v.queue_distinct
      ∙ rw (v.agree x)
          (sym (Keyed.find-keep server_of _ x db.server_to_timestamp v.stamps_distinct));
  served = λ sig x s h.
      let (kept, other) = only-eq-some (other_socket socket) _ s (
        sym (Keyed.find-keep itself (other_socket socket) x _ (v.sets_distinct sig))
        ∙ (rw (servers_of-without_socket socket sig db.signature_to_servers) at h)) in
      ap (Option.map server_of) (Keyed.find-keep server_of _ x db.server_queue v.queue_distinct)
      ∙ map-only (other_socket socket) _ s (v.served sig x s kept) other;
}
