-- ===== src/Binder/Farewell.antt =====
-- Whom `handleTerminate` of binder.cc writes to, against the directory.
use mathlib.Core.Path.{subst}
use mathlib.Core.List.{map, map-map, foldr, Perm}
use mathlib.Core.List.Perm
use mathlib.Core.Bool.{Bool-set}
use rpc_library.Common.{
  ℕ, ◌≡◌, refl, sym, ◌∙◌, ap, Bool, true, false, List, [], ◌∷◌, Option, none, some, Bool-cases, inl,
  inr, if◌then◌else◌,
}
use rpc_library.Message
use rpc_library.Message.{RawMessage}
use rpc_library.Messages.Status.{serialize_status}
use rpc_library.Binder.Server.{ServerData, same_server, same_server_refl}
use rpc_library.Binder.Keyed.{erase, find, find_congr, find-erase, Distinct, Distinct-erase}
use rpc_library.Binder.Database.{BinderDatabase, server_of}
use rpc_library.Binder.Validity.Invariant.{IsValid}
use rpc_library.Binder.Terminating.{Reply, is_overflow, any_overflow, terminate_messages}
use rpc_library.Binder.Refinement.{view}

module _ {E : Type 0} (key : E → ServerData) where
  abbrev same_key : E → E → Bool
  same_key x y = same_server (key x) (key y)

  -- An entry that is found can be moved to the front.
  perm_erase :
      (x e : E) (ys : List E) → find key (key x) ys ≡ some e → Perm ys (e ∷ erase (same_key x) ys)
  unfolding find erase
  perm_erase x e [] h = cc h
  perm_erase x e (y ∷ ys) h = elim (Bool-cases (same_key x y)) [
    | inl hit ↦ let same : y ≡ e = cc (rw hit at h) in rw (hit, same) (Perm.refl (e ∷ ys))
    | inr miss ↦ rw miss (
        Perm.trans (Perm.cons y (perm_erase x e ys (rw miss at h)))
          (Perm.swap e y (erase (same_key x) ys)))
  ]

  find-rest :
      (x : E) (k : ServerData) (xs : List E)
      → Distinct key (x ∷ xs)
      → find key k xs ≡ (if same_server k (key x) then none else find key k (x ∷ xs))
  unfolding find
  find-rest x k xs d = elim (Bool-cases (same_server k (key x))) [
    | inl hit ↦ rw hit (find_congr key k (key x) xs hit ∙ d.0)
    | inr miss ↦ rw miss refl
  ]

  -- Lists with distinct keys that find the same have the same entries.
  find_same_perm :
      (xs ys : List E)
      → Distinct key xs
      → Distinct key ys
      → ((k : ServerData) → find key k xs ≡ find key k ys)
      → Perm xs ys
  unfolding find
  find_same_perm [] [] d d' same = Perm.refl []
  find_same_perm [] (y ∷ ys) d d' same =
      let itself = same_server_refl (key y) in cc (rw itself at (same (key y)))
  find_same_perm (x ∷ xs) ys d d' same =
      let itself = same_server_refl (key x) in
      let found : find key (key x) ys ≡ some x = sym (same (key x)) ∙ rw itself refl in
      let rest = erase (same_key x) ys in
      let alike = λ (k : ServerData).
        find-rest x k xs d
        ∙ ap (λ (o : Option E). if same_server k (key x) then none else o) (same k)
        ∙ sym (find-erase key (same_key x) (key x) k x ys d' (λ y h. h) found itself) in
      Perm.trans
        (Perm.cons x (find_same_perm xs rest d.1 (Distinct-erase key (same_key x) ys d') alike))
        (Perm.symm (perm_erase x x ys found))

-- What a server is sent when the binder terminates
abbrev pub farewell : ServerData → ℕ × RawMessage
farewell s = (s.server_socket, serialize_status Message.terminate 0)

pub terminate_reaches_everyone :
    (db : BinderDatabase) → IsValid db → Perm (terminate_messages db) (map farewell (view db).line)
unfolding terminate_messages
terminate_reaches_everyone db v =
    let entries =
      find_same_perm server_of db.server_to_timestamp db.server_queue v.stamps_distinct
        v.queue_distinct (λ k. sym (v.agree k)) in
    subst (Perm (terminate_messages db)) (sym (map-map farewell server_of db.server_queue))
      (Perm.map (λ e. farewell (server_of e)) entries)

abbrev or_overflow : (ServerData → Reply) → ServerData → Bool → Bool
or_overflow replies s later = if is_overflow (replies s) then true else later

or_overflow_swap :
    (replies : ServerData → Reply) (x y : ServerData) (b : Bool)
    → or_overflow replies x (or_overflow replies y b)
      ≡ or_overflow replies y (or_overflow replies x b)
or_overflow_swap replies x y b = swap (is_overflow (replies x)) (is_overflow (replies y))
  where
    swap :
        (c d : Bool)
        → (if c then true else if d then true else b) ≡ (if d then true else if c then true else b)
    swap true true = refl
    swap true false = refl
    swap false d = refl

any_overflow-foldr :
    (replies : ServerData → Reply) (ss : List ServerData)
    → any_overflow replies ss ≡ foldr (or_overflow replies) false ss
any_overflow-foldr replies [] = refl
any_overflow-foldr replies (s ∷ ss) = ap (or_overflow replies s) (any_overflow-foldr replies ss)

-- Whether a reply ends the program does not depend on the order of the servers.
any_overflow-Perm :
    (replies : ServerData → Reply) {xs ys : List ServerData}
    → Perm xs ys
    → any_overflow replies xs ≡ any_overflow replies ys
any_overflow-Perm replies {xs} {ys} p =
    any_overflow-foldr replies xs
    ∙ Perm.foldr-eq Bool-set (or_overflow replies) (or_overflow_swap replies) p false
    ∙ sym (any_overflow-foldr replies ys)

-- It is the same for the map of timestamps and for the line.
pub any_overflow-view :
    (replies : ServerData → Reply) (db : BinderDatabase)
    → IsValid db
    → any_overflow replies (map server_of db.server_to_timestamp)
      ≡ any_overflow replies (view db).line
any_overflow-view replies db v = any_overflow-Perm replies (
    Perm.map server_of (
      find_same_perm server_of db.server_to_timestamp db.server_queue v.stamps_distinct
        v.queue_distinct (λ k. sym (v.agree k))))
