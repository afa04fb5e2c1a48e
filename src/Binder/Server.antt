-- ===== src/Binder/Server.antt =====
-- `struct ServerData` of binder.cc and its order. Sets and maps take two servers for the same when
-- neither is less, so the socket does not count.
use rpc_library.Common.{
  ℕ, ◌≡◌, ◌↔◌, Bool, true, false, List, [], ◌∷◌, ◌&&◌, not, ltb, if◌then◌else◌, arith, refl,
}
use rpc_library.Common.Ints.{int_ltb}

-- The socket is the pointer, a number.
pub record ServerData : Type 0 where
  pub server_hostname : List ℕ
  pub server_port : ℕ
  pub server_socket : ℕ

-- `<` on std::string
unfoldable pub bytes_ltb : List ℕ → List ℕ → Bool
bytes_ltb [] [] = false
bytes_ltb [] (y ∷ ys) = true
bytes_ltb (x ∷ xs) [] = false
bytes_ltb (x ∷ xs) (y ∷ ys) =
    let rest = bytes_ltb xs ys in if ltb x y then true else if ltb y x then false else rest

-- operator<(const ServerData, const ServerData)
unfoldable pub server_ltb : ServerData → ServerData → Bool
unfolding bytes_ltb
server_ltb s t =
    if bytes_ltb s.server_hostname t.server_hostname
    then true
    else if bytes_ltb t.server_hostname s.server_hostname
    then false
    else int_ltb s.server_port t.server_port

unfoldable pub same_server : ServerData → ServerData → Bool
unfolding server_ltb
same_server s t = not (server_ltb s t) && not (server_ltb t s)

bytes_ltb_irrefl : (xs : List ℕ) → bytes_ltb xs xs ≡ false
unfolding bytes_ltb
bytes_ltb_irrefl [] = refl
bytes_ltb_irrefl (x ∷ xs) = ground (arith, bytes_ltb_irrefl xs)

bytes_ltb_total : (xs ys : List ℕ) → bytes_ltb xs ys ≡ false → bytes_ltb ys xs ≡ false → xs ≡ ys
unfolding bytes_ltb
bytes_ltb_total [] [] h k = refl
bytes_ltb_total [] (y ∷ ys) h k = cc
bytes_ltb_total (x ∷ xs) [] h k = cc
bytes_ltb_total (x ∷ xs) (y ∷ ys) h k = ground (arith, bytes_ltb_total xs ys)

-- The address by which a server is known.
abbrev pub SameAddress : ServerData → ServerData → Type 0
SameAddress s t = (s.server_hostname ≡ t.server_hostname) × (s.server_port ≡ t.server_port)

same_server→SameAddress : (s t : ServerData) → same_server s t ≡ true → SameAddress s t
unfolding same_server
same_server→SameAddress s t h = ground (arith, bytes_ltb_total s.server_hostname t.server_hostname)

SameAddress→same_server : (s t : ServerData) → SameAddress s t → same_server s t ≡ true
unfolding same_server
SameAddress→same_server s t h = ground (arith, bytes_ltb_irrefl s.server_hostname)

-- Two servers are equivalent in a set or map exactly if they have the same host and port.
pub same_server_iff : (s t : ServerData) → (same_server s t ≡ true) ↔ SameAddress s t
same_server_iff s t = (same_server→SameAddress s t, SameAddress→same_server s t)

pub same_server_refl : (s : ServerData) → same_server s s ≡ true
same_server_refl s = SameAddress→same_server s s (refl, refl)

-- Equivalent servers answer every comparison alike.
pub same_server_congr :
    (s t x : ServerData) → same_server s t ≡ true → same_server s x ≡ same_server t x
unfolding same_server
same_server_congr s t x h = let (host, port) = same_server→SameAddress s t h in rw (host, port) refl

pub same_server_sym : (s t : ServerData) → same_server s t ≡ same_server t s
unfolding same_server
same_server_sym s t = ground arith
