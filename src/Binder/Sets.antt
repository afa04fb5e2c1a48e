-- ===== src/Binder/Sets.antt =====
-- The map from signatures to sets of servers: each operation in terms of what it makes a lookup
-- return (binder.cc).
use mathlib.Core.Logic.{ite}
use rpc_library.Common.{ℕ, ◌↔◌, ◌≡◌, refl, false, List, [], ◌∷◌, keep, arith}
use rpc_library.Signature.{Signature}
use rpc_library.Binder.Server.{ServerData}
use rpc_library.Binder.Database.{
  Signature-discrete, servers_of, has_signature, set_servers, erase_signature, drop_empty,
  other_socket, without_socket,
}

pub servers_of-set_servers :
    (sig k : Signature) (ss : List ServerData) (m : List (Signature × List ServerData))
    → servers_of k (set_servers sig ss m) ≡ ite (Signature-discrete k sig) ss (servers_of k m)
unfolding servers_of set_servers
servers_of-set_servers sig k ss [] = refl
servers_of-set_servers sig k ss ((j, old) ∷ m) = ground (arith, servers_of-set_servers sig k ss m)

pub servers_of-erase_signature :
    (sig k : Signature) (m : List (Signature × List ServerData))
    → servers_of k (erase_signature sig m) ≡ ite (Signature-discrete k sig) [] (servers_of k m)
unfolding servers_of erase_signature
servers_of-erase_signature sig k [] = ground arith
servers_of-erase_signature sig k ((j, old) ∷ m) = ground (arith, servers_of-erase_signature sig k m)

-- Dropping an empty set changes no lookup.
pub servers_of-drop_empty :
    (sig k : Signature) (m : List (Signature × List ServerData))
    → servers_of k (drop_empty sig m) ≡ servers_of k m
unfolding drop_empty
servers_of-drop_empty sig k m = ground (arith, servers_of-erase_signature sig k m)

pub servers_of-without_socket :
    (socket : ℕ) (k : Signature) (m : List (Signature × List ServerData))
    → servers_of k (without_socket socket m) ≡ keep (other_socket socket) (servers_of k m)
unfolding servers_of without_socket
servers_of-without_socket socket k [] = refl
servers_of-without_socket socket k ((j, old) ∷ m) =
    ground (arith, servers_of-without_socket socket k m)

has_signature_missing :
    (sig : Signature) (m : List (Signature × List ServerData))
    → has_signature sig m ≡ false
    → servers_of sig m ≡ []
unfolding servers_of has_signature
has_signature_missing sig [] h = refl
has_signature_missing sig ((k, ss) ∷ m) h = ground (arith, has_signature_missing sig m)

has_signature-erase :
    (sig : Signature) (m : List (Signature × List ServerData))
    → has_signature sig (erase_signature sig m) ≡ false
unfolding has_signature erase_signature
has_signature-erase sig [] = refl
has_signature-erase sig ((k, ss) ∷ m) = ground (arith, has_signature-erase sig m)

-- Behind `drop_empty` a signature is there exactly if it has a server.
pub has_signature-drop_empty :
    (sig : Signature) (m : List (Signature × List ServerData))
    → (has_signature sig (drop_empty sig m) ≡ false) ↔ (servers_of sig m ≡ [])
unfolding drop_empty
has_signature-drop_empty sig m = (
  λ h. ground (arith, has_signature_missing sig m),
  λ e. ground (arith, has_signature-erase sig m),
)
