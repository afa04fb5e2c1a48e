-- ===== src/Examples/TcpSocket.antt =====
-- A message of three bytes that is sent in two pieces and received in two others.
use mathlib.Core.List.{map}
use rpc_library.Common.{ℕ, ◌≡◌, refl, List, [], ◌∷◌, ◌++◌, some, ok, fault, undefined, arith}
use rpc_library.Wire.{encode_integer}
use rpc_library.Binder.Loop.{message, Received, Sent}
use rpc_library.TcpSocket.{
  accepted, broken_pipe, arrived, recv_failed, KernelRecv, length_prefix, send_rest, tcp_send,
  tcp_recv,
}
use rpc_library.TcpSocket.Framing.{sent_is_received}
use rpc_library.TcpSocket.Returning.{tcp_send_returns, tcp_recv_returns}

abbrev bytes : List ℕ
bytes = 97 ∷ 98 ∷ 99 ∷ []

abbrev pieces : List (List ℕ)
pieces = (97 ∷ []) ∷ (98 ∷ 99 ∷ []) ∷ []

-- A length of which two bytes arrive first has no value.
short_length : tcp_recv (arrived (3 ∷ 0 ∷ []) ∷ arrived (0 ∷ 0 ∷ []) ∷ []) ≡ fault undefined
unfolding tcp_recv
short_length = refl

sent_is_received_example :
    tcp_recv (arrived (length_prefix bytes) ∷ (map arrived pieces ++ []))
    ≡ ok (some (message bytes, []))
unfolding tcp_send send_rest encode_integer
sent_is_received_example =
    sent_is_received bytes (accepted 2 ∷ accepted 1 ∷ []) pieces [] (omega arith) refl
      ((λ e. cc), ((λ e. cc), tt)) refl

tcp_send_returns_example :
    (outcome : Sent) × ((tcp_send bytes (accepted 4 ∷ accepted 2 ∷ accepted 1 ∷ broken_pipe ∷ [])).1
      ≡ some outcome)
tcp_send_returns_example =
    tcp_send_returns bytes (accepted 4 ∷ accepted 2 ∷ accepted 1 ∷ broken_pipe ∷ [])
      (omega arith, (omega arith, (omega arith, (tt, tt)))) (omega arith)

tcp_recv_returns_example :
    (outcome : Received) × (rest : List KernelRecv) × (tcp_recv
        (arrived (encode_integer 3) ∷ arrived (97 ∷ 98 ∷ []) ∷ arrived [] ∷ recv_failed ∷ [])
      ≡ ok (some (outcome, rest)))
tcp_recv_returns_example =
    tcp_recv_returns 3 (arrived (97 ∷ 98 ∷ []) ∷ arrived [] ∷ recv_failed ∷ []) (omega arith)
      (omega arith)
