-- ===== src/TcpSocket/Returning.antt =====
-- When TcpSocket::send and TcpSocket::recv return (tcp_socket.cc): how many results of the kernel their
-- loops use up.
use rpc_library.Common.{
  ℕ, zero, suc, ◌+◌, ◌-◌, ◌^◌, ◌≤◌, ◌<◌, ◌≡◌, refl, ◌∙◌, ap, List, [], ◌∷◌, ◌++◌, length,
  length-drop, drop, some, ok, All, arith,
}
use rpc_library.Wire.{encode_integer}
use rpc_library.TcpSocket.Framing.{recv_length}
use rpc_library.Binder.Loop.{
  Received, Sent, delivered, send_closed, send_error, message, closed, recv_error,
}
use rpc_library.TcpSocket.{
  KernelSend, accepted, broken_pipe, send_failed, KernelRecv, arrived, recv_failed, send_rest,
  tcp_send, recv_rest, tcp_recv,
}

-- The kernel takes a byte at least.
abbrev pub MakesProgress : KernelSend → Type 0
MakesProgress (accepted n) = 1 ≤ n
MakesProgress broken_pipe = Unit
MakesProgress send_failed = Unit

send_rest_returns :
    (buffer : List ℕ) (results : List KernelSend)
    → All MakesProgress results
    → length buffer ≤ length results
    → (outcome : Sent) × ((send_rest buffer results).1 ≡ some outcome)
unfolding send_rest
send_rest_returns [] results p enough = (delivered, refl)
send_rest_returns (b ∷ bs) [] p enough = absurd (omega arith)
send_rest_returns (b ∷ bs) (accepted n ∷ results) p enough =
    send_rest_returns (drop n (b ∷ bs)) results p.1
      (let l = length-drop n (b ∷ bs) in let q = p.0 in omega arith)
send_rest_returns (b ∷ bs) (broken_pipe ∷ results) p enough = (send_closed, refl)
send_rest_returns (b ∷ bs) (send_failed ∷ results) p enough = (send_error, refl)

-- TcpSocket::send of a message of `n` bytes returns by the time that the kernel has given `n + 1` results,
-- whatever they are, if no call to `send` accepts 0 bytes.
pub tcp_send_returns :
    (buffer : List ℕ) (results : List KernelSend)
    → All MakesProgress results
    → length buffer + 1 ≤ length results
    → (outcome : Sent) × ((tcp_send buffer results).1 ≡ some outcome)
unfolding tcp_send
tcp_send_returns buffer [] p enough = absurd (omega arith)
tcp_send_returns buffer (accepted n ∷ results) p enough =
    send_rest_returns buffer results p.1 (omega arith)
tcp_send_returns buffer (broken_pipe ∷ results) p enough = (send_closed, refl)
tcp_send_returns buffer (send_failed ∷ results) p enough = (send_error, refl)

recv_rest_returns :
    (n : ℕ) (response : List ℕ) (results : List KernelRecv)
    → n ≤ length results
    → (outcome : Received) × (rest : List KernelRecv) × (recv_rest n response results
        ≡ some (outcome, rest))
unfolding recv_rest
recv_rest_returns zero response results enough = (message response, results, refl)
recv_rest_returns (suc n) response [] enough = absurd (omega arith)
recv_rest_returns (suc n) response (arrived [] ∷ results) enough = (closed, results, refl)
recv_rest_returns (suc n) response (arrived (c ∷ cs) ∷ results) enough =
    recv_rest_returns (n - length cs) (response ++ c ∷ cs) results (omega arith)
recv_rest_returns (suc n) response (recv_failed ∷ results) enough = (recv_error, results, refl)

-- TcpSocket::recv returns once it has read a length of `n` bytes, below 2 ^ 31 - 1, by the time that the
-- kernel has given `n` more results, whatever they are: the message, or the end of the stream or the
-- error that came before its last byte.
pub tcp_recv_returns :
    (n : ℕ) (results : List KernelRecv)
    → n < 2 ^ 31 - 1
    → n ≤ length results
    → (outcome : Received) × (rest : List KernelRecv) × (tcp_recv
          (arrived (encode_integer n) ∷ results)
        ≡ ok (some (outcome, rest)))
tcp_recv_returns n results small enough =
    let (outcome, rest, e) = recv_rest_returns n [] results enough in
    (outcome, rest, recv_length n results small ∙ ap ok e)
