-- ===== src/TcpSocket.antt =====
-- tcp_socket.h and tcp_socket.cc: messages on a stream of bytes, each behind its length. The results of
-- the kernel's `send` and `recv` are given as a list, in the order of the calls; a call that has no
-- result blocks.
pub mod Framing
pub mod Returning
use rpc_library.Common.{
  ℕ, zero, suc, ◌-◌, ◌%◌, ◌^◌, ◌==◌, if◌then◌else◌, List, [], ◌∷◌, ◌++◌, length, take, drop, Option,
  none, some, Outcome, ok, fault, undefined, ◌>>=◌,
}
use rpc_library.Wire.{encode_integer, decode_integer, check_num_args}
use rpc_library.Binder.Loop.{
  Received, message, closed, recv_error, Sent, delivered, send_closed, send_error,
}

-- A number of bytes that the kernel took, of those that it was handed; or -1 with EPIPE, or with
-- another errno.
pub data KernelSend : Type 0 where
  accepted : ℕ → KernelSend
  broken_pipe : KernelSend
  send_failed : KernelSend

-- The bytes that arrived, at most as many as were asked for and none at the end of the stream; or -1.
pub data KernelRecv : Type 0 where
  arrived : List ℕ → KernelRecv
  recv_failed : KernelRecv

-- What went out, and how the call ended, if it did.
abbrev pub Sending : Type 0
Sending = List ℕ × Option Sent

abbrev pub behind : List ℕ → Sending → Sending
behind first (rest, outcome) = (first ++ rest, outcome)

-- The loop of TcpSocket::send, on the bytes from `buffer + bytes_sent` on
unfoldable pub send_rest : List ℕ → List KernelSend → Sending
send_rest [] results = ([], some delivered)
send_rest (b ∷ bs) [] = ([], none)
send_rest (b ∷ bs) (accepted n ∷ results) =
    behind (take n (b ∷ bs)) (send_rest (drop n (b ∷ bs)) results)
send_rest (b ∷ bs) (broken_pipe ∷ results) = ([], some send_closed)
send_rest (b ∷ bs) (send_failed ∷ results) = ([], some send_error)

-- The length in memory, least byte first
abbrev pub length_prefix : List ℕ → List ℕ
length_prefix buffer = encode_integer (length buffer % 2 ^ 32)

-- TcpSocket::send. The result of sending the length is compared with -1 only.
unfoldable pub tcp_send : List ℕ → List KernelSend → Sending
tcp_send buffer [] = ([], none)
tcp_send buffer (accepted n ∷ results) =
    behind (take n (length_prefix buffer)) (send_rest buffer results)
tcp_send buffer (broken_pipe ∷ results) = ([], some send_closed)
tcp_send buffer (send_failed ∷ results) = ([], some send_error)

-- How the call ended, with the results that are left; `none` if it blocks.
abbrev pub Receiving : Type 0
Receiving = Option (Received × List KernelRecv)

-- The loop of TcpSocket::recv: the bytes that are missing, and those that are there
unfoldable pub recv_rest : ℕ → List ℕ → List KernelRecv → Receiving
recv_rest zero response results = some (message response, results)
recv_rest (suc n) response [] = none
recv_rest (suc n) response (arrived [] ∷ results) = some (closed, results)
recv_rest (suc n) response (arrived (c ∷ cs) ∷ results) =
    recv_rest (n - length cs) (response ++ c ∷ cs) results
recv_rest (suc n) response (recv_failed ∷ results) = some (recv_error, results)

-- `new char[length + 1]`, in which the sum of the largest `int` overflows, and `response[length] = 0`
unfoldable pub check_length : ℕ → Outcome (Unit {0})
check_length n = if n == 2 ^ 31 - 1 then fault undefined else check_num_args n

-- TcpSocket::recv. Of a length that is not read whole, the rest has no value. The buffer is allocated
-- and ended as an array of arguments is.
unfoldable pub tcp_recv : List KernelRecv → Outcome Receiving
tcp_recv [] = ok none
tcp_recv (recv_failed ∷ results) = ok (some (recv_error, results))
tcp_recv (arrived [] ∷ results) = ok (some (closed, results))
tcp_recv (arrived (a ∷ b ∷ c ∷ d ∷ []) ∷ results) =
    decode_integer (a ∷ b ∷ c ∷ d ∷ []) 0 >>= λ (n, pos).
    check_length n >>= λ allocated. ok (recv_rest n [] results)
tcp_recv (arrived _ ∷ results) = fault undefined
