-- ===== src/TcpSocket/Framing.antt =====
-- TcpSocket::send at one end of a stream and TcpSocket::recv at the other (tcp_socket.cc).
use native.Mathlib.Nat.{mod-eq_of_lt}
use mathlib.Core.List.{map}
use rpc_library.Common.{
  ℕ, zero, suc, ◌-◌, ◌^◌, ◌<◌, ◌≡◌, ◌≢◌, refl, sym, ◌∙◌, ap, List, [], ◌∷◌, ◌++◌, append_assoc,
  append-nil, length, length-append, take, drop, drop-append_self, All, some, ok, arith,
}
use rpc_library.Wire.{encode_integer, decode_integer, check_num_args}
use rpc_library.Wire.RoundTrip.{decode_integer-encode_integer}
use rpc_library.Messages.ExecuteRoundTrip.{joined}
use rpc_library.Binder.Loop.{message, delivered}
use rpc_library.TcpSocket.{
  check_length, KernelSend, accepted, broken_pipe, send_failed, KernelRecv, arrived, Sending,
  behind, send_rest, length_prefix, tcp_send, recv_rest, tcp_recv,
}

take-drop : (n : ℕ) (xs : List ℕ) → take n xs ++ drop n xs ≡ xs
take-drop zero xs = refl
take-drop (suc n) [] = refl
take-drop (suc n) (x ∷ xs) = ap (◌∷◌ x) (take-drop n xs)

outcome-behind : (first : List ℕ) (s : Sending) → (behind first s).1 ≡ s.1
outcome-behind first (rest, outcome) = refl

bytes-behind : (first : List ℕ) (s : Sending) → (behind first s).0 ≡ first ++ s.0
bytes-behind first (rest, outcome) = refl

send_rest-delivered :
    (bytes : List ℕ) (results : List KernelSend)
    → (send_rest bytes results).1 ≡ some delivered
    → (send_rest bytes results).0 ≡ bytes
unfolding send_rest
send_rest-delivered [] results h = refl
send_rest-delivered (b ∷ bs) [] h = cc
send_rest-delivered (b ∷ bs) (accepted n ∷ results) h =
    let bytes = b ∷ bs in
    bytes-behind (take n bytes) (send_rest (drop n bytes) results)
    ∙ ap (λ (r : List ℕ). take n bytes ++ r)
        (send_rest-delivered (drop n bytes) results
          (sym (outcome-behind (take n bytes) (send_rest (drop n bytes) results)) ∙ h))
    ∙ take-drop n bytes
send_rest-delivered (b ∷ bs) (broken_pipe ∷ results) h = cc
send_rest-delivered (b ∷ bs) (send_failed ∷ results) h = cc

-- A `send` that ends without an error, and whose length the kernel took whole, has put the length and
-- then the buffer on the stream.
tcp_send-delivered :
    (bytes : List ℕ) (results : List KernelSend)
    → (tcp_send bytes (accepted 4 ∷ results)).1 ≡ some delivered
    → (tcp_send bytes (accepted 4 ∷ results)).0 ≡ length_prefix bytes ++ bytes
unfolding tcp_send encode_integer
tcp_send-delivered bytes results h =
    bytes-behind (length_prefix bytes) (send_rest bytes results)
    ∙ ap (λ (r : List ℕ). length_prefix bytes ++ r)
        (send_rest-delivered bytes results
          (sym (outcome-behind (length_prefix bytes) (send_rest bytes results)) ∙ h))

recv_rest-joined :
    (chunks : List (List ℕ)) (later : List KernelRecv) (response : List ℕ)
    → All (λ c. c ≢ []) chunks
    → recv_rest (length (joined chunks)) response (map arrived chunks ++ later)
      ≡ some (message (response ++ joined chunks), later)
unfolding recv_rest
recv_rest-joined [] later response h =
    ap (λ (r : List ℕ). some (message r, later)) (sym (append-nil response))
recv_rest-joined ([] ∷ chunks) later response h = absurd (h.0 refl)
recv_rest-joined ((c ∷ cs) ∷ chunks) later response h =
    ap (λ (n : ℕ). recv_rest n (response ++ c ∷ cs) (map arrived chunks ++ later)) missing
    ∙ recv_rest-joined chunks later (response ++ c ∷ cs) h.1
    ∙ ap (λ (r : List ℕ). some (message r, later)) (append_assoc response (c ∷ cs) (joined chunks))
  where
    missing : length (cs ++ joined chunks) - length cs ≡ length (joined chunks)
    missing = omega (arith, length-append cs (joined chunks))

prefix_read : (n : ℕ) → n < 2 ^ 32 → decode_integer (encode_integer n) 0 ≡ ok (n, 4)
unfolding encode_integer
prefix_read n h = (decode_integer-encode_integer n h).at [] [] (omega arith)

allocated : (n : ℕ) → n < 2 ^ 31 - 1 → check_length n ≡ ok tt
unfolding check_length check_num_args
allocated n h = ground arith

pub recv_length :
    (n : ℕ) (results : List KernelRecv)
    → n < 2 ^ 31 - 1
    → tcp_recv (arrived (encode_integer n) ∷ results) ≡ ok (recv_rest n [] results)
unfolding tcp_recv encode_integer
recv_length n results small = rw (prefix_read n (omega arith), allocated n small) refl

-- A `recv` puts a message together from its length and the pieces in which its bytes arrive.
tcp_recv-joined :
    (chunks : List (List ℕ)) (later : List KernelRecv)
    → All (λ c. c ≢ []) chunks
    → length (joined chunks) < 2 ^ 31 - 1
    → tcp_recv (arrived (encode_integer (length (joined chunks))) ∷ (map arrived chunks ++ later))
      ≡ ok (some (message (joined chunks), later))
tcp_recv-joined chunks later h small =
    recv_length (length (joined chunks)) _ small ∙ ap ok (recv_rest-joined chunks later [] h)

-- A buffer of fewer than 2 ^ 31 - 1 bytes that one side has sent without an error is received by the
-- other as the message that it is, and what was sent later is left on the stream: if each kernel takes
-- or gives the four bytes of the length in one call, and cuts the rest into any pieces.
pub sent_is_received :
    (bytes : List ℕ) (results : List KernelSend) (chunks : List (List ℕ)) (later : List KernelRecv)
    → length bytes < 2 ^ 31 - 1
    → (tcp_send bytes (accepted 4 ∷ results)).1 ≡ some delivered
    → All (λ c. c ≢ []) chunks
    → length_prefix bytes ++ joined chunks ≡ (tcp_send bytes (accepted 4 ∷ results)).0
    → tcp_recv (arrived (length_prefix bytes) ∷ (map arrived chunks ++ later))
      ≡ ok (some (message bytes, later))
sent_is_received bytes results chunks later small sent pieces stream =
    rw (mod-eq_of_lt within, ← whole)
      (tcp_recv-joined chunks later pieces (omega (arith, ap length whole)))
  where
    whole : joined chunks ≡ bytes
    whole =
        sym (drop-append_self (length_prefix bytes) (joined chunks))
        ∙ ap (drop (length (length_prefix bytes))) (stream ∙ tcp_send-delivered bytes results sent)
        ∙ drop-append_self (length_prefix bytes) bytes

    within : length bytes < 2 ^ 32
    within = omega arith
