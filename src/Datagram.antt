-- ===== src/Datagram.antt =====
-- How `receiveFrom` of both datagram sockets cuts its string: UDPSocket.cpp and
-- DatagramIPCSocket.cpp, which have the same lines.
use cpp_socket_library.Prelude.{
  ℕ, ◌≤◌, ◌≡◌, refl, sym, ◌∙◌, inl, inr, ◌&&◌, Option, none, some, [], ◌∷◌, ltb, ltb→le,
  if◌then◌else◌, length, take, replicate, Bytes, write_at, take-write_at, take_all, length-write_at,
  length-replicate, ℤ, pos, is_nonneg, lt_ℤ, pos_part, Bool-cases, arith,
}

-- The string after the call, cut to what was received if that is less than what was asked for.
abbrev pub cut_to : (code length : ℤ) → Bytes → Bytes
cut_to code receive_length text =
    if is_nonneg code && lt_ℤ code receive_length then take (pos_part code) text else text

-- An absent string for an empty one.
abbrev pub non_empty : Bytes → Option Bytes
non_empty [] = none
non_empty (c ∷ s) = some (c ∷ s)

-- A buffer into which all of a message is written, cut to the message.
pub cut_to-write_at :
    (n : ℕ) (s : Bytes)
    → length s ≤ n
    → cut_to (pos (length s)) (pos n) (write_at (replicate n 0) 0 s) ≡ s
cut_to-write_at n s h = elim (Bool-cases (ltb (length s) n)) [
  | inl short ↦ rw short (stored (length s) refl)
  | inr full ↦ rw full (
      sym (
        take_all n (write_at (replicate n 0) 0 s)
          (omega (arith, length-write_at (replicate n 0) 0 s, length-replicate {A = ℕ} n 0)))
      ∙ stored n (omega (arith, ltb→le (length s) n full)))
]
  where
    stored : (k : ℕ) → k ≡ length s → take k (write_at (replicate n 0) 0 s) ≡ s
    stored k e =
        take-write_at (replicate n 0) 0 s k (omega arith)
          (omega (arith, length-replicate {A = ℕ} n 0))
