-- ===== src/Stream/Wait.antt =====
-- Waiting on a stream: no byte is taken, and where all bytes have arrived the answer is exact.
use cpp_socket_library.Prelude.{
  ℕ, ◌≡◌, ◌≢◌, refl, ap, ◌⊎◌, inl, inr, Bool, true, false, none, [], ◌∷◌, Bytes, ℤ, is_positive,
  to_long, Bool-cases,
}
use cpp_socket_library.Errors.{is_invalid_socket}
use cpp_socket_library.System.{TimeVal, Os}
use cpp_socket_library.System.Laws.{IsStream, IsBuffered}
use cpp_socket_library.System.Returns.{Returns, returns}
use cpp_socket_library.Socket.{poll_socket, poll_time}
use cpp_socket_library.Stream.{ready}

pub nil-or-cons : (s : Bytes) → (s ≡ []) ⊎ ((c : ℕ) × (rest : Bytes) × (s ≡ c ∷ rest))
nil-or-cons [] = inl refl
nil-or-cons (c ∷ s) = inr (c, s, refl)

module _ {W : Type 0} (os : Os W) (incoming : W → Bytes) (descriptor flags : ℤ) where
  pub select_idle :
      IsBuffered os incoming descriptor flags
      → (t : TimeVal) (w : W) → is_positive (os.select descriptor t w).0 ≡ false
      → incoming w ≡ []
  select_idle b t w e = elim (nil-or-cons (incoming w)) [
    | inl n ↦ n
    | inr (c, rest, q) ↦ cc (ap is_positive (b.ready t w c rest q))
  ]

  pub record Waited (w : W) (more : Bool) (w' : W) : Type 0 where
    pub keeps : incoming w' ≡ incoming w
    pub idle : IsBuffered os incoming descriptor flags → more ≡ false → incoming w ≡ []
    pub arrived : IsBuffered os incoming descriptor flags → more ≡ true → incoming w ≢ []

  pub ready-Waited :
      IsStream os incoming descriptor flags
      → (timeout : ℕ) (w : W) → Returns (Waited w) (ready os descriptor timeout w)
  unfolding ready poll_socket
  ready-Waited law timeout w = elim (Bool-cases (is_invalid_socket descriptor)) [
    | inl bad ↦
        rw bad (returns (record { keeps = refl; idle = λ b e. cc (b.valid); arrived = λ b e. cc }))
    | inr good ↦ rw good (
        returns (record {
          keeps = law.select_keeps (poll_time (to_long timeout) none) w;
          idle = λ b. select_idle b (poll_time (to_long timeout) none) w;
          arrived = λ b e n. cc (ap is_positive (b.idle (poll_time (to_long timeout) none) w n));
        }))
  ]
