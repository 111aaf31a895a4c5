-- ===== src/Stream/Memory.antt =====
-- The memory of a caller: `receiveAmount` writes the bytes that it counts, and nothing behind them.
use cpp_socket_library.Prelude.{
  ℕ, zero, suc, ◌+◌, ◌-◌, ◌^◌, ◌≤◌, ◌<◌, ◌≡◌, refl, ◌∙◌, inl, inr, true, [], ◌∷◌, ltb, ltb→lt, lt_ℕ,
  ◌==◌, length, drop, Bytes, write_at, length-write_at, ℤ, pos_part, Bool-cases, arith,
}
use cpp_socket_library.System.{Os}
use cpp_socket_library.System.Laws.{IsReceiver}
use cpp_socket_library.System.Returns
use cpp_socket_library.System.Returns.{Returns, returns}
use cpp_socket_library.Socket.{poll_socket}
use cpp_socket_library.Errors.{is_invalid_socket}
use cpp_socket_library.Stream.{recv_length, ready, receive_loop, receive_buffer, default_timeout}
use cpp_socket_library.Stream.Receive.{recv_length-room, some_received}

none_received : (z : ℤ) → lt_ℕ z 1 ≡ true → pos_part z ≡ 0
none_received z h = ground arith

-- What is behind a write stays.
drop-write_at :
    (dst : Bytes) (i : ℕ) (src : Bytes) (n : ℕ)
    → i + length src ≤ n
    → drop n (write_at dst i src) ≡ drop n dst
drop-write_at [] i src n h = refl
drop-write_at (x ∷ xs) zero [] n h = refl
drop-write_at (x ∷ xs) zero (c ∷ src) zero h = absurd (omega arith)
drop-write_at (x ∷ xs) zero (c ∷ src) (suc n) h = drop-write_at xs zero src n (omega arith)
drop-write_at (x ∷ xs) (suc i) src zero h = absurd (omega arith)
drop-write_at (x ∷ xs) (suc i) src (suc n) h = drop-write_at xs i src n (omega arith)

module _ {W : Type 0} (os : Os W) (descriptor flags : ℤ) (law : IsReceiver os descriptor flags)
    (amount : ℕ) (small : amount < 2 ^ 31) where
  ready-Returns : (timeout : ℕ) (w : W) → Returns (λ b w'. Unit {0}) (ready os descriptor timeout w)
  unfolding ready poll_socket
  ready-Returns timeout w = elim (Bool-cases (is_invalid_socket descriptor)) [
    | inl bad ↦ rw bad (returns tt)
    | inr good ↦ rw good (returns tt)
  ]

  -- The memory after the call and the count, for the memory before it and a lower bound of the
  -- count.
  abbrev pub Within : (memory : Bytes) (counter : ℕ) → Bytes × ℕ → Type 0
  Within memory counter r =
      (counter ≤ r.1)
      × (r.1 ≤ amount)
      × (length r.0 ≡ length memory)
      × (drop r.1 r.0 ≡ drop r.1 memory)

  -- A round that wrote before the rest did.
  Within-write_at :
      (memory bytes : Bytes) (counter : ℕ) (r : Bytes × ℕ)
      → Within (write_at memory counter bytes) (counter + length bytes) r
      → Within memory counter r
  Within-write_at memory bytes counter r (enough, fits, long, kept) = (
    omega (arith, enough),
    fits,
    long ∙ length-write_at memory counter bytes,
    kept ∙ drop-write_at memory counter bytes r.1 enough,
  )

  receive_loop-Within :
      (fuel : ℕ) (memory : Bytes) (counter : ℕ) (w : W)
      → counter < amount
      → amount - counter ≤ fuel
      → Returns
          (λ r w'. Within memory counter r)
          (receive_loop os descriptor fuel memory counter amount flags w)
  unfolding receive_loop
  receive_loop-Within zero memory counter w le enough = absurd (omega arith)
  receive_loop-Within (suc fuel) memory counter w le enough =
      let n = recv_length amount counter in
      let r = os.recv descriptor n flags w in
      let counted = law.counted n w in
      let within = law.within n w in
      let room = recv_length-room amount counter small (omega (arith, le)) in
      let next = counter + length r.0.1 in
      let fits : next ≤ amount = omega (arith, within, room, le) in
      elim (Bool-cases (lt_ℕ r.0.0 1)) [
        | inl stop ↦ rw stop (
            returns (
              Within-write_at memory r.0.1 counter (write_at memory counter r.0.1, counter)
                (omega (arith, counted, none_received r.0.0 stop), omega (arith, le), refl, refl)))
        | inr go ↦
            let done =
              Within-write_at memory r.0.1 counter (write_at memory counter r.0.1, next)
                (omega arith, fits, refl, refl) in
            rw (go, ← counted)
              (elim (Bool-cases (ltb next amount)) [
                | inl more_room ↦ rw more_room (
                    Returns.bind (ready-Returns default_timeout r.1) λ more w' u.
                      elim (Bool-cases more) [
                        | inl again ↦ rw again (
                            Returns.mono
                              (receive_loop-Within fuel (write_at memory counter r.0.1) next w'
                                (ltb→lt _ _ more_room)
                                (omega (arith, counted, some_received r.0.0 go)))
                              λ s w'' p. Within-write_at memory r.0.1 counter s p)
                        | inr last ↦ rw last (returns done)
                      ])
                | inr full ↦ rw full (returns done)
              ])
      ]

  -- `receiveAmount` into the memory of a caller, for an amount below 2 ^ 31, returns, however the
  -- system cuts the stream and whatever fails. The count that it returns is at most the amount, and
  -- the memory is as it was from that count on: `memory` is all that stands from the address of
  -- the buffer on, of any length, so that neither the unused part of the buffer nor what is behind
  -- it is touched. `recv` writes as many bytes as it answers, and no more than it is asked for.
  pub receive_buffer-Within :
      (memory : Bytes) (w : W)
      → Returns
          (λ r w'. (r.1 ≤ amount) × (length r.0 ≡ length memory) × (drop r.1 r.0 ≡ drop r.1 memory))
          (receive_buffer os descriptor memory amount flags w)
  unfolding receive_buffer
  receive_buffer-Within memory w = elim (Bool-cases (amount == 0)) [
    | inl empty ↦ rw empty (returns (omega arith, refl, refl))
    | inr some_room ↦ rw some_room (
        Returns.mono (receive_loop-Within amount memory 0 w (ground arith) (omega arith))
          λ r w' p. (p.1, p.2, p.3))
  ]
