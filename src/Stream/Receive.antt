-- ===== src/Stream/Receive.antt =====
-- `receiveAmount`: the buffer is never overrun, and no byte is lost, repeated or reordered.
use cpp_socket_library.Prelude.{
  ℕ, zero, suc, ◌+◌, ◌-◌, ◌^◌, ◌≤◌, ◌<◌, ◌≡◌, refl, ap, ◌∙◌, ◌⊎◌, inl, inr, true, false, [], ◌∷◌,
  ◌++◌, ltb, ◌==◌, length, take, replicate, Bytes, write_at, take-write_at, length-append, ltb→lt,
  ltb→le, length-write_at, length-replicate, arith, ℤ, lt_ℕ, pos_part, Bool-cases,
}
use mathlib.Core.List.{append_assoc}
use cpp_socket_library.System.{Os}
use cpp_socket_library.System.Laws.{IsStream, IsBuffered}
use cpp_socket_library.System.Returns
use cpp_socket_library.System.Returns.{Returns, returns}
use cpp_socket_library.Stream.Wait.{nil-or-cons, ready-Waited}
use cpp_socket_library.Stream.{
  recv_length, receive_loop, receive_buffer, receive_amount, default_timeout,
}

-- Below 2 ^ 31 the length that `recv` is called with is the room left in the buffer.
pub recv_length-room :
    (amount counter : ℕ)
    → amount < 2 ^ 31
    → counter ≤ amount
    → recv_length amount counter ≡ amount - counter
unfolding recv_length
recv_length-room amount counter h le = ground arith

-- For a buffer of at least 2 ^ 31 bytes, of a size that fits into 32 bits, the conversion to `int`
-- makes the first call of `recv` ask for more bytes than the buffer has.
pub recv_length_overrun :
    (amount : ℕ) → 2 ^ 31 ≤ amount → amount < 2 ^ 32 → amount < recv_length amount 0
unfolding recv_length
recv_length_overrun amount h k = ground arith

pub some_received : (z : ℤ) → lt_ℕ z 1 ≡ false → 1 ≤ pos_part z
some_received z h = ground arith

nil_of_append : (xs ys : Bytes) → xs ++ ys ≡ [] → ys ≡ []
nil_of_append [] ys h = h
nil_of_append (x ∷ xs) ys h = cc

module _ {W : Type 0} (os : Os W) (incoming : W → Bytes) (descriptor flags : ℤ) where
  -- What a loop of `receiveAmount` has done when it ends.
  pub record Received (amount counter : ℕ) (buffer : Bytes) (w : W) (r : Bytes × ℕ) (w' : W)
      : Type 0 where
    pub got : Bytes
    pub counted : r.1 ≡ counter + length got
    pub within : r.1 ≤ amount
    pub stored : take r.1 r.0 ≡ take counter buffer ++ got
    pub in_order : got ++ incoming w' ≡ incoming w
    pub complete : IsBuffered os incoming descriptor flags → (r.1 ≡ amount) ⊎ (incoming w' ≡ [])

  module _ (law : IsStream os incoming descriptor flags) {amount : ℕ} (small : amount < 2 ^ 31)
      (buffer : Bytes) (counter : ℕ) (w : W) (size : length buffer ≡ amount)
      (le : counter < amount) where
    abbrev answer : (ℤ × Bytes) × W
    answer = os.recv descriptor (recv_length amount counter) flags w

    abbrev bytes : Bytes
    bytes = answer.0.1

    bytes-room : counter + length bytes ≤ amount
    bytes-room = omega (
      arith,
      law.receiver.within (recv_length amount counter) w,
      recv_length-room amount counter small,
    )

    bytes-stored :
        take (counter + length bytes) (write_at buffer counter bytes) ≡ take counter buffer ++ bytes
    bytes-stored =
        take-write_at buffer counter bytes (counter + length bytes) refl (omega (arith, bytes-room))

    -- The loop ends after this call.
    finish :
        (c : ℕ) (w' : W)
        → c ≡ counter + length bytes
        → incoming w' ≡ incoming answer.1
        → (IsBuffered os incoming descriptor flags → (c ≡ amount) ⊎ (incoming w' ≡ []))
        → Received amount counter buffer w (write_at buffer counter bytes, c) w'
    finish c w' e keeps complete = record {
      got = bytes;
      counted = e;
      within = omega (arith, bytes-room);
      stored = rw e bytes-stored;
      in_order = rw keeps (law.in_order (recv_length amount counter) w);
      complete = complete;
    }

    -- It goes on from this call.
    continue :
        {w' w'' : W} {r : Bytes × ℕ}
        → incoming w' ≡ incoming answer.1
        → Received amount (counter + length bytes) (write_at buffer counter bytes) w' r w''
        → Received amount counter buffer w r w''
    continue {w'' = w''} keeps rest = record {
      got = bytes ++ rest.got;
      counted = omega (arith, rest.counted, length-append bytes rest.got);
      within = rest.within;
      stored = rest.stored ∙ (rw bytes-stored (append_assoc (take counter buffer) bytes rest.got));
      in_order =
          append_assoc bytes rest.got (incoming w'')
          ∙ ap (◌++◌ bytes) (rest.in_order ∙ keeps)
          ∙ law.in_order (recv_length amount counter) w;
      complete = rest.complete;
    }

    -- Where all bytes have arrived, `recv` fails or returns 0 only when none is left.
    nothing_left :
        lt_ℕ answer.0.0 1 ≡ true → IsBuffered os incoming descriptor flags → incoming answer.1 ≡ []
    nothing_left stop b = elim (nil-or-cons (incoming w)) [
      | inl n ↦
          nil_of_append bytes (incoming answer.1) (law.in_order (recv_length amount counter) w ∙ n)
      | inr (c, rest, q) ↦ absurd (
          ground (
            arith,
            b.some_byte (recv_length amount counter) w c rest q,
            law.receiver.counted (recv_length amount counter) w,
            recv_length-room amount counter small,
          ))
    ]

  module _ (law : IsStream os incoming descriptor flags) {amount : ℕ}
      (small : amount < 2 ^ 31) where
    receive_loop-Received :
        (fuel : ℕ) (buffer : Bytes) (counter : ℕ) (w : W)
        → length buffer ≡ amount
        → counter < amount
        → amount - counter ≤ fuel
        → Returns
            (Received amount counter buffer w)
            (receive_loop os descriptor fuel buffer counter amount flags w)
    unfolding receive_loop
    receive_loop-Received zero buffer counter w size le enough = absurd (omega arith)
    receive_loop-Received (suc fuel) buffer counter w size le enough =
        let n = recv_length amount counter in
        let r = os.recv descriptor n flags w in
        let counted = law.receiver.counted n w in
        let done = finish law small buffer counter w size le in
        elim (Bool-cases (lt_ℕ r.0.0 1)) [
          | inl stop ↦ rw stop (
              returns (
                done counter r.1 (ground arith) refl
                  (λ b. inr (nothing_left law small buffer counter w size le stop b))))
          | inr go ↦
              rw (go, ← counted)
                (elim (Bool-cases (ltb (counter + length r.0.1) amount)) [
                  | inl room ↦ rw room (
                      Returns.bind
                        (ready-Waited os incoming descriptor flags law default_timeout r.1)
                        (λ more w' waited. elim (Bool-cases more) [
                          | inl again ↦ rw again (
                              Returns.mono
                                (receive_loop-Received fuel (write_at buffer counter r.0.1)
                                  (counter + length r.0.1) w'
                                  (length-write_at buffer counter r.0.1 ∙ size) (ltb→lt _ _ room)
                                  (omega (arith, counted, some_received r.0.0 go)))
                                (λ s w'' rest.
                                  continue law small buffer counter w size le waited.keeps rest))
                          | inr last ↦ rw last (
                              returns (
                                done (counter + length r.0.1) w' refl waited.keeps
                                  (λ b. inr (waited.keeps ∙ waited.idle b last))))
                        ]))
                  | inr full ↦ rw full (
                      returns (
                        done (counter + length r.0.1) r.1 refl refl (λ b. inl (
                          omega (
                            arith,
                            bytes-room law small buffer counter w size le,
                            ltb→le _ _ full,
                          )))))
                ])
        ]

    receive_buffer-Received :
        (w : W)
        → Returns
            (Received amount 0 (replicate amount 0) w)
            (receive_buffer os descriptor (replicate amount 0) amount flags w)
    unfolding receive_buffer
    receive_buffer-Received w = elim (Bool-cases (amount == 0)) [
      | inl empty ↦ rw empty (
          returns (record {
            got = [];
            counted = omega arith;
            within = omega arith;
            stored = refl;
            in_order = refl;
            complete = λ b. inl (ground arith);
          }))
      | inr more ↦ rw more (
          receive_loop-Received amount (replicate amount 0) 0 w (length-replicate amount 0)
            (ground arith) (omega arith))
    ]

  -- The text that `receiveAmount` returns, for the state before and after it.
  pub record Prefix (amount : ℕ) (w : W) (text : Bytes) (w' : W) : Type 0 where
    pub within : length text ≤ amount
    pub in_order : text ++ incoming w' ≡ incoming w
    pub complete :
        IsBuffered os incoming descriptor flags → (length text ≡ amount) ⊎ (incoming w' ≡ [])

  -- Asked for fewer than 2 ^ 31 bytes of a stream, `receiveAmount` ends and returns at most that
  -- many, which are the next bytes of the stream; the bytes behind them stay to be received. Where
  -- all bytes have arrived, it returns fewer only if the stream is used up.
  pub receive_amount-Prefix :
      IsStream os incoming descriptor flags
      → (amount : ℕ) (w : W) → amount < 2 ^ 31
      → Returns (Prefix amount w) (receive_amount os descriptor amount flags w)
  unfolding receive_amount
  receive_amount-Prefix law amount w small =
      Returns.bind (receive_buffer-Received law small w) λ (buffer, c) w' r. returns (
        rw r.stored (record {
          within = omega (arith, r.counted, r.within);
          in_order = r.in_order;
          complete = λ b. elim (r.complete b) [
            | inl full ↦ inl (omega (arith, r.counted))
            | inr nothing ↦ inr nothing
          ];
        }))
