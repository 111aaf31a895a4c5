-- ===== src/Stream/All.antt =====
-- `receiveAll` where all bytes have arrived and the peer keeps the connection open.
use cpp_socket_library.Prelude.{
  ℕ, zero, suc, ◌+◌, ◌≤◌, ◌<◌, ◌≡◌, refl, sym, ap, ◌∙◌, inl, inr, Bool, true, false, ◌||◌, none, [],
  ◌∷◌, ◌++◌, ◌==◌, if◌then◌else◌, length, Bytes, until_nul, arith, ℤ, pos, to_long, Bool-cases,
}
use mathlib.Core.List.{append_assoc, append-nil}
use cpp_socket_library.System.{Os}
use cpp_socket_library.System.Laws.{IsBuffered}
use cpp_socket_library.System.Returns
use cpp_socket_library.System.Returns.{Returns, returns}
use cpp_socket_library.Socket.{poll_socket, poll_time}
use cpp_socket_library.Stream.Wait.{ready-Waited, nil-or-cons}
use cpp_socket_library.Stream.Receive.{Prefix, receive_amount-Prefix}
use cpp_socket_library.Stream.{receive_amount, all_loop, receive_all}

-- The bytes behind the first NUL.
abbrev pub after_nul : Bytes → Bytes
after_nul [] = []
after_nul (zero ∷ s) = s
after_nul (suc c ∷ s) = after_nul s

no_more : (b : Bool) → (b ≡ true → ⊥) → b ≡ false
no_more true h = absurd (h refl)
no_more false h = refl

some_more : (b : Bool) → (b ≡ false → ⊥) → b ≡ true
some_more true h = refl
some_more false h = absurd (h refl)

ne_nil : (c : ℕ) (s : Bytes) → c ∷ s ≡ [] → ⊥
ne_nil c s h = cc

module _ {W : Type 0} (os : Os W) (incoming : W → Bytes) (descriptor flags : ℤ)
    (law : IsBuffered os incoming descriptor flags) where
  -- One byte is asked for and received.
  receive_amount-one :
      (w : W) (c : ℕ) (s : Bytes)
      → incoming w ≡ c ∷ s
      → Returns
          (λ text w'. (text ≡ c ∷ []) × (incoming w' ≡ s))
          (receive_amount os descriptor 1 flags w)
  receive_amount-one w c s e =
      Returns.mono (receive_amount-Prefix os incoming descriptor flags law.stream 1 w (omega arith))
        λ text w' p. single text w' p
    where
      single :
          (text : Bytes) (w' : W)
          → Prefix os incoming descriptor flags 1 w text w'
          → (text ≡ c ∷ []) × (incoming w' ≡ s)
      single [] w' p = elim (p.complete law) [
        | inl e ↦ absurd (omega arith)
        | inr n ↦ cc (p.in_order)
      ]
      single (d ∷ []) w' p = let q = p.in_order ∙ e in (cc, cc)
      single (d ∷ d' ∷ text) w' p = absurd (omega (arith, p.within))

  -- Waiting for a byte that is there answers 1, for the one descriptor.
  poll_socket-one :
      (t : ℤ) (w : W) (c : ℕ) (s : Bytes)
      → incoming w ≡ c ∷ s
      → Returns
          (λ polled w'. (polled ≡ pos 1) × (incoming w' ≡ incoming w))
          (poll_socket os descriptor t none w)
  unfolding poll_socket
  poll_socket-one t w c s e =
      rw law.valid (
        returns
          (law.ready (poll_time t none) w c s e, law.stream.select_keeps (poll_time t none) w))

  abbrev Finished : Bytes → W → Bytes → W → Type 0
  Finished result w r w' =
      (r ≡ result ++ until_nul (incoming w)) × (incoming w' ≡ after_nul (incoming w))

  -- A NUL was read: the loop ends after one more wait.
  all_loop-hit :
      (fuel : ℕ) (result : Bytes) (timeout : ℕ) (w : W)
      → 1 ≤ fuel
      → Returns
          (λ r w'. (r ≡ result) × (incoming w' ≡ incoming w))
          (all_loop os descriptor fuel result true timeout flags w)
  unfolding all_loop
  all_loop-hit zero result timeout w enough = absurd (omega arith)
  all_loop-hit (suc fuel) result timeout w enough =
      Returns.bind (ready-Waited os incoming descriptor flags law.stream timeout w)
        λ more w' waited. elim (Bool-cases more) [
          | inl m ↦ rw m (returns (refl, waited.keeps))
          | inr m ↦ rw m (returns (refl, waited.keeps))
        ]

  -- The rest of the loop once a byte is received: it ends at NUL and goes on otherwise.
  after_byte :
      (fuel : ℕ) (result : Bytes) (timeout : ℕ) (w : W) (c : ℕ) (s : Bytes)
      → incoming w ≡ s
      → 1 ≤ fuel
      → ((result' : Bytes)
          → 1 ≤ c
          → Returns
              (Finished result' w)
              (all_loop os descriptor fuel result' false timeout flags w))
      → Returns
          (λ r w'. (r ≡ result ++ until_nul (c ∷ s)) × (incoming w' ≡ after_nul (c ∷ s)))
          (all_loop os descriptor fuel
            (if c == 0 then result else result ++ c ∷ [])
            ((c == 0) || false)
            timeout
            flags
            w)
  after_byte fuel result timeout w zero s e enough next =
      Returns.mono (all_loop-hit fuel result timeout w enough)
        λ r w' h. (h.0 ∙ sym (append-nil result), h.1 ∙ e)
  after_byte fuel result timeout w (suc c) s e enough next =
      let miss : (suc c == 0) ≡ false = ground arith in
      rw miss (
        Returns.mono (next (result ++ suc c ∷ []) (omega arith)) λ r w' h. (
          h.0
              ∙ append_assoc result (suc c ∷ []) (until_nul (incoming w))
              ∙ ap (λ t. result ++ suc c ∷ until_nul t) e,
          h.1 ∙ ap after_nul e,
        ))

  all_loop-Finished :
      (fuel : ℕ) (result : Bytes) (timeout : ℕ) (w : W)
      → length (incoming w) + 1 < fuel
      → Returns (Finished result w) (all_loop os descriptor fuel result false timeout flags w)
  unfolding all_loop
  all_loop-Finished zero result timeout w enough = absurd (omega arith)
  all_loop-Finished (suc fuel) result timeout w enough =
      Returns.bind (ready-Waited os incoming descriptor flags law.stream timeout w)
        λ more w₁ waited. elim (nil-or-cons (incoming w)) [
          | inl n ↦
              let idle : more ≡ false = no_more more (λ m. waited.arrived law m n) in
              rw idle (returns (rw n (sym (append-nil result)), rw n (waited.keeps ∙ n)))
          | inr (c, s, e) ↦
              let busy : more ≡ true =
                some_more more (λ m. ne_nil c s (sym e ∙ waited.idle law m)) in
              rw busy (
                Returns.bind (poll_socket-one (to_long timeout) w₁ c s (waited.keeps ∙ e))
                  λ polled w₂ poll. rw poll.0 (
                    Returns.bind (receive_amount-one w₂ c s (poll.1 ∙ waited.keeps ∙ e))
                      λ text w₃ got. rw got.0 (
                        Returns.mono
                          (after_byte fuel result timeout w₃ c s got.1 (omega (arith, ap length e))
                            (λ result' h.
                              all_loop-Finished fuel result' timeout w₃
                                (omega (arith, ap length got.1, ap length e))))
                          λ r w' h. (rw e h.0, rw e h.1))))
        ]

  -- With at least two more rounds than there are bytes, `receiveAll` ends and returns the bytes
  -- that have arrived up to the first NUL, which it takes but does not return; the bytes behind the
  -- NUL stay to be received. The bytes have all arrived and the peer keeps the connection open.
  pub receive_all-until_nul :
      (fuel timeout : ℕ) (w : W)
      → length (incoming w) + 1 < fuel
      → Returns
          (λ r w'. (r ≡ until_nul (incoming w)) × (incoming w' ≡ after_nul (incoming w)))
          (receive_all os descriptor fuel timeout flags w)
  unfolding receive_all
  receive_all-until_nul fuel timeout w = all_loop-Finished fuel [] timeout w
