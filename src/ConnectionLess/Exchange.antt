-- ===== src/ConnectionLess/Exchange.antt =====
-- Messages that one datagram socket sends to another, over the interface of both.
use mathlib.Core.List.{append_assoc, append-nil}
use cpp_socket_library.Prelude.{
  ℕ, suc, zero, ◌^◌, ◌<◌, ◌≡◌, refl, sym, ap, ◌∙◌, Option, List, [], ◌∷◌, ◌++◌, length, take, All,
  Bytes, ℤ, pos, minus_one, ltb, ltb→lt, ltb→le, length-append, ◌+◌, ◌≤◌, if◌then◌else◌, Bool-cases,
  inl, inr, arith,
}
use cpp_socket_library.System.{M, pure, ◌>>=◌}
use cpp_socket_library.System.Returns
use cpp_socket_library.System.Returns.{Returns, returns}
use cpp_socket_library.Datagram.{non_empty}
use cpp_socket_library.ConnectionLess.{ConnectionLessSocket}

module _ {W O T : Type 0} (c : ConnectionLessSocket W O T) where
  unfoldable pub send_messages : O → T → (flags : ℤ) → List Bytes → M W (List ℤ)
  send_messages u address flags [] = pure []
  send_messages u address flags (message ∷ messages) = do
    code ← c.send_string_to u address message flags
    codes ← send_messages u address flags messages
    pure (code ∷ codes)

  -- What is received in a number of calls, each with its code.
  unfoldable pub receive_messages :
      O → (receive_length flags : ℤ) → ℕ → M W (List (Option Bytes × ℤ))
  receive_messages u receive_length flags zero = pure []
  receive_messages u receive_length flags (suc n) = do
    (text, answer) ← c.receive_from u receive_length flags
    texts ← receive_messages u receive_length flags n
    pure ((text, answer.0) ∷ texts)

  -- All is sent before the first message is received, and `count` messages are received.
  unfoldable pub exchange :
      (sender receiver : O)
      → T
      → (receive_length flags : ℤ) (count : ℕ) → List Bytes
      → M W (List ℤ × List (Option Bytes × ℤ))
  unfolding send_messages receive_messages
  exchange sender receiver address receive_length flags count messages = do
    codes ← send_messages sender address flags messages
    received ← receive_messages receiver receive_length flags count
    pure (codes, received)

-- The messages that are not longer than a limit.
abbrev pub carried : ℕ → List Bytes → List Bytes
carried limit [] = []
carried limit (m ∷ ms) =
    let rest = carried limit ms in if ltb limit (length m) then rest else m ∷ rest

-- The code of each message: its length, or -1 where it is longer than the limit.
abbrev pub sent_codes : ℕ → List Bytes → List ℤ
sent_codes limit [] = []
sent_codes limit (m ∷ ms) =
    (if ltb limit (length m) then minus_one else pos (length m)) ∷ sent_codes limit ms

-- What a receiver that asks for `n` bytes gets of each message, with the code.
abbrev pub cut_messages : ℕ → List Bytes → List (Option Bytes × ℤ)
cut_messages n [] = []
cut_messages n (m ∷ ms) = (non_empty (take n m), pos (length (take n m))) ∷ cut_messages n ms

-- A size that an `int` holds.
abbrev pub IsShort : Bytes → Type 0
IsShort m = length m < 2 ^ 31

module _ {W O T : Type 0} (c : ConnectionLessSocket W O T) (queue : W → List Bytes)
    (sender receiver : O) (address : T) (flags : ℤ) (limit depth n : ℕ) where
  -- One message goes to the end of a queue, unless it is too long, and the first one is received.
  pub record Carries : Type 0 where
    pub sends :
        (message : Bytes) (w : W)
        → IsShort message
        → length message ≤ limit
        → length (queue w) < depth
        → Returns
            (λ r w'. (r ≡ pos (length message)) × (queue w' ≡ queue w ++ message ∷ []))
            (c.send_string_to sender address message flags w)
    pub refuses :
        (message : Bytes) (w : W)
        → IsShort message
        → limit < length message
        → Returns
            (λ r w'. (r ≡ minus_one) × (queue w' ≡ queue w))
            (c.send_string_to sender address message flags w)
    pub receives :
        (w : W) (message : Bytes) (rest : List Bytes)
        → queue w ≡ message ∷ rest
        → Returns
            (λ r w'.
              (r.0 ≡ non_empty (take n message))
              × (r.1.0 ≡ pos (length (take n message)))
              × (queue w' ≡ rest))
            (c.receive_from receiver (pos n) flags w)

  module _ (law : Carries) where
    send_messages-queue :
        (messages : List Bytes) (w : W)
        → All IsShort messages
        → length (queue w) + length (carried limit messages) ≤ depth
        → Returns
            (λ r w'.
              (r ≡ sent_codes limit messages) × (queue w' ≡ queue w ++ carried limit messages))
            (send_messages c sender address flags messages w)
    unfolding send_messages
    send_messages-queue [] w short room = returns (refl, sym (append-nil (queue w)))
    send_messages-queue (m ∷ ms) w short room = elim (Bool-cases (ltb limit (length m))) [
      | inl long ↦
          let room' = rw long at room in
          rw long (
            Returns.bind (law.refuses m w short.0 (ltb→lt _ _ long)) λ code w₁ p.
              Returns.bind (send_messages-queue ms w₁ short.1 (rw p.1 room'))
                λ codes w₂ q. returns (cc (p.0, q.0), q.1 ∙ ap (λ t. t ++ carried limit ms) p.1))
      | inr fits ↦
          let room' = rw fits at room in
          rw fits (
            Returns.bind (law.sends m w short.0 (ltb→le _ _ fits) (omega (arith, room')))
              λ code w₁ p.
                let longer = ap length p.1 ∙ length-append (queue w) (m ∷ []) in
                Returns.bind (send_messages-queue ms w₁ short.1 (omega (arith, longer, room')))
                  λ codes w₂ q. returns (
                    cc (p.0, q.0),
                    q.1
                        ∙ ap (λ t. t ++ carried limit ms) p.1
                        ∙ append_assoc (queue w) (m ∷ []) (carried limit ms),
                  ))
    ]

    receive_messages-queue :
        (messages : List Bytes) (w : W)
        → queue w ≡ messages
        → Returns
            (λ r w'. (r ≡ cut_messages n messages) × (queue w' ≡ []))
            (receive_messages c receiver (pos n) flags (length messages) w)
    unfolding receive_messages
    receive_messages-queue [] w at = returns (refl, at)
    receive_messages-queue (m ∷ ms) w at = Returns.bind (law.receives w m ms at) λ r w₁ p.
        Returns.bind (receive_messages-queue ms w₁ p.2) λ rs w₂ q. returns (cc (p.0, p.1, q.0), q.1)

    pub exchange-queue :
        (messages : List Bytes) (w : W)
        → All IsShort messages
        → length (carried limit messages) ≤ depth
        → queue w ≡ []
        → Returns
            (λ r w'.
              (r ≡ (sent_codes limit messages, cut_messages n (carried limit messages)))
              × (queue w' ≡ []))
            (exchange c sender receiver address
              (pos n)
              flags
              (length (carried limit messages))
              messages
              w)
    unfolding exchange
    exchange-queue messages w short room idle =
        Returns.bind (send_messages-queue messages w short (omega (arith, room, ap length idle)))
          λ codes w₁ p.
            Returns.bind
              (receive_messages-queue (carried limit messages) w₁
                (p.1 ∙ ap (λ q. q ++ carried limit messages) idle))
              λ received w₂ q. returns (cc (p.0, q.0), q.1)
