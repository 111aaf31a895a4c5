-- ===== src/Stream/Dialogue.antt =====
-- Two ends of a connection that both send and receive, in turn.
use cpp_socket_library.Prelude.{
  ℕ, zero, suc, ◌^◌, ◌<◌, ◌≡◌, refl, ap, ◌∙◌, inl, inr, Bool, true, false, none, List, [], ◌∷◌,
  ◌++◌, ltb, ◌==◌, ◌+◌, length, All, Bytes, ℤ, lt_ℕ, pos_part, to_long, not, pos, ◌≤◌, take, drop,
  take-append, length-append, to_size-to_int, arith, Bool-cases,
}
use cpp_socket_library.Errors.{is_invalid_socket}
use cpp_socket_library.System.{Os, M, pure, ◌>>=◌}
use cpp_socket_library.System.Laws.{Leaves, IsEnd}
use cpp_socket_library.System.Returns
use cpp_socket_library.System.Returns.{Returns, returns}
use cpp_socket_library.System.Always
use cpp_socket_library.System.Always.{Always}
use cpp_socket_library.Socket.{poll_socket, poll_time}
use cpp_socket_library.Stream.{
  default_timeout, ready, recv_length, receive_loop, receive_buffer, receive_amount, send,
  send_string,
}
use cpp_socket_library.Stream.Exact.{receive_amount-take}

pub data Act : Type 0 where
  say : (text : Bytes) → Act
  hear : (amount : ℕ) → Act

-- The end `true` or the end `false` sends a text, or receives up to an amount.
pub data Turn : Type 0 where
  turn : (end : Bool) → Act → Turn

pub data Reply : Type 0 where
  sent : (code : ℤ) → Reply
  heard : (text : Bytes) → Reply

-- Sizes for which the lengths of `send` and `recv` are right.
abbrev pub IsFair : Act → Type 0
IsFair (say text) = length text < 2 ^ 31
IsFair (hear amount) = amount < 2 ^ 31

abbrev pub IsFairTurn : Turn → Type 0
IsFairTurn (turn end a) = IsFair a

-- Two queues of bytes, what an end is to receive and what its peer is to receive, before and after
-- an act of this end. There is no act that has to wait: a text finds room, and a receive of some
-- bytes a byte.
pub data Acts (capacity : ℕ) : Act → (own peer : Bytes) → Reply → Bytes → Bytes → Type 0 where
  says :
      (text : Bytes) {own peer : Bytes}
      → length peer + length text ≤ capacity
      → Acts capacity (say text) own peer (sent (pos (length text))) own (peer ++ text)
  hears_nothing : {own peer : Bytes} → Acts capacity (hear 0) own peer (heard []) own peer
  hears :
      (n : ℕ) {c : ℕ} {s peer : Bytes}
      → Acts capacity (hear (suc n)) (c ∷ s) peer (heard (c ∷ take n s)) (drop n s) peer

-- The same for a sequence of turns, with the queue to the end `true` first.
pub data Talks (capacity : ℕ)
    : List Turn → Bytes → Bytes → List Reply → Bytes → Bytes → Type 0 where
  over : {t f : Bytes} → Talks capacity [] t f [] t f
  true_end :
      {a : Act} {t f t₁ f₁ t₂ f₂ : Bytes} {ts : List Turn} {r : Reply} {rs : List Reply}
      → Acts capacity a t f r t₁ f₁
      → Talks capacity ts t₁ f₁ rs t₂ f₂
      → Talks capacity (turn true a ∷ ts) t f (r ∷ rs) t₂ f₂
  false_end :
      {a : Act} {t f t₁ f₁ t₂ f₂ : Bytes} {ts : List Turn} {r : Reply} {rs : List Reply}
      → Acts capacity a f t r f₁ t₁
      → Talks capacity ts t₁ f₁ rs t₂ f₂
      → Talks capacity (turn false a ∷ ts) t f (r ∷ rs) t₂ f₂

module _ {W : Type 0} (os : Os W) (flags : ℤ) where
  unfoldable pub perform : (descriptor : ℤ) → Act → M W Reply
  perform descriptor (say text) = do code ← send_string os descriptor text flags; pure (sent code)
  perform descriptor (hear amount) = do
    text ← receive_amount os descriptor amount flags
    pure (heard text)

  unfoldable pub dialogue : (descriptor : Bool → ℤ) → List Turn → M W (List Reply)
  unfolding perform
  dialogue descriptor [] = pure []
  dialogue descriptor (turn end a ∷ ts) = do
    r ← perform (descriptor end) a
    rs ← dialogue descriptor ts
    pure (r ∷ rs)

module _ {W : Type 0} (os : Os W) where
  module _ (other : W → Bytes) (descriptor flags : ℤ) (leaves : Leaves os other descriptor flags)
      (start : Bytes) where
    abbrev Same : W → Type 0
    Same w = other w ≡ start

    ready-Same : (timeout : ℕ) (w : W) → Same w → Always Same (ready os descriptor timeout w)
    unfolding ready poll_socket
    ready-Same timeout w same = elim (Bool-cases (is_invalid_socket descriptor)) [
      | inl bad ↦ rw bad (Always.returned same)
      | inr good ↦
          rw good
            (Always.returned (leaves.select_keeps (poll_time (to_long timeout) none) w ∙ same))
    ]

    receive_loop-Same :
        (fuel : ℕ) (buffer : Bytes) (counter amount : ℕ) (w : W)
        → Same w
        → Always Same (receive_loop os descriptor fuel buffer counter amount flags w)
    unfolding receive_loop
    receive_loop-Same zero buffer counter amount w same = Always.never
    receive_loop-Same (suc fuel) buffer counter amount w same =
        let r = os.recv descriptor (recv_length amount counter) flags w in
        let kept = leaves.recv_keeps (recv_length amount counter) w ∙ same in
        elim (Bool-cases (lt_ℕ r.0.0 1)) [
          | inl done ↦ rw done (Always.returned kept)
          | inr some_bytes ↦
              rw some_bytes (elim (Bool-cases (ltb (counter + pos_part r.0.0) amount)) [
                | inr full ↦ rw full (Always.returned kept)
                | inl room ↦ rw room (
                    Always.bind (ready-Same default_timeout r.1 kept) λ more w₁ same₁.
                      elim (Bool-cases more) [
                        | inl again ↦ rw again (receive_loop-Same fuel _ _ amount w₁ same₁)
                        | inr idle ↦ rw idle (Always.returned same₁)
                      ])
              ])
        ]

    receive_amount-Same :
        (amount : ℕ) (w : W) → Same w → Always Same (receive_amount os descriptor amount flags w)
    unfolding receive_amount receive_buffer
    receive_amount-Same amount w same = elim (Bool-cases (amount == 0)) [
      | inl nothing ↦ rw nothing (Always.returned same)
      | inr something ↦ rw something (
          Always.bind (receive_loop-Same amount _ 0 amount w same)
            λ r w₁ same₁. Always.returned same₁)
    ]

  module _ (own peer : W → Bytes) (capacity : ℕ) (descriptor flags : ℤ)
      (law : IsEnd os own peer capacity descriptor flags) where
    abbrev Follows : Reply → Bytes → Bytes → Reply → W → Type 0
    Follows r o p r' w' = (r' ≡ r) × (own w' ≡ o) × (peer w' ≡ p)

    hear-Follows :
        (amount : ℕ) (w : W)
        → amount < 2 ^ 31
        → Returns
            (Follows (heard (take amount (own w))) (drop amount (own w)) (peer w))
            (perform os flags descriptor (hear amount) w)
    unfolding perform
    hear-Follows amount w small =
        Returns.bind
          (Always.with_Returns
            (receive_amount-Same peer descriptor flags law.leaves (peer w) amount w refl)
            (receive_amount-take os own descriptor flags law.buffered amount w small))
          λ text w' p. returns (ap heard p.0.0, p.0.1, p.1)

    perform-Follows :
        {a : Act} {o p o' p' : Bytes} {r : Reply}
        → Acts capacity a o p r o' p'
        → (w : W) → IsFair a
        → own w ≡ o
        → peer w ≡ p
        → Returns (Follows r o' p') (perform os flags descriptor a w)
    unfolding perform send_string send
    perform-Follows (says text room) w small at_own at_peer =
        let n = length text in
        let message = text ++ 0 ∷ [] in
        let q =
          law.delivers message n w (omega (arith, length-append text (0 ∷ [])))
            (omega (arith, room, ap length at_peer)) in
        rw (to_size-to_int n small) (
          returns (
            ap sent q.0,
            law.send_keeps message n w ∙ at_own,
            q.1 ∙ cc (at_peer, take-append text (0 ∷ [])),
          ))
    perform-Follows hears_nothing w small at_own at_peer =
        Returns.mono (hear-Follows 0 w small) λ r w' q. (q.0, q.1 ∙ at_own, q.2 ∙ at_peer)
    perform-Follows (hears n) w small at_own at_peer =
        Returns.mono (hear-Follows (suc n) w small)
          λ r w' q. let h = rw at_own at q in (h.0, h.1, h.2 ∙ at_peer)

-- `incoming` is what an end is still to receive.
module _ {W : Type 0} (os : Os W) (descriptor : Bool → ℤ) (flags : ℤ) (incoming : Bool → W → Bytes)
    (capacity : ℕ)
    (law : (end : Bool)
      → IsEnd os (incoming end) (incoming (not end)) capacity (descriptor end) flags) where
  -- Two ends of a connection that stays up send texts and call `receiveAmount` in turn, each text
  -- and amount below 2 ^ 31, and no call has to wait: a text finds room on the way to the other
  -- end, and an end that asks for bytes has some to receive. Every call returns, and the calls
  -- follow two queues of bytes: sending answers the length of the text and puts it into the queue
  -- to the other end, and receiving takes as many bytes from its own queue as it is asked for, or
  -- all. So nothing is lost, repeated or put in another order, and the two directions do not
  -- disturb each other.
  pub dialogue-Talks :
      {turns : List Turn} {out : List Reply} {t f t' f' : Bytes}
      → Talks capacity turns t f out t' f'
      → (w : W) → All IsFairTurn turns
      → incoming true w ≡ t
      → incoming false w ≡ f
      → Returns
          (λ r w'. (r ≡ out) × (incoming true w' ≡ t') × (incoming false w' ≡ f'))
          (dialogue os flags descriptor turns w)
  unfolding dialogue
  dialogue-Talks over w fair at_true at_false = returns (refl, at_true, at_false)
  dialogue-Talks (true_end a more) w fair at_true at_false =
      Returns.bind
        (perform-Follows os (incoming true) (incoming false) capacity (descriptor true) flags
          (law true) a w fair.0 at_true at_false)
        λ r w₁ p.
          Returns.bind (dialogue-Talks more w₁ fair.1 p.1 p.2)
            λ rs w₂ q. returns (cc (p.0, q.0), q.1, q.2)
  dialogue-Talks (false_end a more) w fair at_true at_false =
      Returns.bind
        (perform-Follows os (incoming false) (incoming true) capacity (descriptor false) flags
          (law false) a w fair.0 at_false at_true)
        λ r w₁ p.
          Returns.bind (dialogue-Talks more w₁ fair.1 p.2 p.1)
            λ rs w₂ q. returns (cc (p.0, q.0), q.1, q.2)
