-- ===== src/Stream/Session.antt =====
-- A client that calls the receiving methods in any order, against a queue of bytes.
use cpp_socket_library.Prelude.{
  ℕ, zero, suc, ◌+◌, ◌^◌, ◌≤◌, ◌<◌, ◌≡◌, ◌≢◌, refl, ap, ◌∙◌, inl, inr, Option, none, some, List, [],
  ◌∷◌, length, take, drop, length-drop, All, Bytes, until_nul, arith, ℤ, Option-cases,
}
use cpp_socket_library.System.{Os, Run, M, and_then, pure, ◌>>=◌}
use cpp_socket_library.System.Laws.{IsBuffered}
use cpp_socket_library.System.Returns
use cpp_socket_library.System.Returns.{Returns, returns}
use cpp_socket_library.Stream.All.{after_nul, receive_all-until_nul}
use cpp_socket_library.Stream.Exact.{
  before, after, get-first, receive_amount-take, receive_to_delimiter-before,
}
use cpp_socket_library.Stream.{get, receive_amount, receive_to_delimiter, receive_all}

pub data Request : Type 0 where
  character : Request
  amount : ℕ → Request
  line : ℕ → Request
  everything : Request

pub data Reply : Type 0 where
  one : Option ℕ → Reply
  many : Bytes → Reply

-- The amounts for which the length of `recv` is right, and the delimiters that are not refused.
abbrev pub IsAllowed : Request → Type 0
IsAllowed character = Unit {0}
IsAllowed (amount n) = n < 2 ^ 31
IsAllowed (line delimiter) = delimiter ≢ 0
IsAllowed everything = Unit {0}

-- What a queue of bytes replies, and what stays in it; none where the client has to wait.
abbrev pub reply : Request → Bytes → Option (Reply × Bytes)
reply character [] = none
reply character (c ∷ s) = some (one (some c), s)
reply (amount zero) s = some (many [], s)
reply (amount (suc n)) [] = none
reply (amount (suc n)) (c ∷ s) = some (many (c ∷ take n s), drop n s)
reply (line delimiter) s = some (many (before delimiter s), after delimiter s)
reply everything s = some (many (until_nul s), after_nul s)

-- The replies to a list of requests, one after the other.
abbrev pub push_reply : Reply → Option (List Reply × Bytes) → Option (List Reply × Bytes)
push_reply r none = none
push_reply r (some (rs, s)) = some (r ∷ rs, s)

abbrev pub then_replies :
    Option (Reply × Bytes) → (Bytes → Option (List Reply × Bytes)) → Option (List Reply × Bytes)
then_replies none rest = none
then_replies (some (r, s)) rest = push_reply r (rest s)

unfoldable pub replies : List Request → Bytes → Option (List Reply × Bytes)
replies [] s = some ([], s)
replies (q ∷ qs) s = then_replies (reply q s) (replies qs)

length-after : (delimiter : ℕ) (s : Bytes) → length (after delimiter s) ≤ length s
length-after delimiter [] = omega arith
length-after delimiter (c ∷ s) = ground (arith, length-after delimiter s)

length-after_nul : (s : Bytes) → length (after_nul s) ≤ length s
length-after_nul [] = omega arith
length-after_nul (zero ∷ s) = omega arith
length-after_nul (suc c ∷ s) = omega (arith, length-after_nul s)

-- The queue never grows.
length-reply :
    (q : Request) (s : Bytes) {r : Reply} {rest : Bytes}
    → reply q s ≡ some (r, rest)
    → length rest ≤ length s
length-reply character [] e = cc
length-reply character (c ∷ s) e = ground arith
length-reply (amount zero) s e = ground arith
length-reply (amount (suc n)) [] e = cc
length-reply (amount (suc n)) (c ∷ s) e = ground (arith, length-drop n s)
length-reply (line delimiter) s e = ground (arith, length-after delimiter s)
length-reply everything s e = ground (arith, length-after_nul s)

-- A session that gets on is a request that is replied to, and the session behind it.
replies-cons :
    (q : Request) (qs : List Request) (s : Bytes) {out : List Reply} {rest : Bytes}
    → replies (q ∷ qs) s ≡ some (out, rest)
    → (r : Reply) × (s' : Bytes) × (rs : List Reply) × (reply q s ≡ some (r, s'))
      × (replies qs s' ≡ some (rs, rest))
      × (out ≡ r ∷ rs)
unfolding replies
replies-cons q qs s {out} {rest} e = elim (Option-cases (reply q s)) [
  | inl n ↦ let h = rw n at e in cc h
  | inr ((r, s'), p) ↦
      let h = rw p at e in
      elim (Option-cases (replies qs s')) [
        | inl n ↦ let k = rw n at h in cc k
        | inr ((rs, t), k) ↦ let m = rw k at h in (r, s', rs, p, ground arith, ground arith)
      ]
]

module _ {W : Type 0} (os : Os W) (descriptor flags : ℤ) (fuel timeout : ℕ) where
  unfoldable pub serve : Request → M W Reply
  serve character = do c ← get os descriptor flags; pure (one c)
  serve (amount n) = do text ← receive_amount os descriptor n flags; pure (many text)
  serve (line delimiter) = do
    text ← receive_to_delimiter os descriptor fuel delimiter flags
    pure (many text)
  serve everything = do text ← receive_all os descriptor fuel timeout flags; pure (many text)

  unfoldable pub serve_each : List Request → M W (List Reply)
  unfolding serve
  serve_each [] = pure []
  serve_each (q ∷ qs) = do r ← serve q; rs ← serve_each qs; pure (r ∷ rs)

  module _ (incoming : W → Bytes) (law : IsBuffered os incoming descriptor flags) where
    abbrev Serves : Reply → Bytes → Reply → W → Type 0
    Serves r rest r' w' = (r' ≡ r) × (incoming w' ≡ rest)

    many-Serves :
        {run : Run W Bytes} {text rest : Bytes}
        → Returns (λ t w'. (t ≡ text) × (incoming w' ≡ rest)) run
        → Returns (Serves (many text) rest) (and_then run λ t. pure (many t))
    many-Serves h = Returns.bind h λ t w' p. returns (ap many p.0, p.1)

    -- Each method gives the reply of the queue.
    serve-reply :
        (q : Request) (s : Bytes) (w : W)
        → incoming w ≡ s
        → IsAllowed q
        → length s + 1 < fuel
        → (r : Reply) (rest : Bytes) → reply q s ≡ some (r, rest)
        → Returns (Serves r rest) (serve q w)
    unfolding serve
    serve-reply character [] w at ok enough r rest e = cc
    serve-reply character (c ∷ s) w at ok enough r rest e =
        Returns.bind (get-first os incoming descriptor flags law w c s at)
          λ x w' p. returns (cc (p.0, e), cc (p.1, e))
    serve-reply (amount zero) s w at ok enough r rest e =
        Returns.mono (many-Serves (receive_amount-take os incoming descriptor flags law 0 w ok))
          λ r' w' p. (cc (p.0, e), cc (p.1, at, e))
    serve-reply (amount (suc n)) [] w at ok enough r rest e = cc
    serve-reply (amount (suc n)) (c ∷ s) w at ok enough r rest e =
        Returns.mono
          (many-Serves (receive_amount-take os incoming descriptor flags law (suc n) w ok))
          λ r' w' p. let q = rw at at p in (cc (q.0, e), cc (q.1, e))
    serve-reply (line delimiter) s w at ok enough r rest e =
        Returns.mono
          (many-Serves (
            receive_to_delimiter-before os incoming descriptor flags law delimiter fuel w ok
              (omega (arith, ap length at))))
          λ r' w' p. let q = rw at at p in (cc (q.0, e), cc (q.1, e))
    serve-reply everything s w at ok enough r rest e =
        Returns.mono
          (many-Serves (
            receive_all-until_nul os incoming descriptor flags law fuel timeout w
              (omega (arith, ap length at))))
          λ r' w' p. let q = rw at at p in (cc (q.0, e), cc (q.1, e))

    -- A client that calls `get`, `receiveAmount`, `receiveToDelimiter` and `receiveAll` in any
    -- order gets the replies of a queue of bytes, and leaves what stays in the queue: the buffers,
    -- the waits and the way in which the system cuts the stream do not show. All bytes have
    -- arrived, the peer keeps the connection open, no call has to wait for more bytes, amounts are
    -- below 2 ^ 31 and no delimiter is NUL, and there are two more rounds than bytes.
    pub serve_each-replies :
        (script : List Request) (w : W) (out : List Reply) (rest : Bytes)
        → All IsAllowed script
        → length (incoming w) + 1 < fuel
        → replies script (incoming w) ≡ some (out, rest)
        → Returns (λ r w'. (r ≡ out) × (incoming w' ≡ rest)) (serve_each script w)
    unfolding serve_each replies
    serve_each-replies [] w out rest ok enough e = returns (cc (e), cc (e))
    serve_each-replies (q ∷ qs) w out rest ok enough e =
        let (r, s', rs, first, later, whole) = replies-cons q qs (incoming w) e in
        Returns.bind (serve-reply q (incoming w) w refl ok.0 enough r s' first) λ r' w₁ p.
          Returns.bind
            (serve_each-replies qs w₁ rs rest ok.1
              (omega (arith, ap length p.1, length-reply q (incoming w) first))
              (ap (replies qs) p.1 ∙ later))
            λ rs' w₂ p'. returns (cc (p.0, p'.0, whole), p'.1)
