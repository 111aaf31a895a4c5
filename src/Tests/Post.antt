-- ===== src/Tests/Post.antt =====
-- A small system that carries messages to the descriptor 0.
use cpp_socket_library.Prelude.{
  ℕ, zero, suc, ◌≡◌, ◌<◌, ◌≤◌, refl, Bool, true, false, not, ◌&&◌, ltb, negsuc, arith, List,
  if◌then◌else◌, [], ◌∷◌, ◌++◌, length, take, Bytes, ℤ, pos, minus_one,
}
use cpp_socket_library.System.{SockAddr, Os}
use cpp_socket_library.System.Laws.{IsMailbox}
use cpp_socket_library.Tests.Machine.{idle, peer}

pub record Post : Type 0 where
  pub next : ℕ
  pub messages : List Bytes

abbrev first : ℕ → List Bytes → ℤ × Bytes × SockAddr
first n [] = (minus_one, [], peer)
first n (m ∷ rest) = (pos (length (take n m)), take n m, peer)

abbrev others : List Bytes → List Bytes
others [] = []
others (m ∷ rest) = rest

-- Descriptors from 4 on were made by `socket`; messages of more than five bytes are refused.
abbrev pub IsMade : Post → ℤ → Type 0
IsMade m d = (k : ℕ) × (d ≡ pos (suc k)) × (k < m.next)

abbrev made : ℕ → ℤ → Bool
made next (pos zero) = false
made next (pos (suc k)) = ltb k next
made next (negsuc k) = false

abbrev sends : ℤ → ℕ → Bytes → Post → ℤ × Post
sends d n b m =
    if made m.next d && not (ltb 5 n)
    then (pos n, record m { messages = m.messages ++ take n b ∷ [] })
    else (minus_one, m)

abbrev pub post : Os Post
post = record idle {
  socket = λ f t p m. (pos (suc m.next), record m { next = suc m.next });
  sendto = λ d b n g s k m. sends d n b m;
  recvfrom = λ d n g m. (first n m.messages, record m { messages = others m.messages });
}

abbrev pub empty_post : Post
empty_post = record { next = 4; messages = [] }

post-arrives :
    (d : ℤ) (b : Bytes) (n : ℕ) (m : Post)
    → IsMade m d
    → n ≤ 5
    → sends d n b m ≡ (pos n, record m { messages = m.messages ++ take n b ∷ [] })
post-arrives d b n m (k, e, h) le =
    let old : ltb k m.next ≡ true = ground arith in
    let small : ltb 5 n ≡ false = ground arith in rw (e, old, small) refl

post-too_long :
    (d : ℤ) (b : Bytes) (n : ℕ) (m : Post) → IsMade m d → 5 < n → sends d n b m ≡ (minus_one, m)
post-too_long d b n m (k, e, h) more =
    let old : ltb k m.next ≡ true = ground arith in
    let long : ltb 5 n ≡ true = ground arith in rw (e, old, long) refl

pub post-IsMailbox :
    (family : ℤ) (type protocol : ℕ) (address : SockAddr) (size : ℕ) (flags : ℤ) (depth : ℕ)
    → IsMailbox post
        (λ m. m.messages)
        IsMade
        family
        type
        protocol
        address
        size
        (pos 0)
        flags
        5
        depth
post-IsMailbox family type protocol address size flags depth = record {
  available = λ m. refl;
  opens_usable = λ m. (m.next, refl, omega arith);
  in_use = λ m e. cc;
  socket_keeps = λ m. refl;
  close_keeps = λ d m ne. refl;
  arrives = λ d b n m able h le room. rw (post-arrives d b n m able le) (refl, refl);
  too_long = λ d b n m able h more. rw (post-too_long d b n m able more) (refl, refl);
  received = λ n m b rest at. rw at (refl, refl, refl);
}
