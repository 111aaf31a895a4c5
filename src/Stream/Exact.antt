-- ===== src/Stream/Exact.antt =====
-- Receiving where all bytes have arrived: what each method takes, as functions of the bytes.
use cpp_socket_library.Prelude.{
  ℕ, zero, suc, ◌^◌, ◌≤◌, ◌<◌, ◌≡◌, ◌≢◌, refl, sym, ap, ◌∙◌, ◌⊎◌, inl, inr, some, [], ◌∷◌, ◌++◌,
  ◌==◌, if◌then◌else◌, length, take, drop, All, Bytes, arith, ℤ, Option-cases,
}
use cpp_socket_library.System.{Os}
use cpp_socket_library.System.Laws.{IsBuffered}
use cpp_socket_library.System.Returns
use cpp_socket_library.System.Returns.{Returns, returns}
use cpp_socket_library.Stream.Receive.{receive_amount-Prefix}
use cpp_socket_library.Stream.Delimiter.{get-Got, receive_to_delimiter-Delimited}
use cpp_socket_library.Stream.{get, receive_amount, receive_to_delimiter}

-- The bytes before the first delimiter, and those behind it.
abbrev pub before : ℕ → Bytes → Bytes
before d [] = []
before d (c ∷ s) = if c == d then [] else c ∷ before d s

abbrev pub after : ℕ → Bytes → Bytes
after d [] = []
after d (c ∷ s) = if c == d then s else after d s

pub split_at_length :
    (n : ℕ) (s text rest : Bytes)
    → text ++ rest ≡ s
    → length text ≤ n
    → (length text ≡ n) ⊎ (rest ≡ [])
    → (text ≡ take n s) × (rest ≡ drop n s)
split_at_length zero s [] rest e h c = (refl, e)
split_at_length zero s (x ∷ text) rest e h c = absurd (omega arith)
split_at_length (suc n) [] [] rest e h c = (refl, e)
split_at_length (suc n) [] (x ∷ text) rest e h c = cc
split_at_length (suc n) (y ∷ s) [] rest e h c = ground arith
split_at_length (suc n) (y ∷ s) (x ∷ text) rest e h c =
    ground (arith, split_at_length n s text rest)

pub before-clean :
    (d : ℕ) (text rest : Bytes)
    → All (λ c. c ≢ d) text
    → (before d (text ++ d ∷ rest) ≡ text) × (after d (text ++ d ∷ rest) ≡ rest)
before-clean d [] rest h = ground arith
before-clean d (c ∷ text) rest h = ground (arith, before-clean d text rest)

pub before_self :
    (d : ℕ) (text : Bytes) → All (λ c. c ≢ d) text → (before d text ≡ text) × (after d text ≡ [])
before_self d [] h = (refl, refl)
before_self d (c ∷ text) h = ground (arith, before_self d text)

module _ {W : Type 0} (os : Os W) (incoming : W → Bytes) (descriptor flags : ℤ)
    (law : IsBuffered os incoming descriptor flags) where
  -- `receiveAmount` takes as many bytes as it is asked for, or all.
  pub receive_amount-take :
      (amount : ℕ) (w : W)
      → amount < 2 ^ 31
      → Returns
          (λ r w'. (r ≡ take amount (incoming w)) × (incoming w' ≡ drop amount (incoming w)))
          (receive_amount os descriptor amount flags w)
  receive_amount-take amount w small =
      Returns.mono (receive_amount-Prefix os incoming descriptor flags law.stream amount w small)
        λ r w' p.
          split_at_length amount (incoming w) r (incoming w') p.in_order p.within (p.complete law)

  -- `get` takes the next byte.
  pub get-first :
      (w : W) (c : ℕ) (s : Bytes)
      → incoming w ≡ c ∷ s
      → Returns (λ r w'. (r ≡ some c) × (incoming w' ≡ s)) (get os descriptor flags w)
  get-first w c s e = Returns.mono (get-Got os incoming descriptor flags law.stream w) λ r w' got.
      elim (Option-cases r) [
        | inl n ↦ let g = rw n at got in cc (g.1 law, g.0, e)
        | inr (b, q) ↦ let g = rw q at got in (cc (q, g, e), cc (g, e))
      ]

  -- `receiveToDelimiter` takes the bytes up to the delimiter, and the delimiter.
  pub receive_to_delimiter-before :
      (delimiter fuel : ℕ) (w : W)
      → delimiter ≢ 0
      → length (incoming w) < fuel
      → Returns
          (λ r w'.
            (r ≡ before delimiter (incoming w)) × (incoming w' ≡ after delimiter (incoming w)))
          (receive_to_delimiter os descriptor fuel delimiter flags w)
  receive_to_delimiter-before delimiter fuel w ne enough =
      Returns.mono
        (receive_to_delimiter-Delimited os incoming descriptor flags law.stream delimiter fuel w ne
          enough)
        λ r w' d. elim (d.complete law) [
          | inl (all, none_left) ↦
              let p = before_self delimiter d.taken d.clean in
              (
                d.appended ∙ sym p.0 ∙ ap (before delimiter) all,
                none_left ∙ sym p.1 ∙ ap (after delimiter) all,
              )
          | inr hit ↦
              let p = before-clean delimiter d.taken (incoming w') d.clean in
              (d.appended ∙ sym p.0 ∙ ap (before delimiter) hit, sym p.1 ∙ ap (after delimiter) hit)
        ]
