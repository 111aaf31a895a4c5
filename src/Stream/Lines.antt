-- ===== src/Stream/Lines.antt =====
-- Two ends of a connection: delimited texts that one end sends are what the other end receives.
use mathlib.Core.List.{append_assoc, append-nil}
use cpp_socket_library.Prelude.{
  ℕ, zero, suc, ◌+◌, ◌^◌, ◌≤◌, ◌<◌, ◌≡◌, ◌≢◌, refl, sym, ap, ◌∙◌, List, [], ◌∷◌, ◌++◌, length,
  length-append, take-append, All, Bytes, arith, ℤ, pos, to_size-to_int,
}
use cpp_socket_library.System.{Os, M, pure, ◌>>=◌}
use cpp_socket_library.System.Laws.{IsBuffered, Delivers}
use cpp_socket_library.System.Returns
use cpp_socket_library.System.Returns.{Returns, returns}
use cpp_socket_library.Stream.Exact.{after, before-clean, receive_to_delimiter-before}
use cpp_socket_library.Stream.{send, send_string, receive_to_delimiter}

-- The texts as they are sent: each with the delimiter behind it.
abbrev pub joined : ℕ → List Bytes → Bytes
joined delimiter [] = []
joined delimiter (text ∷ texts) = text ++ delimiter ∷ joined delimiter texts

-- A text without the delimiter, of a size that an `int` holds with it.
abbrev pub IsLine : ℕ → Bytes → Type 0
IsLine delimiter text = All (λ c. c ≢ delimiter) text × (length text + 1 < 2 ^ 31)

abbrev pub sent_codes : List Bytes → List ℤ
sent_codes [] = []
sent_codes (text ∷ texts) = pos (length text + 1) ∷ sent_codes texts

module _ {W : Type 0} (os : Os W) where
  unfoldable pub send_each :
      (descriptor : ℤ) (delimiter : ℕ) (flags : ℤ) → List Bytes → M W (List ℤ)
  unfolding send_string
  send_each descriptor delimiter flags [] = pure []
  send_each descriptor delimiter flags (text ∷ texts) = do
    code ← send_string os descriptor (text ++ delimiter ∷ []) flags
    codes ← send_each descriptor delimiter flags texts
    pure (code ∷ codes)

  unfoldable pub receive_each :
      (descriptor : ℤ) (delimiter : ℕ) (flags : ℤ) (fuel : ℕ) → ℕ → M W (List Bytes)
  unfolding receive_to_delimiter
  receive_each descriptor delimiter flags fuel zero = pure []
  receive_each descriptor delimiter flags fuel (suc n) = do
    text ← receive_to_delimiter os descriptor fuel delimiter flags
    texts ← receive_each descriptor delimiter flags fuel n
    pure (text ∷ texts)

  module _ (incoming : W → Bytes) where
    -- A text is sent whole, without the terminator that `c_str` puts behind it.
    pub send_string-arrives :
        (sender flags : ℤ)
        → Delivers os incoming sender flags
        → (message : Bytes) (w : W) → length message < 2 ^ 31
        → Returns
            (λ r w'. (r ≡ pos (length message)) × (incoming w' ≡ incoming w ++ message))
            (send_string os sender message flags w)
    unfolding send_string send
    send_string-arrives sender flags law message w small =
        let fits : length message ≤ length (message ++ 0 ∷ []) =
          omega (arith, length-append message (0 ∷ [])) in
        rw (to_size-to_int (length message) small) (
          returns (
            law.whole (message ++ 0 ∷ []) (length message) w fits,
            law.arrives (message ++ 0 ∷ []) (length message) w fits
                ∙ ap (◌++◌ (incoming w)) (take-append message (0 ∷ [])),
          ))

    send_each-joined :
        (sender flags : ℤ)
        → Delivers os incoming sender flags
        → (delimiter : ℕ) (texts : List Bytes) (w : W) → All (IsLine delimiter) texts
        → Returns
            (λ r w'. (r ≡ sent_codes texts) × (incoming w' ≡ incoming w ++ joined delimiter texts))
            (send_each sender delimiter flags texts w)
    unfolding send_each
    send_each-joined sender flags law delimiter [] w lines =
        returns (refl, sym (append-nil (incoming w)))
    send_each-joined sender flags law delimiter (text ∷ texts) w lines =
        let size = length-append text (delimiter ∷ []) in
        Returns.bind
          (send_string-arrives sender flags law (text ++ delimiter ∷ []) w
            (omega (arith, size, lines.0.1)))
          λ code w₁ p.
            Returns.bind (send_each-joined sender flags law delimiter texts w₁ lines.1)
              λ codes w₂ q. returns {a = code ∷ codes} (
                cc (p.0, ap pos size, q.0),
                q.1
                    ∙ ap (λ t. t ++ joined delimiter texts) p.1
                    ∙ append_assoc (incoming w) (text ++ delimiter ∷ []) (joined delimiter texts)
                    ∙ ap (◌++◌ (incoming w))
                        (append_assoc text (delimiter ∷ []) (joined delimiter texts)),
              )

    receive_each-joined :
        (receiver flags : ℤ)
        → IsBuffered os incoming receiver flags
        → (delimiter fuel : ℕ) → delimiter ≢ 0
        → (texts : List Bytes) (w : W) → All (IsLine delimiter) texts
        → incoming w ≡ joined delimiter texts
        → length (joined delimiter texts) < fuel
        → Returns
            (λ r w'. (r ≡ texts) × (incoming w' ≡ []))
            (receive_each receiver delimiter flags fuel (length texts) w)
    unfolding receive_each
    receive_each-joined receiver flags law delimiter fuel ne [] w lines at enough =
        returns (refl, at)
    receive_each-joined receiver flags law delimiter fuel ne (text ∷ texts) w lines at enough =
        let rest = joined delimiter texts in
        let cut = before-clean delimiter text rest lines.0.0 in
        Returns.bind
          (receive_to_delimiter-before os incoming receiver flags law delimiter fuel w ne
            (omega (arith, ap length at)))
          λ r w₁ p.
            Returns.bind
              (receive_each-joined receiver flags law delimiter fuel ne texts w₁ lines.1
                (p.1 ∙ ap (after delimiter) at ∙ cut.1)
                (omega (arith, enough, length-append text (delimiter ∷ rest))))
              λ rs w₂ q. returns (cc (p.0, at, cut.0, q.0), q.1)

    pub receive_each-send_each :
        (sender receiver flags : ℤ)
        → Delivers os incoming sender flags
        → IsBuffered os incoming receiver flags
        → (delimiter fuel : ℕ) → delimiter ≢ 0
        → (texts : List Bytes) (w : W) → All (IsLine delimiter) texts
        → incoming w ≡ []
        → length (joined delimiter texts) < fuel
        → Returns {A = List ℤ × List Bytes}
            (λ r w'. (r ≡ (sent_codes texts, texts)) × (incoming w' ≡ []))
            ((send_each sender delimiter flags texts >>= λ codes.
                receive_each receiver delimiter flags fuel (length texts) >>= λ received.
                pure (codes, received))
              w)
    receive_each-send_each sender receiver flags sends law delimiter fuel ne texts w lines at
          enough =
        Returns.bind (send_each-joined sender flags sends delimiter texts w lines) λ codes w₁ p.
          Returns.bind
            (receive_each-joined receiver flags law delimiter fuel ne texts w₁ lines
              (p.1 ∙ ap (λ t. t ++ joined delimiter texts) at) enough)
            λ received w₂ q. returns {a = (codes, received)} (cc (p.0, q.0), q.1)
