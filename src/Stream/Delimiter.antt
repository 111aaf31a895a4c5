-- ===== src/Stream/Delimiter.antt =====
-- `get` and `receiveToDelimiter` on a byte stream.
use cpp_socket_library.Prelude.{
  ℕ, zero, suc, ◌<◌, ◌≡◌, ◌≢◌, refl, sym, ap, ◌∙◌, ◌⊎◌, inl, inr, false, Option, none, some, [],
  ◌∷◌, ◌++◌, ◌==◌, length, All, Bytes, arith, ℤ, Bool-cases, Option-cases, ==→≡,
}
use mathlib.Core.List.{append_assoc, append-nil}
use cpp_socket_library.Errors.{socket_exception}
use cpp_socket_library.System.{Os, throw}
use cpp_socket_library.System.Laws.{IsStream, IsBuffered}
use cpp_socket_library.System.Returns
use cpp_socket_library.System.Returns.{Returns, returns}
use cpp_socket_library.Stream.Wait.{ready-Waited}
use cpp_socket_library.Stream.Receive.{Prefix, receive_amount-Prefix}
use cpp_socket_library.Stream.{
  get, first_char, delimiter_loop, receive_to_delimiter, default_timeout,
}

module _ {W : Type 0} (os : Os W) (incoming : W → Bytes) (descriptor flags : ℤ) where
  -- The next byte of the stream, or none; where all bytes have arrived, none only at its end.
  abbrev pub Got : W → Option ℕ → W → Type 0
  Got w none w' =
      (incoming w' ≡ incoming w) × (IsBuffered os incoming descriptor flags → incoming w' ≡ [])
  Got w (some c) w' = c ∷ incoming w' ≡ incoming w

  Prefix-Got :
      (w w' : W) (text : Bytes)
      → Prefix os incoming descriptor flags 1 w text w'
      → Got w (first_char text) w'
  Prefix-Got w w' [] p =
      (p.in_order, λ b. elim (p.complete b) [ inl e ↦ absurd (omega arith) | inr e ↦ e ])
  Prefix-Got w w' (c ∷ []) p = p.in_order
  Prefix-Got w w' (c ∷ d ∷ text) p = absurd (omega (arith, p.within))

  -- On a stream `get` ends, and takes the next byte of the stream if it returns one and none
  -- otherwise; where all bytes have arrived it returns none only when no byte is left.
  pub get-Got :
      IsStream os incoming descriptor flags → (w : W) → Returns (Got w) (get os descriptor flags w)
  unfolding get
  get-Got law w =
      Returns.bind (receive_amount-Prefix os incoming descriptor flags law 1 w (omega arith))
        λ text w' p. returns (Prefix-Got w w' text p)

  -- What the loop has appended to the text, and how the stream has moved.
  pub record Delimited (delimiter : ℕ) (text : Bytes) (w : W) (r : Bytes) (w' : W) : Type 0 where
    pub taken : Bytes
    pub appended : r ≡ text ++ taken
    pub clean : All (λ c. c ≢ delimiter) taken
    pub in_order :
        (taken ++ incoming w' ≡ incoming w) ⊎ (taken ++ delimiter ∷ incoming w' ≡ incoming w)
    pub complete :
        IsBuffered os incoming descriptor flags
        → ((taken ≡ incoming w) × (incoming w' ≡ []))
          ⊎ (taken ++ delimiter ∷ incoming w' ≡ incoming w)

  module _ (law : IsStream os incoming descriptor flags) (delimiter : ℕ) where
    -- One byte before a run of the loop.
    push-Delimited :
        (c : ℕ) {text r : Bytes} {w w₁ w₂ w' : W}
        → c ≢ delimiter
        → c ∷ incoming w₁ ≡ incoming w
        → incoming w₂ ≡ incoming w₁
        → Delimited delimiter (text ++ c ∷ []) w₂ r w'
        → Delimited delimiter text w r w'
    push-Delimited c {text} ne e keeps d = record {
      taken = c ∷ d.taken;
      appended = d.appended ∙ append_assoc text (c ∷ []) d.taken;
      clean = (ne, d.clean);
      in_order = elim d.in_order [
        | inl p ↦ inl (ap (◌∷◌ c) (p ∙ keeps) ∙ e)
        | inr p ↦ inr (ap (◌∷◌ c) (p ∙ keeps) ∙ e)
      ];
      complete = λ b. elim (d.complete b) [
        | inl p ↦ inl (ap (◌∷◌ c) (p.0 ∙ keeps) ∙ e, p.1)
        | inr p ↦ inr (ap (◌∷◌ c) (p ∙ keeps) ∙ e)
      ];
    }

    wait-Delimited :
        {text r : Bytes} {w w₁ w' : W}
        → incoming w₁ ≡ incoming w
        → Delimited delimiter text w₁ r w'
        → Delimited delimiter text w r w'
    wait-Delimited keeps d = record {
      taken = d.taken;
      appended = d.appended;
      clean = d.clean;
      in_order = elim d.in_order [ inl p ↦ inl (p ∙ keeps) | inr p ↦ inr (p ∙ keeps) ];
      complete =
          λ b. elim (d.complete b) [ inl p ↦ inl (p.0 ∙ keeps, p.1) | inr p ↦ inr (p ∙ keeps) ];
    }

    stop-Delimited :
        {text : Bytes} {w w' : W}
        → incoming w' ≡ incoming w
        → (IsBuffered os incoming descriptor flags → incoming w' ≡ [])
        → Delimited delimiter text w text w'
    stop-Delimited {text} keeps idle = record {
      taken = [];
      appended = sym (append-nil text);
      clean = tt;
      in_order = inl keeps;
      complete = λ b. inl (sym (sym keeps ∙ idle b), idle b);
    }

    hit-Delimited :
        {text : Bytes} {w w' : W}
        → delimiter ∷ incoming w' ≡ incoming w
        → Delimited delimiter text w text w'
    hit-Delimited {text} e = record {
      taken = [];
      appended = sym (append-nil text);
      clean = tt;
      in_order = inr e;
      complete = λ b. inr e;
    }

    delimiter_loop-Delimited :
        (fuel : ℕ) (text : Bytes) (w : W)
        → length (incoming w) < fuel
        → Returns
            (Delimited delimiter text w)
            (delimiter_loop os descriptor fuel text delimiter flags w)
    unfolding delimiter_loop
    delimiter_loop-Delimited zero text w enough = absurd (omega arith)
    delimiter_loop-Delimited (suc fuel) text w enough =
        Returns.bind (get-Got law w) λ character w₁ got. elim (Option-cases character) [
          | inl e ↦ let g = rw e at got in rw e (returns (stop-Delimited g.0 g.1))
          | inr (c, e) ↦
              let g = rw e at got in
              rw e (elim (Bool-cases (c == delimiter)) [
                | inl hit ↦ rw hit (returns (hit-Delimited (rw (← ==→≡ c delimiter hit) g)))
                | inr miss ↦ rw miss (
                    Returns.bind (ready-Waited os incoming descriptor flags law default_timeout w₁)
                      λ more w₂ waited. elim (Bool-cases more) [
                        | inl again ↦ rw again (
                            Returns.mono
                              (delimiter_loop-Delimited fuel (text ++ c ∷ []) w₂
                                (omega (arith, ap length waited.keeps, ap length g)))
                              λ r w' d. push-Delimited c (ground arith) g waited.keeps d)
                        | inr last ↦ rw last (
                            returns (
                              push-Delimited c (ground arith) g refl (
                                stop-Delimited waited.keeps
                                  λ b. waited.keeps ∙ waited.idle b last)))
                      ])
              ])
        ]

  -- On a stream, with more rounds than there are bytes to come and any delimiter but NUL,
  -- `receiveToDelimiter` ends. It returns bytes without the delimiter, which are the next bytes of
  -- the stream; behind them it takes at most one more byte, the delimiter. Where all bytes have
  -- arrived, it returns all of them or stops at the delimiter.
  pub receive_to_delimiter-Delimited :
      IsStream os incoming descriptor flags
      → (delimiter fuel : ℕ) (w : W) → delimiter ≢ 0
      → length (incoming w) < fuel
      → Returns
          (Delimited delimiter [] w)
          (receive_to_delimiter os descriptor fuel delimiter flags w)
  unfolding receive_to_delimiter
  receive_to_delimiter-Delimited law delimiter fuel w ne enough =
      let given : (delimiter == 0) ≡ false = ground arith in
      rw given (
        Returns.bind (ready-Waited os incoming descriptor flags law default_timeout w)
          λ more w₁ waited. elim (Bool-cases more) [
            | inl some_ready ↦ rw some_ready (
                Returns.mono
                  (delimiter_loop-Delimited law delimiter fuel [] w₁
                    (omega (arith, ap length waited.keeps)))
                  λ r w' d. wait-Delimited law delimiter waited.keeps d)
            | inr nothing ↦ rw nothing (
                returns (
                  stop-Delimited law delimiter waited.keeps
                    λ b. waited.keeps ∙ waited.idle b nothing))
          ])

  -- NUL is refused as a delimiter, before anything is received.
  receive_to_delimiter-nul :
      (fuel : ℕ) (w : W)
      → receive_to_delimiter os descriptor fuel 0 flags w ≡ throw socket_exception w
  unfolding receive_to_delimiter
  receive_to_delimiter-nul fuel w = refl
