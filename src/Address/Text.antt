-- ===== src/Address/Text.antt =====
-- `getAddress` against what `inet_ntop` answers.
use cpp_socket_library.Prelude.{
  ℕ, ap, ◌≡◌, ◌≢◌, ◌↔◌, refl, true, not, ◌&&◌, Option, none, some, [], ◌∷◌, if◌then◌else◌, Bytes,
  until_nul, arith, bytes_eq→≡, bytes_eq_refl, until_nul-write_at, until_nul-replicate, replicate,
  length-replicate,
}
use cpp_socket_library.Protocol.{same_version, ipv6, family_int}
use cpp_socket_library.System.{Os}
use cpp_socket_library.System.Laws.{Fits, NtopFits}
use cpp_socket_library.Address.{
  SocketAddress, ntop_buffer, is_empty, differs, get_empty_address, get_address,
  get_internet_protocol_version, sin_addr, sin6_addr,
}

differs_iff :
    (text : Bytes) (other : Option Bytes) → (differs text other ≡ true) ↔ (other ≢ some text)
unfolding differs
differs_iff text none = (λ _ e. cc, λ _. refl)
differs_iff text (some other) =
    (λ h e. ground (arith, bytes_eq_refl text), λ h. ground (arith, bytes_eq→≡ text other))

-- The buffer holds the text, or nothing.
until_nul-ntop_buffer :
    (size : ℕ) (r : Option Bytes)
    → Fits size r
    → until_nul (ntop_buffer size r) ≡ elim r [ none ↦ [] | some text ↦ text ]
until_nul-ntop_buffer size none f = until_nul-replicate size
until_nul-ntop_buffer size (some text) f =
    until_nul-write_at text (replicate size 0) f.0
      (omega (arith, f.1, length-replicate {A = ℕ} size 0))

-- What is shown of a buffer's text.
abbrev shown : Bytes → Option Bytes → Option Bytes
shown text wildcard = if not (is_empty text) && differs text wildcard then some text else none

shown_iff :
    (t text : Bytes) (wildcard : Option Bytes)
    → (shown t wildcard ≡ some text) ↔ ((t ≡ text) × (text ≢ []) × (wildcard ≢ some text))
shown_iff [] text wildcard = (λ h. cc, λ h. absurd (h.1 (ground arith)))
shown_iff (c ∷ t) text wildcard = (
  λ h.
      let e : c ∷ t ≡ text = ground arith in
      (e, λ n. cc, (differs_iff text wildcard).0 (ground arith)),
  λ h. ground (arith, (differs_iff text wildcard).1 h.2),
)

module _ {W : Type 0} (os : Os W) where
  -- What the system says of the address.
  abbrev pub ntop_answer : SocketAddress → Option Bytes
  ntop_answer a =
      let v = get_internet_protocol_version a in
      os.inet_ntop (family_int v) (if same_version v ipv6 then sin6_addr a else sin_addr a)
        (if same_version v ipv6 then 46 else 16)

  shown_answer_iff :
      (answer : Option Bytes) (text : Bytes) (wildcard : Option Bytes)
      → (shown (elim answer [ none ↦ [] | some t ↦ t ]) wildcard ≡ some text)
        ↔ ((answer ≡ some text) × (text ≢ []) × (wildcard ≢ some text))
  shown_answer_iff none text wildcard = (λ h. cc, λ h. cc)
  shown_answer_iff (some t) text wildcard = (
    λ h. let r = (shown_iff t text wildcard).0 h in (ap some r.0, r.1, r.2),
    λ h. (shown_iff t text wildcard).1 (ground arith, h.1, h.2),
  )

  -- `getAddress` gives a text exactly when `inet_ntop` gives it for the address of the right
  -- family, and it is neither empty nor the wildcard address of that family; NUL bytes that pad
  -- the buffer never show. The condition is that `inet_ntop` leaves room for its terminator.
  pub get_address_iff :
      NtopFits os
      → (a : SocketAddress) (text : Bytes)
      → (get_address os a ≡ some text) ↔ (
          (ntop_answer a ≡ some text)
          × (text ≢ [])
          × (get_empty_address (get_internet_protocol_version a) ≢ some text))
  unfolding get_address
  get_address_iff fits a text =
      rw (until_nul-ntop_buffer _ (ntop_answer a) (fits _ _ _)) (
        shown_answer_iff (ntop_answer a) text (get_empty_address (get_internet_protocol_version a)))
