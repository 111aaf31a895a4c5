-- ===== src/ConnectionLess/Sending.antt =====
-- What both datagram sockets do to send: a descriptor is opened for one message.
use cpp_socket_library.Prelude.{
  ℕ, ◌≡◌, refl, ◌⊎◌, inl, inr, Bool, true, false, Option, if◌then◌else◌, ℤ, negsuc, Bool-cases,
}
use cpp_socket_library.Errors.{Exception, is_invalid_socket}
use cpp_socket_library.System.{Os, M, pure, call, throw, ◌>>=◌, ◌>>◌}
use cpp_socket_library.System.Laws.{IsLedger}
use cpp_socket_library.System.Table.{
  SameTable, Opens, Opens-same, socket-Opens, socket-same, close-Opens,
}
use cpp_socket_library.System.Returns.{Returns}
use cpp_socket_library.System.Ends
use cpp_socket_library.System.Ends.{Ends, returned, threw}
use cpp_socket_library.Socket
use cpp_socket_library.TcpServer.{Operation, run_operation}
use cpp_socket_library.ConnectionLess.{SendsSafely, SendsGently}

module _ {W : Type 0} (os : Os W) (is_open : W → ℤ → Bool) (law : IsLedger os is_open) (family : ℤ)
    (type protocol : ℕ) (operation : Option (Operation W)) (transmit : ℤ → W → ℤ × W) where
  abbrev pub sending : M W ℤ
  sending = do
    temp_socket ← call (os.socket family type protocol)
    if is_invalid_socket temp_socket then pure (negsuc 1) else do
      temp_socket' ← run_operation operation temp_socket
      result ← call (transmit temp_socket')
      Socket.close os temp_socket'
      pure result

  -- The operation threw the exception, and the one descriptor that was opened is left open.
  abbrev pub Stranded : W → Exception → W → Type 0
  Stranded w e w' =
      (fd : ℤ) × Opens is_open fd w w' × ((w₁ : W) × (run_operation operation fd w₁ ≡ throw e w'))

  -- Nothing is left open, and the result is -2 where there was no valid descriptor, and otherwise
  -- that of the system.
  abbrev pub Transmitted : W → ℤ → W → Type 0
  Transmitted w r w' =
      let created = os.socket family type protocol w in
      SameTable is_open w w'
      × (((is_invalid_socket created.0 ≡ true) × (r ≡ negsuc 1))
          ⊎ ((is_invalid_socket created.0 ≡ false) × ((w₁ : W) × (r ≡ (transmit created.0 w₁).0))))

  module _ (keeps : (fd : ℤ) (w : W) → SameTable is_open w (transmit fd w).1) where
    pub sending-Ends :
        SendsGently is_open operation → (w : W) → Ends (Transmitted w) (Stranded w) (sending w)
    unfolding Socket.close
    sending-Ends gentle w =
        let r = os.socket family type protocol w in
        elim (Bool-cases (is_invalid_socket r.0)) [
          | inl bad ↦
              rw bad
                (returned (socket-same is_open os law family type protocol w bad, inl (bad, refl)))
          | inr good ↦
              let opens = socket-Opens is_open os law family type protocol w good in
              rw good (
                Ends.bind
                  (Ends.mono (Ends.remember (gentle r.0 r.1)) (λ d w₁ p. p.0)
                    (λ e w₁ (kept, thrown). (r.0, Opens-same is_open opens kept, (r.1, thrown))))
                  λ d w₁ p. rw p.0 (
                    returned (
                      close-Opens is_open os law r.0
                          (Opens-same is_open (Opens-same is_open opens p.1) (keeps r.0 w₁)),
                      inr (good, (w₁, refl)),
                    )))
        ]

    pub sending-Returns :
        SendsSafely is_open operation → (w : W) → Returns (Transmitted w) (sending w)
    sending-Returns safe w = Ends.to_Returns (
        Ends.mono (sending-Ends (λ d w₁. Ends.of_Returns (safe d w₁)) w) (λ r w' p. p)
          (λ e w' (fd, opens, (w₁, thrown)). Ends.Returns-throw (safe fd w₁) thrown))
