-- ===== src/UdpSocket/Hosts.antt =====
-- Binding and sending by host name, for UDPSocket.cpp.
use cpp_socket_library.Prelude.{
  ℕ, ◌≡◌, refl, ◌∙◌, ◌⊎◌, inl, inr, Bool, true, false, not, Option, some, List, [], ◌∷◌, Bytes, All,
  ℤ, pos, minus_one, eq_ℤ, Bool-cases,
}
use cpp_socket_library.Errors.{Exception}
use cpp_socket_library.Protocol.{InternetProtocolVersion}
use cpp_socket_library.System.{Os, throw}
use cpp_socket_library.System.Laws.{IsLedger}
use cpp_socket_library.System.Table.{SameTable, Opens, same-Opens}
use cpp_socket_library.System.Ends
use cpp_socket_library.System.Ends.{Ends, returned, threw}
use cpp_socket_library.Address.{
  SocketAddress, zero_address, get_port_number, create_udp_hints, ai_passive,
}
use cpp_socket_library.Address.Resolve.{
  IsFull, resolve_to_addresses-Resolved, resolve_to_addresses-same,
}
use cpp_socket_library.ConnectionLess.{EndsAlways, SendsGently}
use cpp_socket_library.TcpServer.{Operation, run_operation, local_name}
use cpp_socket_library.UdpSocket.{UdpSocket, Answer, bind, bind_first, send_to_first, send_to_host}
use cpp_socket_library.UdpSocket.Valid.{IsValid, Thrown, bind_address-Answered}
use cpp_socket_library.UdpSocket.Transfer.{Done, send_to-Ends}

module _ {W : Type 0} (os : Os W) where
  -- What `bind` returns, and the socket after it: bound or not, as the code says, and listening on
  -- the port of the address that it answers.
  pub record BoundByName (operation : Option (Operation W)) (r : Answer) (s : UdpSocket W × W)
      : Type 0 where
    pub valid : IsValid os s.0
    pub kept : s.0.pre_send_socket_operation ≡ operation
    pub code : s.0.bound ≡ not (eq_ℤ r.0 minus_one)
    pub unbound : s.0.bound ≡ false → r.1 ≡ zero_address
    pub numbered : s.0.bound ≡ true → s.0.listening_port ≡ some (get_port_number r.1)

  bind_first-BoundByName :
      (addresses : List SocketAddress) (pre_bind : Option (Operation W))
      → EndsAlways pre_bind
      → All IsFull addresses
      → (u : UdpSocket W) (w : W) → IsValid os u
      → Ends
          (BoundByName u.pre_send_socket_operation)
          (Thrown os u)
          (bind_first os addresses pre_bind (u, w))
  bind_first-BoundByName [] pre_bind ends full u w v = threw (v, inl refl, refl)
  bind_first-BoundByName (address ∷ rest) pre_bind ends full u w v =
      Ends.mono (bind_address-Answered os address pre_bind ends u w v)
        (λ r s a. record {
          valid = a.valid;
          kept = a.kept;
          code = a.code;
          unbound = a.unbound;
          numbered = λ b. a.numbered b full.0;
        })
        (λ e s p. p)

  -- `bind` of a valid datagram socket by host name, version and port ends and leaves a valid
  -- socket, whatever the name resolves to and whether it returns or throws, if the operation before
  -- binding ends. If it throws, it has the listening port that it had, or none. It keeps its
  -- operation before sending. If it returns, the socket is bound exactly when the code is not -1;
  -- it then has the port of the address in the answer, which is the zero address otherwise.
  pub bind-BoundByName :
      (pre_bind : Option (Operation W))
      → EndsAlways pre_bind
      → (version : InternetProtocolVersion) (local_hostname : Option Bytes) (port : ℕ)
        (u : UdpSocket W) (w : W)
      → IsValid os u
      → Ends
          (BoundByName u.pre_send_socket_operation)
          (Thrown os u)
          (bind os version local_hostname port pre_bind (u, w))
  unfolding bind
  bind-BoundByName pre_bind ends version local_hostname port u w v =
      let hints = create_udp_hints version ai_passive in
      Ends.bind
        (Ends.mono {F = Thrown os u}
          (Ends.lift-Ends u (
            Ends.of_Returns {E = λ e w'. ⊥}
              (resolve_to_addresses-Resolved os (local_name local_hostname version) port hints w)))
          (λ r s p. p) (λ e s p. absurd p.1))
        λ (addresses, code) (u', w') (same, resolved).
          rw same (elim (Bool-cases (eq_ℤ code (pos 0))) [
            | inl good ↦
                rw good (bind_first-BoundByName addresses pre_bind ends resolved.full u w' v)
            | inr bad ↦ rw bad (threw (v, inl refl, refl))
          ])

  module _ (is_open : W → ℤ → Bool) (law : IsLedger os is_open) (u : UdpSocket W)
      (gentle : SendsGently is_open u.pre_send_socket_operation) (buffer : Bytes)
      (buffer_length flags : ℤ) where
    -- Nothing was sent, or the first of the resolved addresses was sent to.
    abbrev pub Sent : W → Answer → W → Type 0
    Sent w r w' =
        SameTable is_open w w'
        × ((r ≡ (pos 0, zero_address))
            ⊎ (IsFull r.1
                × ((w₁ : W) × Done os is_open law u r.1 buffer buffer_length flags w₁ r.0 w')))

    -- The operation before sending threw, and one descriptor is left open.
    abbrev pub Abandoned : W → Exception → W → Type 0
    Abandoned w e w' =
        (fd : ℤ) × Opens is_open fd w w'
        × ((w₁ : W) × (run_operation u.pre_send_socket_operation fd w₁ ≡ throw e w'))

    send_to_first-Sent :
        (addresses : List SocketAddress)
        → All IsFull addresses
        → (w : W)
        → Ends (Sent w) (Abandoned w) (send_to_first os u addresses buffer buffer_length flags w)
    send_to_first-Sent [] full w = returned (λ d. refl, inl refl)
    send_to_first-Sent (first ∷ rest) full w =
        Ends.bind
          (Ends.mono (send_to-Ends os is_open law u first buffer buffer_length flags gentle w)
            (λ r w' p. p) (λ e w' l. l))
          λ r w' p. returned (p.0, inr (full.0, (w, p)))

    -- Sending by host name ends, whatever the name resolves to, if the operation before sending
    -- ends, opens and closes no descriptor, and keeps its descriptor where it returns. Where it
    -- returns, the table of descriptors is as it was, and it answers 0 with the zero address, or a
    -- full union with what sending to that address answers: -2 where there was no valid descriptor,
    -- and otherwise what the system answered. It throws only what the operation before sending
    -- throws, and then leaves the one descriptor open that it opened.
    pub send_to_host-Sent :
        (hostname : Bytes) (port : ℕ) (version : InternetProtocolVersion) (w : W)
        → Ends
            (Sent w)
            (Abandoned w)
            (send_to_host os u hostname port buffer buffer_length flags version w)
    unfolding send_to_host
    send_to_host-Sent hostname port version w =
        Ends.bind
          (Ends.of_Returns
            (resolve_to_addresses-same os is_open law hostname port (create_udp_hints version 0) w))
          λ (addresses, code) w' (same, full). elim (Bool-cases (eq_ℤ code (pos 0))) [
            | inl good ↦ rw good (
                Ends.mono (send_to_first-Sent addresses full w')
                  (λ r w₂ p. (λ d. p.0 d ∙ same d, p.1))
                  (λ e w₂ (fd, opens, thrown). (fd, same-Opens is_open same opens, thrown)))
            | inr bad ↦ rw bad (returned (same, inl refl))
          ]
