-- ===== src/UdpSocket/Valid.antt =====
-- What holds of a datagram socket between calls, and what `bind` answers.
use cpp_socket_library.Prelude.{
  ℕ, ◌^◌, ◌<◌, ◌≡◌, refl, sym, ◌∙◌, ◌⊎◌, ap, inl, inr, true, false, not, Option, none, some, pos,
  minus_one, eq_ℤ, Bool-cases, arith,
}
use cpp_socket_library.Errors.{Exception, get_invalid_socket_value, is_invalid_socket}
use cpp_socket_library.Protocol.{from_family}
use cpp_socket_library.System.{Os, Run, lift, this, assign, ◌>>=◌, ◌>>◌}
use cpp_socket_library.System.Ends
use cpp_socket_library.System.Ends.{Ends, returned, threw}
use cpp_socket_library.Address.{
  SocketAddress, zero_address, sock_dgram, ipproto_udp, get_address_length, get_port_number,
  socket_to_address,
}
use cpp_socket_library.Address.Ports.{get_port_number-set_sin_port}
use cpp_socket_library.Address.Resolve.{IsFull}
use cpp_socket_library.Socket
use cpp_socket_library.TcpSocket.{to_short}
use cpp_socket_library.ConnectionLess.{EndsAlways, is_some, none_of_not_some}
use cpp_socket_library.TcpServer.{Operation, run_operation}
use cpp_socket_library.UdpSocket.{
  UdpSocket, Answer, close, initialise_listening_port_number, bind_receive_socket, bind_address,
}

-- The object after `close`.
abbrev pub closed : {W : Type 0} → UdpSocket W → UdpSocket W
closed u = record u {
  receive_socket = get_invalid_socket_value;
  bound = false;
  listening_port = none;
}

module _ {W : Type 0} (os : Os W) where
  -- A socket has a listening port exactly when it is bound.
  abbrev pub IsValid : UdpSocket W → Type 0
  IsValid u = u.bound ≡ is_some u.listening_port

  -- The answer of `bind` for an address, and the socket after it.
  pub record Answered (operation : Option (Operation W)) (address : SocketAddress) (r : Answer)
      (s : UdpSocket W × W) : Type 0 where
    pub valid : IsValid s.0
    pub kept : s.0.pre_send_socket_operation ≡ operation
    pub code : s.0.bound ≡ not (eq_ℤ r.0 minus_one)
    pub version : s.0.protocol_version ≡ from_family address.sa_family
    pub unbound : s.0.bound ≡ false → r.1 ≡ zero_address
    pub numbered :
        s.0.bound ≡ true → IsFull address → s.0.listening_port ≡ some (get_port_number r.1)

  -- An exception has left a valid socket with no listening port.
  abbrev Silent : Option (Operation W) → Exception → UdpSocket W × W → Type 0
  Silent operation e s =
      IsValid s.0 × (s.0.listening_port ≡ none) × (s.0.pre_send_socket_operation ≡ operation)

  -- An exception has left a valid socket with its listening port, or with none.
  abbrev pub Thrown : UdpSocket W → Exception → UdpSocket W × W → Type 0
  Thrown u e s =
      IsValid s.0
      × ((s.0.listening_port ≡ u.listening_port) ⊎ (s.0.listening_port ≡ none))
      × (s.0.pre_send_socket_operation ≡ u.pre_send_socket_operation)

  initialise-Ends :
      (u : UdpSocket W) (w : W)
      → Ends
          (λ _ s. (p : ℕ) × (p < 2 ^ 16) × (s.0 ≡ record u { listening_port = some p }))
          (Silent u.pre_send_socket_operation)
          (initialise_listening_port_number os (u, w))
  unfolding initialise_listening_port_number socket_to_address close Socket.close
  initialise-Ends u w =
      let r = os.getsockname u.receive_socket w in
      elim (Bool-cases (eq_ℤ r.0.0 minus_one)) [
        | inl bad ↦
            let code : eq_ℤ r.0.0 (pos 0) ≡ false = ground arith in
            rw (bad, code)
              (threw {s = (closed u, (os.close u.receive_socket r.1).1)} (refl, refl, refl))
        | inr good ↦ rw good (returned (to_short (get_port_number r.0.1), omega arith, refl))
      ]

  bind_receive_socket-Answered :
      (address : SocketAddress) (u : UdpSocket W) (w : W)
      → u.listening_port ≡ none
      → u.protocol_version ≡ from_family address.sa_family
      → Ends
          (Answered u.pre_send_socket_operation address)
          (Silent u.pre_send_socket_operation)
          (bind_receive_socket os address (u, w))
  unfolding bind_receive_socket
  bind_receive_socket-Answered address u w free version =
      let r = os.bind u.receive_socket address (get_address_length address) w in
      elim (Bool-cases (eq_ℤ r.0 minus_one)) [
        | inl bad ↦ rw bad (
            returned (record {
              valid = rw free;
              kept = refl;
              code = rw bad refl;
              version = version;
              unbound = λ _. refl;
              numbered = λ b. cc;
            }))
        | inr good ↦ rw good (
            Ends.bind (initialise-Ends (record u { bound = true }) r.1) λ x (u', w') (p, small, e).
              rw e (
                returned (record {
                  valid = refl;
                  kept = refl;
                  code = rw good refl;
                  version = version;
                  unbound = λ b. cc;
                  numbered = λ _ full.
                      ap some (
                        sym (get_port_number-set_sin_port address p (omega (arith, full)) small).0);
                })))
      ]

  -- The rest of `bind` for an object that is not bound.
  operation-Answered :
      (address : SocketAddress) (pre_bind : Option (Operation W))
      → EndsAlways pre_bind
      → (u : UdpSocket W) (w : W) → u.bound ≡ false
      → u.listening_port ≡ none
      → u.protocol_version ≡ from_family address.sa_family
      → Ends (Answered u.pre_send_socket_operation address) (Silent u.pre_send_socket_operation) (
          ((lift (run_operation pre_bind u.receive_socket)) >>= λ descriptor. this >>= λ u₄.
          assign (record u₄ { receive_socket = descriptor }) >> bind_receive_socket os address)
            (u, w))
  operation-Answered address pre_bind ends u w unbound free version =
      Ends.bind
        (Ends.mono (Ends.lift-Ends u (ends u.receive_socket w)) (λ d s p. p)
          (λ e s p. (rw (p.0, unbound, free), rw (p.0, free), rw p.0 refl)))
        λ d (u', w') (e, _).
          rw e
            (bind_receive_socket-Answered address (record u { receive_socket = d }) w' free version)

  -- `bind` of a valid socket to an address ends and leaves a valid socket, whether it returns or
  -- throws, if the operation before binding ends. If it throws, the socket has the listening port
  -- that it had, or none. It keeps its operation before sending. If it returns, the socket is bound
  -- exactly when the code is not -1, it has the version of the address, the address in the answer
  -- is the zero address when it is not bound, and has the listening port when it is.
  pub bind_address-Answered :
      (address : SocketAddress) (pre_bind : Option (Operation W))
      → EndsAlways pre_bind
      → (u : UdpSocket W) (w : W) → IsValid u
      → Ends
          (Answered u.pre_send_socket_operation address)
          (Thrown u)
          (bind_address os (some address) pre_bind (u, w))
  unfolding bind_address close Socket.close
  bind_address-Answered address pre_bind ends u w v =
      let r = os.socket (pos address.sa_family) sock_dgram ipproto_udp w in
      elim (Bool-cases (is_invalid_socket r.0)) [
        | inl bad ↦ rw bad (threw (v, inl refl, refl))
        | inr good ↦ rw good (elim (Bool-cases u.bound) [
          | inl old ↦ rw old (
              silent (
                operation-Answered address pre_bind ends
                  (record u {
                    protocol_version = from_family address.sa_family;
                    receive_socket = get_invalid_socket_value;
                    bound = false;
                    listening_port = none;
                  })
                  (os.close r.0 r.1).1 refl refl refl))
          | inr new ↦ rw new (
              silent (
                operation-Answered address pre_bind ends
                  (record u {
                    protocol_version = from_family address.sa_family;
                    receive_socket = r.0;
                    bound = false;
                  })
                  r.1 refl (none_of_not_some u.listening_port (sym v ∙ new)) refl))
        ])
      ]
    where
      silent :
          {r : Run (UdpSocket W × W) Answer}
          → Ends
              (Answered u.pre_send_socket_operation address)
              (Silent u.pre_send_socket_operation)
              r
          → Ends (Answered u.pre_send_socket_operation address) (Thrown u) r
      silent h = Ends.mono h (λ r s a. a) (λ e s p. (p.0, inr p.1, p.2))
