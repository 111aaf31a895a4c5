-- ===== src/TcpSocket/Order.antt =====
-- The order in which the resolved addresses are tried.
use cpp_socket_library.Prelude.{
  ℕ, ◌≡◌, refl, ap, inl, inr, Bool, true, false, not, ◌&&◌, if◌then◌else◌, List, [], ◌∷◌, ◌++◌,
  Bytes, ℤ, pos, eq_ℤ, Bool-cases,
}
use cpp_socket_library.Errors.{
  Exception, socket_exception, is_invalid_socket, get_invalid_socket_value,
}
use cpp_socket_library.Protocol.{InternetProtocolVersion}
use cpp_socket_library.System.{AddrInfo, Os, Run, ok}
use cpp_socket_library.System.Ends
use cpp_socket_library.System.Ends.{Ends, returned, threw}
use cpp_socket_library.Address.{SocketAddress, address_size, create_tcp_hints, resolve_to_addresses}
use cpp_socket_library.Socket
use cpp_socket_library.TcpSocket.{
  TcpSocket, close, try_address, connect_loop, construct_socket, from_hostname,
}

module _ {W : Type 0} (os : Os W) (hints : AddrInfo) where
  abbrev descriptor_for : SocketAddress → W → ℤ × W
  descriptor_for a w = os.socket (pos a.sa_family) hints.ai_socktype hints.ai_protocol w

  abbrev connection_to : SocketAddress → W → ℤ × W
  connection_to a w = os.connect (descriptor_for a w).0 a address_size (descriptor_for a w).1

  -- The system gives a descriptor for the address, and connects it.
  abbrev pub accepts : SocketAddress → W → Bool
  accepts a w = not (is_invalid_socket (descriptor_for a w).0) && eq_ℤ (connection_to a w).0 (pos 0)

  -- The system after an attempt that failed: it was asked to connect only where there was a
  -- descriptor, and to close in any case.
  abbrev pub after_attempt : SocketAddress → W → W
  after_attempt a w =
      if is_invalid_socket (descriptor_for a w).0
      then (os.close (descriptor_for a w).0 (descriptor_for a w).1).1
      else (os.close (descriptor_for a w).0 (connection_to a w).1).1

  -- Each of the addresses was refused, one after the other.
  pub data AllRefused : List SocketAddress → W → W → Type 0 where
    nothing : {w : W} → AllRefused [] w w
    refused :
        {a : SocketAddress} {rest : List SocketAddress} {w w' : W}
        → accepts a w ≡ false
        → AllRefused rest (after_attempt a w) w'
        → AllRefused (a ∷ rest) w w'

  -- The object holds a connection to the first address that was not refused.
  pub record FirstAccepted (addresses : List SocketAddress) (w : W) (t : TcpSocket) (w' : W)
      : Type 0 where
    pub refused_before : List SocketAddress
    pub untried : List SocketAddress
    pub split : addresses ≡ refused_before ++ t.server_address ∷ untried
    pub reached : W
    pub before : AllRefused refused_before w reached
    pub accepted : accepts t.server_address reached ≡ true
    pub holds : t.socket_descriptor ≡ (descriptor_for t.server_address reached).0
    pub final : w' ≡ (connection_to t.server_address reached).1

  abbrev pub NoneAccepted : List SocketAddress → W → Exception → W → Type 0
  NoneAccepted addresses w e w' = (e ≡ socket_exception) × AllRefused addresses w w'

  -- What follows for a list whose first address was refused.
  after_refusal :
      (a : SocketAddress) (rest : List SocketAddress) (w w₁ : W)
      → accepts a w ≡ false
      → after_attempt a w ≡ w₁
      → {r : Run W TcpSocket} → Ends (FirstAccepted rest w₁) (NoneAccepted rest w₁) r
      → Ends (FirstAccepted (a ∷ rest) w) (NoneAccepted (a ∷ rest) w) r
  after_refusal a rest w w₁ down e ends =
      Ends.mono ends
        (λ t w' f. record {
          refused_before = a ∷ f.refused_before;
          untried = f.untried;
          split = ap (◌∷◌ a) f.split;
          reached = f.reached;
          before = refused down (rw e f.before);
          accepted = f.accepted;
          holds = f.holds;
          final = f.final;
        })
        (λ x w' n. (n.0, refused down (rw e n.1)))

  connect_loop-order :
      (t : TcpSocket) (addresses : List SocketAddress) (w : W)
      → Ends
          (FirstAccepted addresses w)
          (NoneAccepted addresses w)
          (connect_loop os t hints addresses w)
  unfolding connect_loop try_address close Socket.close
  connect_loop-order t [] w = threw (refl, nothing)
  connect_loop-order t (a ∷ rest) w =
      let d = descriptor_for a w in
      let c = connection_to a w in
      let shut = get_invalid_socket_value in
      elim (Bool-cases (is_invalid_socket d.0)) [
        | inl bad ↦ rw bad (
            after_refusal a rest w (os.close d.0 d.1).1 (rw bad refl) (rw bad refl) (
              connect_loop-order (record t { socket_descriptor = shut }) rest (os.close d.0 d.1).1))
        | inr good ↦ rw good (elim (Bool-cases (eq_ℤ c.0 (pos 0))) [
          | inl up ↦ rw up (
              returned (record {
                refused_before = [];
                untried = rest;
                split = refl;
                reached = w;
                before = nothing;
                accepted = rw (good, up) refl;
                holds = refl;
                final = refl;
              }))
          | inr down ↦ rw down (
              after_refusal a rest w (os.close d.0 c.1).1 (rw (good, down) refl) (rw good refl) (
                connect_loop-order (record t { socket_descriptor = shut }) rest
                  (os.close d.0 c.1).1))
        ])
      ]

module _ {W : Type 0} (os : Os W) where
  -- Where the host name resolves, the constructor tries the addresses in the order in which they
  -- came, and ends. It returns an object that holds the connection to the first one that the system
  -- gives a descriptor for and connects, with every address before it refused and its descriptor
  -- closed; no address behind it is tried. Or it throws a `SocketException`, and then all were
  -- refused.
  pub from_hostname-order :
      (hostname : Bytes) (port : ℕ) (version : InternetProtocolVersion) (w : W)
      (addresses : List SocketAddress) (w₁ : W)
      → let hints = create_tcp_hints version 0 in
        resolve_to_addresses os hostname port hints w ≡ ok (addresses, pos 0) w₁
        → Ends
            (FirstAccepted os hints addresses w₁)
            (NoneAccepted os hints addresses w₁)
            (from_hostname os hostname port version w)
  unfolding from_hostname construct_socket
  from_hostname-order hostname port version w addresses w₁ resolved =
      rw resolved (connect_loop-order os (create_tcp_hints version 0) _ addresses w₁)
