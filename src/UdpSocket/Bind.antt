-- ===== src/UdpSocket/Bind.antt =====
-- Binding a second time, and failures of `bind`.
use cpp_socket_library.Prelude.{ℕ, ◌≡◌, refl, ◌∙◌, Bool, true, false, none, some, ℤ, pos, minus_one}
use cpp_socket_library.Errors.{is_invalid_socket}
use cpp_socket_library.Protocol.{from_family}
use cpp_socket_library.System.{Os}
use cpp_socket_library.System.Laws.{IsLedger}
use cpp_socket_library.System.Table.{SameTable, socket-Opens, close-Opens}
use cpp_socket_library.System.Returns.{Returns, returns}
use cpp_socket_library.Address.{
  SocketAddress, zero_address, sock_dgram, ipproto_udp, get_address_length,
}
use cpp_socket_library.Socket
use cpp_socket_library.UdpSocket.{UdpSocket, close, bind_receive_socket, bind_address}
use cpp_socket_library.UdpSocket.Valid.{closed}

-- No socket can be bound through the invalid descriptor.
abbrev pub InvalidRefused : {W : Type 0} → Os W → Type 0
InvalidRefused {W} os =
    (a : SocketAddress) (n : ℕ) (w : W) → (os.bind minus_one a n w).0 ≡ minus_one

module _ {W : Type 0} (os : Os W) where
  -- Binding a bound socket again, without an operation before binding, fails: `bind` closes the
  -- descriptor that it has just opened instead of the old one, and binds the invalid descriptor.
  -- The answer is -1 and the zero address, the socket is no longer bound, and the old descriptor,
  -- which no field holds any more, is still open.
  pub bind_address-again :
      (is_open : W → ℤ → Bool)
      → IsLedger os is_open
      → InvalidRefused os
      → (address : SocketAddress) (u : UdpSocket W) (w : W) → u.bound ≡ true
      → is_open w u.receive_socket ≡ true
      → is_invalid_socket (os.socket (pos address.sa_family) sock_dgram ipproto_udp w).0 ≡ false
      → Returns
          (λ r s.
            (r ≡ (minus_one, zero_address))
            × (s.0 ≡ record (closed u) { protocol_version = from_family address.sa_family })
            × SameTable is_open w s.1
            × (is_open s.1 u.receive_socket ≡ true))
          (bind_address os (some address) none (u, w))
  unfolding bind_address bind_receive_socket close Socket.close
  bind_address-again is_open law refused address u w old used good =
      let f = pos address.sa_family in
      let r = os.socket f sock_dgram ipproto_udp w in
      let back =
        close-Opens is_open os law r.0
          (socket-Opens is_open os law f sock_dgram ipproto_udp w good) in
      let n = get_address_length address in
      let w₂ = (os.close r.0 r.1).1 in
      let same : SameTable is_open w (os.bind minus_one address n w₂).1 =
        λ d. law.bind_keeps minus_one address n w₂ d ∙ back d in
      rw (good, old, refused address n w₂)
        (returns (refl, refl, same, same u.receive_socket ∙ used))

  -- A socket that is not bound, where the system refuses the address: `bind` throws nothing. It
  -- answers -1 with the zero address, and the new descriptor stays in the object, unbound.
  pub bind_address-refused :
      (address : SocketAddress) (u : UdpSocket W) (w : W)
      → u.bound ≡ false
      → let r = os.socket (pos address.sa_family) sock_dgram ipproto_udp w in
        is_invalid_socket r.0 ≡ false
        → (os.bind r.0 address (get_address_length address) r.1).0 ≡ minus_one
        → Returns
            (λ a s.
              (a ≡ (minus_one, zero_address))
              × (s.0.bound ≡ false)
              × (s.0.receive_socket ≡ r.0)
              × (s.0.listening_port ≡ u.listening_port))
            (bind_address os (some address) none (u, w))
  unfolding bind_address bind_receive_socket
  bind_address-refused address u w new good refused =
      rw (good, new, refused) (returns (refl, refl, refl, refl))
