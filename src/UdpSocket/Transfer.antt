-- ===== src/UdpSocket/Transfer.antt =====
-- Sending and receiving datagrams.
use cpp_socket_library.Prelude.{
  ℕ, suc, ◌^◌, ◌<◌, ◌≤◌, ◌≡◌, refl, sym, ap, Bool, true, false, some, length, replicate, Bytes,
  write_at, ◌==◌, ◌%◌, ℤ, pos, minus_one, is_positive, to_size, arith,
}
use cpp_socket_library.System.Ends.{Ends}
use cpp_socket_library.Errors.{Exception, is_invalid_socket}
use cpp_socket_library.System.{Os, ok}
use cpp_socket_library.System.Laws.{IsLedger, IsDatagramReceiver}
use cpp_socket_library.System.Table.{SameTable}
use cpp_socket_library.System.Returns.{Returns}
use cpp_socket_library.Address.{
  SocketAddress, zero_address, sock_dgram, ipproto_udp, get_address_length,
}
use cpp_socket_library.Socket
use cpp_socket_library.Socket.{poll_time}
use cpp_socket_library.ConnectionLess.{SendsSafely, SendsGently}
use cpp_socket_library.ConnectionLess.Sending.{Stranded, Transmitted, sending-Ends, sending-Returns}
use cpp_socket_library.UdpSocket.{
  UdpSocket, poll_socket, ready, send_to, receive_buffer_from, receive_from,
}
use cpp_socket_library.Datagram.{cut_to, non_empty, cut_to-write_at}

module _ {W : Type 0} (os : Os W) where
  -- `ready` of a datagram socket never waits: for a socket that is bound to a valid descriptor it
  -- asks the system with a time of zero, whatever the timeout, and so the timeout makes no
  -- difference.
  pub ready-timeout :
      (u : UdpSocket W) (timeout : ℕ) (w : W)
      → u.bound ≡ true
      → is_invalid_socket u.receive_socket ≡ false
      → let r = os.select u.receive_socket (record { tv_sec = pos 0; tv_usec = pos 0 }) w in
        (ready os u timeout w ≡ ok (is_positive r.0) r.1)
        × ((other : ℕ) → ready os u timeout w ≡ ready os u other w)
  unfolding ready poll_socket Socket.poll_socket poll_time
  ready-timeout u timeout w bound valid = (rw (bound, valid) refl, λ other. refl)

  module _ (is_open : W → ℤ → Bool) (law : IsLedger os is_open) (u : UdpSocket W)
      (address : SocketAddress) (buffer : Bytes) (buffer_length flags : ℤ) where
    -- The call of the system, on a descriptor.
    abbrev pub transmit : ℤ → W → ℤ × W
    transmit fd =
        os.sendto fd buffer (to_size buffer_length) flags address (get_address_length address)

    transmit_keeps : (fd : ℤ) (w : W) → SameTable is_open w (transmit fd w).1
    transmit_keeps fd =
        law.sendto_keeps fd buffer (to_size buffer_length) flags address
          (get_address_length address)

    abbrev pub Left : W → Exception → W → Type 0
    Left =
        Stranded os is_open law (pos address.sa_family) sock_dgram ipproto_udp
          u.pre_send_socket_operation transmit

    abbrev pub Done : W → ℤ → W → Type 0
    Done =
        Transmitted os is_open law (pos address.sa_family) sock_dgram ipproto_udp
          u.pre_send_socket_operation transmit

    pub send_to-Ends :
        SendsGently is_open u.pre_send_socket_operation
        → (w : W) → Ends (Done w) (Left w) (send_to os u address buffer buffer_length flags w)
    unfolding send_to
    send_to-Ends gentle w =
        sending-Ends os is_open law (pos address.sa_family) sock_dgram ipproto_udp
          u.pre_send_socket_operation transmit transmit_keeps gentle w

    -- Sending a datagram returns and leaves the table of descriptors as it was: the descriptor that
    -- it opens is closed again, whatever the result, if the operation before sending keeps to that
    -- too. With no descriptor to be had the result is -2, and otherwise it is that of the system.
    pub send_to-same :
        SendsSafely is_open u.pre_send_socket_operation
        → (w : W) → Returns (Done w) (send_to os u address buffer buffer_length flags w)
    unfolding send_to
    send_to-same safe w =
        sending-Returns os is_open law (pos address.sa_family) sock_dgram ipproto_udp
          u.pre_send_socket_operation transmit transmit_keeps safe w

  pub receive_from-cut :
      (u : UdpSocket W) (n k : ℕ) (flags : ℤ) (w : W)
      → u.bound ≡ true
      → 0 < n
      → n < 2 ^ 64
      → let r = os.recvfrom u.receive_socket n flags w in
        r.0.0 ≡ pos k
        → length r.0.1 ≡ k
        → k ≤ n
        → receive_from os u (pos n) flags w ≡ ok (non_empty r.0.1, (pos k, r.0.2)) r.1
  unfolding receive_from receive_buffer_from
  receive_from-cut u n k flags w bound positive small code counted within =
      let asked : (n == 0) ≡ false = ground arith in
      let size : n % 2 ^ 64 ≡ n = omega arith in
      let r = os.recvfrom u.receive_socket n flags w in
      let cut : cut_to (pos k) (pos n) (write_at (replicate n 0) 0 r.0.1) ≡ r.0.1 =
        rw (sym counted) (cut_to-write_at n r.0.1 (omega arith)) in
      rw (bound, asked, size, code) (ap (λ (t : Bytes). ok (non_empty t, (pos k, r.0.2)) r.1) cut)

  -- A bound datagram socket returns just the bytes of the datagram that the system wrote, with its
  -- code and the sender's address: no byte of the zeroed string is left behind them, and an empty
  -- datagram is an absent string. The length asked for is positive, and the call succeeds.
  pub receive_from-datagram :
      (u : UdpSocket W) (n k : ℕ) (flags : ℤ) (w : W)
      → IsDatagramReceiver os u.receive_socket flags
      → u.bound ≡ true
      → 0 < n
      → n < 2 ^ 64
      → let r = os.recvfrom u.receive_socket n flags w in
        r.0.0 ≡ pos k → receive_from os u (pos n) flags w ≡ ok (non_empty r.0.1, (pos k, r.0.2)) r.1
  receive_from-datagram u n k flags w law bound positive small code =
      receive_from-cut u n k flags w bound positive small code (law.counted n k w code)
        (law.within n k w code)

  -- `receiveFrom` on a datagram socket that is not bound answers -1 and the zero address, and yet
  -- returns a string: as many NUL bytes as were asked for. Nothing is received.
  pub receive_from-unbound :
      (u : UdpSocket W) (n : ℕ) (flags : ℤ) (w : W)
      → u.bound ≡ false
      → receive_from os u (pos (suc n)) flags w
        ≡ ok (some (replicate (suc n) 0), (minus_one, zero_address)) w
  unfolding receive_from receive_buffer_from
  receive_from-unbound u n flags w unbound = rw unbound refl
