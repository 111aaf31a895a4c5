-- ===== src/UdpSocket/Exchange.antt =====
-- Messages from one UDP socket to another.
use cpp_socket_library.Prelude.{
  ℕ, ◌^◌, ◌<◌, ◌≡◌, refl, ap, ◌∙◌, true, List, [], ◌∷◌, ◌++◌, length, take, take_all, length-take,
  All, Bytes, ℤ, pos, minus_one, ◌≤◌, to_size-to_int, arith,
}
use cpp_socket_library.System.{Os}
use cpp_socket_library.System.Laws.{IsMailbox}
use cpp_socket_library.System.Returns
use cpp_socket_library.System.Returns.{Returns, returns}
use cpp_socket_library.Address.{SocketAddress, sock_dgram, ipproto_udp, get_address_length}
use cpp_socket_library.Socket
use cpp_socket_library.ConnectionLess.{SendsQuietly}
use cpp_socket_library.ConnectionLess.Exchange.{
  Carries, IsShort, exchange, carried, sent_codes, cut_messages, exchange-queue,
}
use cpp_socket_library.UdpSocket.{UdpSocket, send_to, send_string_to}
use cpp_socket_library.UdpSocket.Transfer.{receive_from-cut}
use cpp_socket_library.UdpSocket.Contract.{udp_socket}

module _ {W : Type 0} (os : Os W) (queue : W → List Bytes) (usable : W → ℤ → Type 0)
    (sender receiver : UdpSocket W) (address : SocketAddress) (flags : ℤ) (limit depth : ℕ)
    (mailbox : IsMailbox os queue usable
      (pos address.sa_family)
      sock_dgram
      ipproto_udp
      address
      (get_address_length address)
      receiver.receive_socket
      flags
      limit
      depth)
    (quiet : SendsQuietly queue usable sender.pre_send_socket_operation) where
  -- The call of the system decides, on a descriptor that can send.
  send_string_to-decided :
      (message : Bytes) (w : W) (code : ℤ) (after : List Bytes → List Bytes)
      → IsShort message
      → ((fd : ℤ) (w₁ : W)
          → usable w₁ fd
          → queue w₁ ≡ queue w
          → let s =
              os.sendto fd message (length message) flags address (get_address_length address) w₁ in
            (s.0 ≡ code) × (queue s.1 ≡ after (queue w₁)))
      → Returns
          (λ r w'. (r ≡ code) × (queue w' ≡ after (queue w)))
          (send_string_to os sender address message flags w)
  unfolding send_string_to send_to Socket.close
  send_string_to-decided message w code after short decided =
      let r = os.socket (pos address.sa_family) sock_dgram ipproto_udp w in
      let n = length message in
      rw (to_size-to_int n short, mailbox.available w)
        (Returns.bind (quiet r.0 r.1 (mailbox.opens_usable w)) λ d w₁ (e, kept, able). rw e (
          let s = os.sendto r.0 message n flags address (get_address_length address) w₁ in
          let same = kept ∙ mailbox.socket_keeps w in
          let p = decided r.0 w₁ able same in
          returns (p.0, mailbox.close_keeps r.0 s.1 (mailbox.in_use w) ∙ p.1 ∙ ap after same)))

  udp_socket-Carries :
      (n : ℕ)
      → receiver.bound ≡ true
      → 0 < n
      → n < 2 ^ 31
      → Carries (udp_socket os) queue sender receiver address flags limit depth n
  udp_socket-Carries n bound positive small = record {
    sends = λ m w short fits room.
        send_string_to-decided m w (pos (length m)) (λ q. q ++ m ∷ []) short
          λ fd w₁ able same.
            let p =
              mailbox.arrives fd m (length m) w₁ able (omega arith) fits
                (omega (arith, room, ap length same)) in
            (p.0, p.1 ∙ ap (λ t. queue w₁ ++ t ∷ []) (take_all (length m) m (omega arith)));
    refuses = λ m w short long.
        send_string_to-decided m w minus_one (λ q. q) short
          λ fd w₁ able same. mailbox.too_long fd m (length m) w₁ able (omega arith) long;
    receives = λ w m rest at.
        let p = mailbox.received n w m rest at in
        rw
          (receive_from-cut os receiver n (length (take n m)) flags w bound positive (omega arith)
            p.0 (ap length p.1) (omega (arith, length-take n m)))
          (returns (rw p.1 refl, refl, p.2));
  }

  -- Messages that one UDP socket sends to the address of another, over a network that loses none
  -- and keeps their order: `sendTo` answers the length of each message up to the limit of the
  -- system, and -1 for a longer one, which is not sent. As many calls of `receiveFrom` as messages
  -- were sent return these: one for each call, in order, each cut to the length that is asked for,
  -- with its length after the cut as the code, and absent where it is empty; and no message is left
  -- over. The receiver is bound, nothing was to be received before and all that is sent finds
  -- room, the length asked for is positive and fits an `int`, as does that of each message, and the
  -- operation before sending keeps the descriptor and receives nothing.
  pub udp_exchange-queue :
      (n : ℕ) (messages : List Bytes) (w : W)
      → receiver.bound ≡ true
      → 0 < n
      → n < 2 ^ 31
      → All IsShort messages
      → length (carried limit messages) ≤ depth
      → queue w ≡ []
      → Returns
          (λ r w'.
            (r ≡ (sent_codes limit messages, cut_messages n (carried limit messages)))
            × (queue w' ≡ []))
          (exchange
            (udp_socket os)
            sender
            receiver
            address
            (pos n)
            flags
            (length (carried limit messages))
            messages
            w)
  udp_exchange-queue n messages w bound positive small short room idle =
      exchange-queue (udp_socket os) queue sender receiver address flags limit depth n
        (udp_socket-Carries n bound positive small) messages w short room idle
