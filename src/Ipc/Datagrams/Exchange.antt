-- ===== src/Ipc/Datagrams/Exchange.antt =====
-- Messages from one datagram socket on a path to another.
use cpp_socket_library.Prelude.{
  ℕ, ◌^◌, ◌≤◌, ◌<◌, ◌≡◌, refl, ap, ◌∙◌, true, some, List, [], ◌∷◌, ◌++◌, length, take, take-append,
  length-append, length-take, All, Bytes, ℤ, pos, minus_one, to_size-to_int, arith,
}
use cpp_socket_library.System.{Os}
use cpp_socket_library.System.Laws.{IsMailbox}
use cpp_socket_library.System.Returns
use cpp_socket_library.System.Returns.{Returns, returns}
use cpp_socket_library.Protocol.{af_unix}
use cpp_socket_library.Address.{sock_dgram}
use cpp_socket_library.Socket
use cpp_socket_library.ConnectionLess.{SendsQuietly}
use cpp_socket_library.ConnectionLess.Exchange.{
  Carries, IsShort, exchange, carried, sent_codes, cut_messages, exchange-queue,
}
use cpp_socket_library.Ipc.SocketPath.{fit_path, unix_address, sockaddr_un_size}
use cpp_socket_library.Ipc.Datagrams.{DatagramIpcSocket, send_to, send_string_to}
use cpp_socket_library.Ipc.Datagrams.Valid.{receive_from-cut}
use cpp_socket_library.Ipc.Datagrams.Contract.{datagram_socket}

module _ {W : Type 0} (os : Os W) (queue : W → List Bytes) (usable : W → ℤ → Type 0)
    (sender receiver : DatagramIpcSocket W) (path : Bytes) (flags : ℤ) (limit depth : ℕ)
    (mailbox : IsMailbox os queue usable
      (pos af_unix)
      sock_dgram
      0
      (unix_address (fit_path path))
      sockaddr_un_size
      receiver.receive_socket
      flags
      limit
      depth)
    (quiet : SendsQuietly queue usable sender.pre_send_socket_operation) where
  -- The call of the system decides, on a descriptor that can send; the terminator behind the string
  -- is not sent.
  send_string_to-decided :
      (message : Bytes) (w : W) (code : ℤ) (after : List Bytes → List Bytes)
      → IsShort message
      → ((fd : ℤ) (w₁ : W)
          → usable w₁ fd
          → queue w₁ ≡ queue w
          → let s =
              os.sendto fd
                (message ++ 0 ∷ [])
                (length message)
                flags
                (unix_address (fit_path path))
                sockaddr_un_size
                w₁ in
            (s.0 ≡ code) × (queue s.1 ≡ after (queue w₁)))
      → Returns
          (λ r w'. (r ≡ code) × (queue w' ≡ after (queue w)))
          (send_string_to os sender path message flags w)
  unfolding send_string_to send_to Socket.close
  send_string_to-decided message w code after short decided =
      let r = os.socket (pos af_unix) sock_dgram 0 w in
      let n = length message in
      rw (to_size-to_int n short, mailbox.available w)
        (Returns.bind (quiet r.0 r.1 (mailbox.opens_usable w)) λ d w₁ (e, kept, able). rw e (
          let s =
            os.sendto r.0 (message ++ 0 ∷ []) n flags (unix_address (fit_path path))
              sockaddr_un_size w₁ in
          let same = kept ∙ mailbox.socket_keeps w in
          let p = decided r.0 w₁ able same in
          returns (p.0, mailbox.close_keeps r.0 s.1 (mailbox.in_use w) ∙ p.1 ∙ ap after same)))

  within_text : (m : Bytes) → length m ≤ length (m ++ 0 ∷ [])
  within_text m = omega (arith, length-append m (0 ∷ []))

  datagram_socket-Carries :
      (n : ℕ) (own_path : Bytes)
      → receiver.bound ≡ true
      → receiver.socket_path ≡ some own_path
      → 0 < n
      → n < 2 ^ 31
      → Carries (datagram_socket os) queue sender receiver path flags limit depth n
  datagram_socket-Carries n own_path bound held positive small = record {
    sends = λ m w short fits room.
        send_string_to-decided m w (pos (length m)) (λ q. q ++ m ∷ []) short
          λ fd w₁ able same.
            let p =
              mailbox.arrives fd (m ++ 0 ∷ []) (length m) w₁ able (within_text m) fits
                (omega (arith, room, ap length same)) in
            (p.0, p.1 ∙ ap (λ t. queue w₁ ++ t ∷ []) (take-append m (0 ∷ [])));
    refuses = λ m w short long.
        send_string_to-decided m w minus_one (λ q. q) short
          λ fd w₁ able same.
            mailbox.too_long fd (m ++ 0 ∷ []) (length m) w₁ able (within_text m) long;
    receives = λ w m rest at.
        let p = mailbox.received n w m rest at in
        rw
          (receive_from-cut os receiver own_path n (length (take n m)) flags w bound held positive
            (omega arith) p.0 (ap length p.1) (omega (arith, length-take n m)))
          (returns (rw p.1 refl, refl, p.2));
  }

  -- Messages that one datagram socket sends to the path of another, if none is lost and they stay
  -- in order: `sendTo` answers the length of each message up to the limit of the system, without
  -- the terminator of the string, and -1 for a longer one, which is not sent. As many calls of
  -- `receiveFrom` as messages were sent return these: one for each call, in order, each cut to the
  -- length that is asked for, with its length after the cut as the code, and absent where it is
  -- empty; and no message is left over. The receiver is bound to a path, nothing was to be received
  -- before and all that is sent finds room, the length asked for is positive and fits an `int`, as
  -- does that of each message, and the operation before sending keeps the descriptor and receives
  -- nothing.
  pub ipc_exchange-queue :
      (n : ℕ) (own_path : Bytes) (messages : List Bytes) (w : W)
      → receiver.bound ≡ true
      → receiver.socket_path ≡ some own_path
      → 0 < n
      → n < 2 ^ 31
      → All IsShort messages
      → length (carried limit messages) ≤ depth
      → queue w ≡ []
      → Returns
          (λ r w'.
            (r ≡ (sent_codes limit messages, cut_messages n (carried limit messages)))
            × (queue w' ≡ []))
          (exchange
            (datagram_socket os)
            sender
            receiver
            path
            (pos n)
            flags
            (length (carried limit messages))
            messages
            w)
  ipc_exchange-queue n own_path messages w bound held positive small short room idle =
      exchange-queue (datagram_socket os) queue sender receiver path flags limit depth n
        (datagram_socket-Carries n own_path bound held positive small) messages w short room idle
