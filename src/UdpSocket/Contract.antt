-- ===== src/UdpSocket/Contract.antt =====
-- The UDP socket as an implementation of the interface of datagram sockets.
use cpp_socket_library.Prelude.{
  ℕ, ◌≡◌, refl, ap, ◌∙◌, inl, inr, Bool, false, Option, none, ℤ, pos, minus_one, eq_ℤ, Bool-cases,
  is_nonneg,
}
use cpp_socket_library.Errors.{length_error, is_invalid_socket}
use cpp_socket_library.System.{Os}
use cpp_socket_library.System.Laws.{IsLedger}
use cpp_socket_library.System.Returns
use cpp_socket_library.System.Returns.{Returns, returns}
use cpp_socket_library.System.Ends
use cpp_socket_library.System.Ends.{Ends, returned, threw}
use cpp_socket_library.Address.{SocketAddress, zero_address, get_port_number}
use cpp_socket_library.Address.Resolve.{IsFull}
use cpp_socket_library.Socket
use cpp_socket_library.ConnectionLess.{
  ConnectionLessSocket, SendsSafely, is_some, IsConnectionLess, Tells-of_code,
}
use cpp_socket_library.UdpSocket
use cpp_socket_library.UdpSocket.{UdpSocket, Answer}
use cpp_socket_library.UdpSocket.Valid.{IsValid, bind_address-Answered}
use cpp_socket_library.UdpSocket.Transfer.{send_to-same}

abbrev pub port_of : {W : Type 0} → UdpSocket W → Option ℕ
port_of u = u.listening_port

module _ {W : Type 0} (os : Os W) where
  abbrev pub udp_socket : ConnectionLessSocket W (UdpSocket W) SocketAddress
  udp_socket = record {
    bind = UdpSocket.bind_address os;
    is_bound = λ u. u.bound;
    ready = UdpSocket.ready os;
    send_string_to = UdpSocket.send_string_to os;
    send_to = UdpSocket.send_to os;
    receive_from = UdpSocket.receive_from os;
    receive_buffer_from = UdpSocket.receive_buffer_from os;
    close = UdpSocket.close os;
  }

  unbound_of_none : (u : UdpSocket W) → IsValid os u → u.listening_port ≡ none → u.bound ≡ false
  unbound_of_none u v idle = v ∙ ap is_some idle

  ready-bound :
      (u : UdpSocket W) (t : ℕ) (w : W)
      → IsValid os u
      → Returns (λ b w'. u.listening_port ≡ none → b ≡ false) (UdpSocket.ready os u t w)
  unfolding UdpSocket.ready UdpSocket.poll_socket Socket.poll_socket
  ready-bound u t w v = elim (Bool-cases u.bound) [
    | inl b ↦ elim (Bool-cases (is_invalid_socket u.receive_socket)) [
      | inl bad ↦ rw (b, bad) (returns λ _. refl)
      | inr good ↦ rw (b, good) (returns λ idle. cc (b, unbound_of_none u v idle))
    ]
    | inr b ↦ rw b (returns λ _. refl)
  ]

  receive_from-bound :
      (u : UdpSocket W) (n g : ℤ) (w : W)
      → IsValid os u
      → Ends
          (λ r w'. u.listening_port ≡ none → r.1 ≡ (minus_one, zero_address))
          (λ e w'. (e ≡ length_error) × (is_nonneg n ≡ false))
          (UdpSocket.receive_from os u n g w)
  unfolding UdpSocket.receive_from UdpSocket.receive_buffer_from
  receive_from-bound u n g w v = elim (Bool-cases (is_nonneg n)) [
    | inr negative ↦ rw negative (threw (refl, refl))
    | inl long ↦ elim (Bool-cases u.bound) [
      | inr b ↦ rw (long, b) (returned λ _. refl)
      | inl b ↦ elim (Bool-cases (eq_ℤ n (pos 0))) [
        | inl empty ↦ rw (long, b, empty) (returned λ _. refl)
        | inr full ↦ rw (long, b, full) (returned λ idle. cc (b, unbound_of_none u v idle))
      ]
    ]
  ]

  module _ (is_open : W → ℤ → Bool) (law : IsLedger os is_open) where
    -- Valid, with an operation before sending that is harmless.
    abbrev pub IsSafe : UdpSocket W → Type 0
    IsSafe u = IsValid os u × SendsSafely is_open u.pre_send_socket_operation

    -- The UDP socket keeps the promise of `ConnectionLessSocket`, where the place that a socket is
    -- bound to is its listening port and the addresses to bind to are whole unions. Valid is a
    -- socket that has a listening port exactly when it is bound, with an operation before sending
    -- that keeps the descriptor and the table of descriptors.
    pub udp_socket-IsConnectionLess :
        IsConnectionLess is_open IsSafe port_of zero_address get_port_number IsFull udp_socket
    unfolding UdpSocket.bind_address UdpSocket.close Socket.close
    udp_socket-IsConnectionLess = record {
      bound_somewhere = λ u v. v.0;
      bind_tells = λ a f u w full ends v.
          Ends.mono (bind_address-Answered os a f ends u w v.0)
            (λ r s x. (
              (x.valid, rw x.kept v.1),
              Tells-of_code zero_address get_port_number s.0.bound r s.0.listening_port x.valid
                  x.code x.unbound (λ b. x.numbered b full),
            ))
            (λ e s x. ((x.0, rw x.2 v.1), x.1));
      bind_nowhere = λ f u w. threw refl;
      close_frees = λ u w v. returns ((refl, v.1), refl);
      ready_bound = λ u t w v. ready-bound u t w v.0;
      send_same =
          λ u a b n g w v. Returns.mono (send_to-same os is_open law u a b n g v.1 w) λ r w' p. p.0;
      receive_bound = λ u n g w v. receive_from-bound u n g w v.0;
    }
