-- ===== src/Ipc/Datagrams/Contract.antt =====
-- The datagram socket on a path as an implementation of the interface of datagram sockets.
use cpp_socket_library.Prelude.{
  ℕ, ◌≡◌, refl, sym, ap, ◌∙◌, inl, inr, Bool, true, false, Option, none, some, [], Bytes, ℤ, pos,
  minus_one, eq_ℤ, Bool-cases, is_nonneg,
}
use cpp_socket_library.Errors.{length_error, is_invalid_socket}
use cpp_socket_library.System.{Os, ok}
use cpp_socket_library.System.Laws.{IsLedger}
use cpp_socket_library.System.Returns
use cpp_socket_library.System.Returns.{Returns, returns}
use cpp_socket_library.System.Ends
use cpp_socket_library.System.Ends.{Ends, returned, threw}
use cpp_socket_library.Socket
use cpp_socket_library.ConnectionLess.{
  ConnectionLessSocket, SendsSafely, is_some, IsConnectionLess, Tells-of_code,
}
use cpp_socket_library.Ipc.Datagrams.Sends.{send_to-closes}
use cpp_socket_library.Ipc.SocketPath.{remove_socket_path}
use cpp_socket_library.Ipc.Datagrams
use cpp_socket_library.Ipc.Datagrams.{DatagramIpcSocket}
use cpp_socket_library.Ipc.Datagrams.Valid.{IsValid, some_of_is_some, bind_override-Answered}

abbrev pub path_of : {W : Type 0} → DatagramIpcSocket W → Option Bytes
path_of u = u.socket_path

-- The place that an answer of `bind` shows.
abbrev pub path_shown : Bytes → Bytes
path_shown path = path

module _ {W : Type 0} (os : Os W) where
  abbrev pub datagram_socket : ConnectionLessSocket W (DatagramIpcSocket W) Bytes
  datagram_socket = record {
    bind = Datagrams.bind os;
    is_bound = λ u. u.bound;
    ready = Datagrams.ready os;
    send_string_to = Datagrams.send_string_to os;
    send_to = Datagrams.send_to os;
    receive_from = Datagrams.receive_from os;
    receive_buffer_from = Datagrams.receive_buffer_from os;
    close = Datagrams.close os;
  }

  unbound_of_none :
      (u : DatagramIpcSocket W) → IsValid os u → u.socket_path ≡ none → u.bound ≡ false
  unbound_of_none u v idle = v ∙ ap is_some idle

  ready-bound :
      (u : DatagramIpcSocket W) (t : ℕ) (w : W)
      → IsValid os u
      → Returns (λ b w'. u.socket_path ≡ none → b ≡ false) (Datagrams.ready os u t w)
  unfolding Datagrams.ready Socket.poll_socket
  ready-bound u t w v = elim (Bool-cases u.bound) [
    | inl b ↦ elim (Bool-cases (is_invalid_socket u.receive_socket)) [
      | inl bad ↦ rw (b, bad) (returns λ _. refl)
      | inr good ↦ rw (b, good) (returns λ idle. cc (b, unbound_of_none u v idle))
    ]
    | inr b ↦ rw b (returns λ _. refl)
  ]

  receive_from-bound :
      (u : DatagramIpcSocket W) (n g : ℤ) (w : W)
      → IsValid os u
      → Ends
          (λ r w'. u.socket_path ≡ none → r.1 ≡ (minus_one, []))
          (λ e w'. (e ≡ length_error) × (is_nonneg n ≡ false))
          (Datagrams.receive_from os u n g w)
  unfolding Datagrams.receive_from Datagrams.receive_buffer_from
  receive_from-bound u n g w v = elim (Bool-cases (is_nonneg n)) [
    | inr negative ↦ rw negative (threw (refl, refl))
    | inl long ↦ elim (Bool-cases u.bound) [
      | inr b ↦ rw (long, b) (returned λ _. refl)
      | inl b ↦ elim (Bool-cases (eq_ℤ n (pos 0))) [
        | inl empty ↦ rw (long, b, empty) (returned λ _. refl)
        | inr full ↦
            let (path, e) = some_of_is_some u.socket_path (sym v ∙ b) in
            rw (long, b, full, e) (returned λ idle. cc)
      ]
    ]
  ]

  remove_bound-ok :
      (b : Bool) (path : Option Bytes) (w : W)
      → (w' : W) × (Datagrams.remove_bound os b path w ≡ ok tt w')
  unfolding remove_socket_path
  remove_bound-ok false path w = (w, refl)
  remove_bound-ok true none w = (w, refl)
  remove_bound-ok true (some path) w = (_, refl)

  close-frees :
      (u : DatagramIpcSocket W) (w : W)
      → Returns
          (λ _ s.
            IsValid os s.0
            × (s.0.socket_path ≡ none)
            × (s.0.pre_send_socket_operation ≡ u.pre_send_socket_operation))
          (Datagrams.close os (u, w))
  unfolding Datagrams.close Socket.close
  close-frees u w =
      let (w', e) = remove_bound-ok u.bound u.socket_path (os.close u.receive_socket w).1 in
      rw e (returns (refl, refl, refl))

  module _ (is_open : W → ℤ → Bool) (law : IsLedger os is_open) where
    -- Valid, with an operation before sending that is harmless.
    abbrev pub IsSafe : DatagramIpcSocket W → Type 0
    IsSafe u = IsValid os u × SendsSafely is_open u.pre_send_socket_operation

    -- The datagram socket on a path keeps the promise of `ConnectionLessSocket`, where the place
    -- that a socket is bound to is its path, and all paths can be bound to. Valid is a socket that
    -- has a path exactly when it is bound, with an operation before sending that keeps the
    -- descriptor and the table of descriptors.
    pub datagram_socket-IsConnectionLess :
        IsConnectionLess is_open IsSafe path_of [] path_shown (λ path. Unit {0}) datagram_socket
    unfolding Datagrams.bind Datagrams.bind_override
    datagram_socket-IsConnectionLess = record {
      bound_somewhere = λ u v. v.0;
      bind_tells = λ path f u w proper ends v.
          Ends.mono (bind_override-Answered os false path f ends u w v.0)
            (λ r s x. (
              (x.valid, rw x.kept v.1),
              Tells-of_code [] path_shown s.0.bound r s.0.socket_path x.valid x.code x.unbound
                  (λ b. (x.named b).1 ∙ ap some (sym (x.named b).0)),
            ))
            (λ e s x. ((x.0, rw x.2 v.1), x.1));
      bind_nowhere = λ f u w. threw refl;
      close_frees = λ u w v. Returns.mono (close-frees u w) λ x s p. ((p.0, rw p.2 v.1), p.1);
      ready_bound = λ u t w v. ready-bound u t w v.0;
      send_same = λ u path b n g w v. send_to-closes os is_open law u path b n g v.1 w;
      receive_bound = λ u n g w v. receive_from-bound u n g w v.0;
    }
