-- ===== src/UdpSocket/Orderly.antt =====
-- What the calls on a UDP socket do to the table of descriptors.
use cpp_socket_library.Prelude.{
  ◌≡◌, refl, inl, inr, Bool, true, false, Option, none, some, List, ℤ, pos, eq_ℤ, minus_one, ℕ,
  Bool-cases, arith, is_nonneg, not, ◌||◌, to_long, to_size,
}
use cpp_socket_library.Errors.{get_invalid_socket_value, is_invalid_socket}
use cpp_socket_library.Protocol.{from_family}
use cpp_socket_library.System.{Os}
use cpp_socket_library.System.Laws.{IsLedger}
use cpp_socket_library.System.Table.{
  SameTable, Opens, Opens-same, socket-Opens, socket-same, close-Opens,
}
use cpp_socket_library.System.Returns
use cpp_socket_library.System.Returns.{Returns, returns}
use cpp_socket_library.System.Ends
use cpp_socket_library.System.Ends.{Ends, returned, threw}
use cpp_socket_library.Address.{
  SocketAddress, sock_dgram, ipproto_udp, get_address_length, socket_to_address,
}
use cpp_socket_library.Socket
use cpp_socket_library.Socket.{poll_time}
use cpp_socket_library.TcpServer.{Operation}
use cpp_socket_library.ConnectionLess.{SendsSafely, SendsGently, Call, perform_each}
use cpp_socket_library.ConnectionLess.Orderly.{
  Holds, HoldsDescriptor, IsOrderly, perform_each-Holds,
}
use cpp_socket_library.UdpSocket.{
  UdpSocket, close, ready, poll_socket, initialise_listening_port_number, bind_receive_socket,
  bind_address, receive_from, receive_buffer_from,
}
use cpp_socket_library.UdpSocket.Contract.{udp_socket}
use cpp_socket_library.UdpSocket.Transfer.{send_to-same}

module _ {W : Type 0} (os : Os W) (is_open : W → ℤ → Bool) (law : IsLedger os is_open) where
  -- A socket without a descriptor is not bound, and the operation before sending is harmless.
  abbrev pub IsTidy : UdpSocket W → Type 0
  IsTidy u =
      (is_invalid_socket u.receive_socket ≡ true → u.bound ≡ false)
      × SendsSafely is_open u.pre_send_socket_operation

  abbrev receive_socket_of : UdpSocket W → ℤ
  receive_socket_of u = u.receive_socket

  abbrev pub Settled : W → UdpSocket W × W → Type 0
  Settled = Holds is_open IsTidy receive_socket_of

  Settled-Opens :
      (u : UdpSocket W) (w w' : W)
      → SendsSafely is_open u.pre_send_socket_operation
      → Opens is_open u.receive_socket w w'
      → Settled w (u, w')
  Settled-Opens u w w' safe opens = ((λ bad. cc (bad, opens.valid), safe), inr opens)

  bind_receive_socket-Settled :
      (address : SocketAddress) (u : UdpSocket W) (w w₁ : W)
      → SendsSafely is_open u.pre_send_socket_operation
      → Opens is_open u.receive_socket w w₁
      → Ends (λ r s. Settled w s) (λ e s. Settled w s) (bind_receive_socket os address (u, w₁))
  unfolding bind_receive_socket initialise_listening_port_number socket_to_address close
      Socket.close
  bind_receive_socket-Settled address u w w₁ safe opens =
      let n = get_address_length address in
      let r = os.bind u.receive_socket address n w₁ in
      let bound = Opens-same is_open opens (law.bind_keeps u.receive_socket address n w₁) in
      elim (Bool-cases (eq_ℤ r.0 minus_one)) [
        | inl refused ↦
            rw refused (returned (Settled-Opens (record u { bound = false }) w r.1 safe bound))
        | inr good ↦
            let k = os.getsockname u.receive_socket r.1 in
            let named = Opens-same is_open bound (law.getsockname_keeps u.receive_socket r.1) in
            elim (Bool-cases (eq_ℤ k.0.0 minus_one)) [
              | inl bad ↦
                  let code : eq_ℤ k.0.0 (pos 0) ≡ false = ground arith in
                  rw (good, bad, code)
                    (threw (
                      (λ _. refl, safe),
                      inl (refl, close-Opens is_open os law u.receive_socket named),
                    ))
              | inr fine ↦
                  rw (good, fine) (returned ((λ bad. cc (bad, opens.valid), safe), inr named))
            ]
      ]

  bind_address-Settled :
      (address : Option SocketAddress) (pre_bind : Option (Operation W)) (u : UdpSocket W) (w : W)
      → SendsGently is_open pre_bind
      → IsTidy u
      → is_invalid_socket u.receive_socket ≡ true
      → Ends (λ r s. Settled w s) (λ e s. Settled w s) (bind_address os address pre_bind (u, w))
  unfolding bind_address
  bind_address-Settled none pre_bind u w gentle tidy free = threw (tidy, inl (free, λ d. refl))
  bind_address-Settled (some address) pre_bind u w gentle tidy free =
      let f = pos address.sa_family in
      let r = os.socket f sock_dgram ipproto_udp w in
      let unbound = tidy.0 free in
      elim (Bool-cases (is_invalid_socket r.0)) [
        | inl bad ↦ rw bad (
            threw (
              (λ _. unbound, tidy.1),
              inl (bad, socket-same is_open os law f sock_dgram ipproto_udp w bad),
            ))
        | inr good ↦
            let opens = socket-Opens is_open os law f sock_dgram ipproto_udp w good in
            let u₁ : UdpSocket W = record u {
              bound = false;
              protocol_version = from_family address.sa_family;
              receive_socket = r.0;
            } in
            rw (good, unbound)
              (Ends.bind
                (Ends.mono (Ends.lift-Ends u₁ (gentle r.0 r.1)) (λ d s p. p)
                  (λ e s p. rw p.0 (Settled-Opens u₁ w s.1 tidy.1 (Opens-same is_open opens p.1))))
                λ d (u₂, w₂) (e, p).
                  rw (e, p.0)
                    (bind_receive_socket-Settled address u₁ w w₂ tidy.1
                      (Opens-same is_open opens p.1)))
      ]

  ready-same :
      (u : UdpSocket W) (t : ℕ) (w : W) → Returns (λ b w'. SameTable is_open w w') (ready os u t w)
  unfolding ready poll_socket Socket.poll_socket
  ready-same u t w = elim (Bool-cases u.bound) [
    | inr b ↦ rw b (returns λ d. refl)
    | inl b ↦ elim (Bool-cases (is_invalid_socket u.receive_socket)) [
      | inl bad ↦ rw (b, bad) (returns λ d. refl)
      | inr good ↦
          rw (b, good)
            (returns (
              law.select_keeps u.receive_socket
                (poll_time (to_long t) (some (record { tv_sec = pos 0; tv_usec = pos 0 }))) w))
    ]
  ]

  receive_from-same :
      (u : UdpSocket W) (n g : ℤ) (w : W)
      → Ends
          (λ r w'. SameTable is_open w w')
          (λ e w'. SameTable is_open w w')
          (receive_from os u n g w)
  unfolding receive_from receive_buffer_from
  receive_from-same u n g w = elim (Bool-cases (is_nonneg n)) [
    | inr negative ↦ rw negative (threw λ d. refl)
    | inl long ↦ elim (Bool-cases (not u.bound || eq_ℤ n (pos 0))) [
      | inl idle ↦ rw (long, idle) (returned λ d. refl)
      | inr busy ↦ rw (long, busy) (returned (law.recvfrom_keeps u.receive_socket (to_size n) g w))
    ]
  ]

  udp_socket-HoldsDescriptor : HoldsDescriptor is_open IsTidy receive_socket_of (udp_socket os)
  unfolding close Socket.close
  udp_socket-HoldsDescriptor = record {
    bind_holds = λ a f u w gentle tidy free. bind_address-Settled a f u w gentle tidy free;
    close_closes =
        λ u w tidy. returns ((λ _. refl, tidy.1), refl, λ d. law.close_closes u.receive_socket w d);
    ready_same = ready-same;
    send_same = λ u a b n g w tidy.
        Returns.mono (send_to-same os is_open law u a b n g tidy.1 w) λ r w' p. p.0;
    receive_same = receive_from-same;
  }

  -- A program with one UDP socket that at the start holds no descriptor calls `bind`, `close`,
  -- `ready`, `sendTo` and `receiveFrom` in any order, whatever the system answers, and catches what
  -- they throw; but between two calls of `bind` it calls `close`, and the operations before binding
  -- end, open and close no descriptor, and keep theirs where they return. The program returns, and
  -- leaves the socket with the one descriptor that is open and was not at the start, or with the
  -- invalid one where there is none such; the socket without a descriptor is not bound. Then
  -- `close` gives the table of descriptors back. The operation before sending is harmless, and the
  -- invalid descriptor is not open at the start.
  pub udp_socket-Holds :
      (calls : List (Call W SocketAddress)) (u : UdpSocket W) (w : W)
      → is_open w get_invalid_socket_value ≡ false
      → IsTidy u
      → is_invalid_socket u.receive_socket ≡ true
      → IsOrderly is_open true calls
      → Returns
          (λ seen s.
            Settled w s
            × Returns
                (λ x s'. (is_invalid_socket s'.0.receive_socket ≡ true) × SameTable is_open w s'.1)
                (close os s))
          (perform_each (udp_socket os) calls (u, w))
  udp_socket-Holds calls u w nothing tidy free orderly =
      perform_each-Holds is_open IsTidy receive_socket_of (udp_socket os) udp_socket-HoldsDescriptor
        w nothing calls true u w orderly ((tidy, inl (free, λ d. refl)), λ _. free)
