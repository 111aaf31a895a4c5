-- ===== src/Ipc/Datagrams/Orderly.antt =====
-- What the calls on a datagram socket on a path do to the table of descriptors.
use cpp_socket_library.Prelude.{
  ◌≡◌, refl, ◌∙◌, inl, inr, Bool, true, false, not, ◌||◌, Option, none, some, List, Bytes,
  until_nul, ℤ, pos, eq_ℤ, minus_one, ℕ, Bool-cases, Option-cases, is_nonneg, to_long, to_size,
}
use cpp_socket_library.Errors.{get_invalid_socket_value, is_invalid_socket}
use cpp_socket_library.Protocol.{af_unix}
use cpp_socket_library.System.{Os}
use cpp_socket_library.System.Laws.{IsLedger}
use cpp_socket_library.System.Table.{SameTable, Opens, Opens-same, socket-Opens, socket-same}
use cpp_socket_library.System.Returns.{Returns, returns}
use cpp_socket_library.System.Ends
use cpp_socket_library.System.Ends.{Ends, returned, threw}
use cpp_socket_library.Address.{sock_dgram}
use cpp_socket_library.Socket
use cpp_socket_library.Socket.{poll_time}
use cpp_socket_library.TcpServer.{Operation}
use cpp_socket_library.ServerSocket.{Closes}
use cpp_socket_library.ConnectionLess.{SendsSafely, SendsGently, Call, perform_each}
use cpp_socket_library.ConnectionLess.Orderly.{
  Holds, HoldsDescriptor, IsOrderly, perform_each-Holds,
}
use cpp_socket_library.Ipc.SocketPath.{fit_path, unix_address, sockaddr_un_size, remove_socket_path}
use cpp_socket_library.Ipc.Datagrams.{
  DatagramIpcSocket, close, ready, bind, bind_override, bind_receive_socket, remove_bound,
  receive_from, receive_buffer_from,
}
use cpp_socket_library.Ipc.Datagrams.Contract.{datagram_socket}
use cpp_socket_library.Ipc.Datagrams.Sends.{send_to-closes}

module _ {W : Type 0} (os : Os W) (is_open : W → ℤ → Bool) (law : IsLedger os is_open) where
  -- A socket without a descriptor is not bound, and the operation before sending is harmless.
  abbrev pub IsTidy : DatagramIpcSocket W → Type 0
  IsTidy u =
      (is_invalid_socket u.receive_socket ≡ true → u.bound ≡ false)
      × SendsSafely is_open u.pre_send_socket_operation

  abbrev receive_socket_of : DatagramIpcSocket W → ℤ
  receive_socket_of u = u.receive_socket

  abbrev pub Settled : W → DatagramIpcSocket W × W → Type 0
  Settled = Holds is_open IsTidy receive_socket_of

  Settled-Opens :
      (u : DatagramIpcSocket W) (w w' : W)
      → SendsSafely is_open u.pre_send_socket_operation
      → Opens is_open u.receive_socket w w'
      → Settled w (u, w')
  Settled-Opens u w w' safe opens = ((λ bad. cc (bad, opens.valid), safe), inr opens)

  bind_receive_socket-Settled :
      (path : Bytes) (u : DatagramIpcSocket W) (w w₁ : W)
      → SendsSafely is_open u.pre_send_socket_operation
      → Opens is_open u.receive_socket w w₁
      → Ends (λ r s. Settled w s) (λ e s. Settled w s) (bind_receive_socket os path (u, w₁))
  unfolding bind_receive_socket
  bind_receive_socket-Settled path u w w₁ safe opens =
      let a = unix_address path in
      let r = os.bind u.receive_socket a sockaddr_un_size w₁ in
      let bound =
        Opens-same is_open opens (law.bind_keeps u.receive_socket a sockaddr_un_size w₁) in
      elim (Bool-cases (eq_ℤ r.0 minus_one)) [
        | inl refused ↦
            rw refused (returned (Settled-Opens (record u { bound = false }) w r.1 safe bound))
        | inr good ↦ rw good (
            returned
              (Settled-Opens (record u { bound = true; socket_path = some path }) w r.1 safe bound))
      ]

  bind-Settled :
      (path : Option Bytes) (pre_bind : Option (Operation W)) (u : DatagramIpcSocket W) (w : W)
      → SendsGently is_open pre_bind
      → IsTidy u
      → is_invalid_socket u.receive_socket ≡ true
      → Ends (λ r s. Settled w s) (λ e s. Settled w s) (bind os path pre_bind (u, w))
  unfolding bind bind_override
  bind-Settled none pre_bind u w gentle tidy free = threw (tidy, inl (free, λ d. refl))
  bind-Settled (some path) pre_bind u w gentle tidy free =
      let f = pos af_unix in
      let r = os.socket f sock_dgram 0 w in
      let unbound = tidy.0 free in
      elim (Bool-cases (is_invalid_socket r.0)) [
        | inl bad ↦ rw bad (
            threw
              ((λ _. unbound, tidy.1), inl (bad, socket-same is_open os law f sock_dgram 0 w bad)))
        | inr good ↦
            let opens = socket-Opens is_open os law f sock_dgram 0 w good in
            let u₁ : DatagramIpcSocket W = record u { bound = false; receive_socket = r.0 } in
            rw (good, unbound)
              (Ends.bind
                (Ends.mono (Ends.lift-Ends u₁ (gentle r.0 r.1)) (λ d s p. p)
                  (λ e s p. rw p.0 (Settled-Opens u₁ w s.1 tidy.1 (Opens-same is_open opens p.1))))
                λ d (u₂, w₂) (e, p).
                  rw (e, p.0)
                    (bind_receive_socket-Settled (fit_path path) u₁ w w₂ tidy.1
                      (Opens-same is_open opens p.1)))
      ]

  -- The file is removed, and no descriptor is opened or closed.
  remove_bound-same :
      (bound : Bool) (path : Option Bytes) (w : W)
      → Returns (λ x w'. SameTable is_open w w') (remove_bound os bound path w)
  unfolding remove_socket_path
  remove_bound-same false path w = returns λ d. refl
  remove_bound-same true none w = returns λ d. refl
  remove_bound-same true (some path) w = returns (law.remove_keeps (until_nul path) w)

  close-Closes :
      (u : DatagramIpcSocket W) (w : W)
      → IsTidy u
      → Returns
          (λ x s.
            IsTidy s.0
            × (is_invalid_socket s.0.receive_socket ≡ true)
            × Closes is_open u.receive_socket w s.1)
          (close os (u, w))
  unfolding close Socket.close
  close-Closes u w tidy =
      let u₁ : DatagramIpcSocket W = record u { receive_socket = get_invalid_socket_value } in
      Ends.to_Returns (
        Ends.bind
          (Ends.mono
            (Ends.lift-Ends u₁ (
              Ends.of_Returns {E = λ e w'. ⊥}
                (remove_bound-same u.bound u.socket_path (os.close u.receive_socket w).1)))
            (λ x s p. p) (λ e s p. p.1))
          λ x s p.
            returned
              ((λ _. refl, tidy.1), refl, λ d. p.1 d ∙ law.close_closes u.receive_socket w d))

  ready-same :
      (u : DatagramIpcSocket W) (t : ℕ) (w : W)
      → Returns (λ b w'. SameTable is_open w w') (ready os u t w)
  unfolding ready Socket.poll_socket
  ready-same u t w = elim (Bool-cases u.bound) [
    | inr b ↦ rw b (returns λ d. refl)
    | inl b ↦ elim (Bool-cases (is_invalid_socket u.receive_socket)) [
      | inl bad ↦ rw (b, bad) (returns λ d. refl)
      | inr good ↦
          rw (b, good) (returns (law.select_keeps u.receive_socket (poll_time (to_long t) none) w))
    ]
  ]

  receive_from-same :
      (u : DatagramIpcSocket W) (n g : ℤ) (w : W)
      → Ends
          (λ r w'. SameTable is_open w w')
          (λ e w'. SameTable is_open w w')
          (receive_from os u n g w)
  unfolding receive_from receive_buffer_from
  receive_from-same u n g w = elim (Bool-cases (is_nonneg n)) [
    | inr negative ↦ rw negative (threw λ d. refl)
    | inl long ↦ elim (Bool-cases (not u.bound || eq_ℤ n (pos 0))) [
      | inl idle ↦ rw (long, idle) (returned λ d. refl)
      | inr busy ↦
          let keeps = law.recvfrom_keeps u.receive_socket (to_size n) g w in
          elim (Option-cases u.socket_path) [
            | inl lost ↦ rw (long, busy, lost) (threw keeps)
            | inr (path, at) ↦ rw (long, busy, at) (returned keeps)
          ]
    ]
  ]

  datagram_socket-HoldsDescriptor :
      HoldsDescriptor is_open IsTidy receive_socket_of (datagram_socket os)
  datagram_socket-HoldsDescriptor = record {
    bind_holds = bind-Settled;
    close_closes = close-Closes;
    ready_same = ready-same;
    send_same = λ u path b n g w tidy. send_to-closes os is_open law u path b n g tidy.1 w;
    receive_same = receive_from-same;
  }

  -- A program with one datagram socket on a path that at the start holds no descriptor calls
  -- `bind`, `close`, `ready`, `sendTo` and `receiveFrom` in any order, whatever the system answers,
  -- and catches what they throw; but between two calls of `bind` it calls `close`, and the
  -- operations before binding end, open and close no descriptor, and keep theirs where they return.
  -- The program returns, and leaves the socket with the one descriptor that is open and was not at
  -- the start, or with the invalid one where there is none such; the socket without a descriptor is
  -- not bound. Then `close` gives the table of descriptors back. The operation before sending is
  -- harmless, and the invalid descriptor is not open at the start.
  pub datagram_socket-Holds :
      (calls : List (Call W Bytes)) (u : DatagramIpcSocket W) (w : W)
      → is_open w get_invalid_socket_value ≡ false
      → IsTidy u
      → is_invalid_socket u.receive_socket ≡ true
      → IsOrderly is_open true calls
      → Returns
          (λ seen s.
            Settled w s
            × Returns
                (λ x s'. (is_invalid_socket s'.0.receive_socket ≡ true) × SameTable is_open w s'.1)
                (close os s))
          (perform_each (datagram_socket os) calls (u, w))
  datagram_socket-Holds calls u w nothing tidy free orderly =
      perform_each-Holds is_open IsTidy receive_socket_of (datagram_socket os)
        datagram_socket-HoldsDescriptor w nothing calls true u w orderly
        ((tidy, inl (free, λ d. refl)), λ _. free)
