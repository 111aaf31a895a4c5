-- ===== src/Ipc/Accept.antt =====
-- Accepting a connection on a path, for IPCServerSocket.cpp.
use cpp_socket_library.Prelude.{
  ◌≡◌, refl, ◌⊎◌, inl, inr, Bool, true, none, ℤ, pos, minus_one, eq_ℤ, is_positive, Bool-cases,
  arith,
}
use cpp_socket_library.Errors.{Exception, socket_exception, timeout_exception, is_invalid_socket}
use cpp_socket_library.System.{Os}
use cpp_socket_library.System.Laws.{IsLedger}
use cpp_socket_library.System.Table.{SameTable, Opens, same-Opens}
use cpp_socket_library.System.Ends
use cpp_socket_library.System.Ends.{Ends, returned, threw}
use cpp_socket_library.Socket.{poll_time, poll_socket}
use cpp_socket_library.Ipc.Channel.{from_descriptor}
use cpp_socket_library.Ipc.Server.{IpcServer, await_connection, accept}

module _ {W : Type 0} (os : Os W) (is_open : W → ℤ → Bool) (law : IsLedger os is_open) where
  -- Nothing was opened, and only a wait throws a `TimeoutException`.
  abbrev pub Unaccepted : ℤ → W → Exception → W → Type 0
  Unaccepted timeout w e w' =
      SameTable is_open w w'
      × ((e ≡ socket_exception) ⊎ ((e ≡ timeout_exception) × (is_positive timeout ≡ true)))

  await_connection-Ends :
      (s : IpcServer) (timeout : ℤ) (w : W)
      → Ends
          (λ _ w'. SameTable is_open w w')
          (Unaccepted timeout w)
          (await_connection os s timeout w)
  unfolding await_connection poll_socket
  await_connection-Ends s timeout w =
      let r = os.select s.socket (poll_time timeout none) w in
      let same = law.select_keeps s.socket (poll_time timeout none) w in
      elim (Bool-cases (is_positive timeout)) [
        | inr at_once ↦ rw at_once (returned (λ d. refl))
        | inl waits ↦ rw waits (elim (Bool-cases (is_invalid_socket s.socket)) [
          | inl bad ↦ rw bad (threw (λ d. refl, inl refl))
          | inr good ↦ rw good (elim (Bool-cases (eq_ℤ r.0 minus_one)) [
            | inl failed ↦ rw failed (threw (same, inl refl))
            | inr polled ↦ rw polled (elim (Bool-cases (eq_ℤ r.0 (pos 0))) [
              | inl late ↦ rw late (threw (same, inr (refl, waits)))
              | inr ready ↦ rw ready (returned same)
            ])
          ])
        ])
      ]

  -- `accept` of a server on a path ends, whatever the system answers. It returns an object whose
  -- descriptor is the only one that was opened, or throws with no descriptor opened: a
  -- `TimeoutException` only where a timeout was given, and a `SocketException` otherwise.
  pub accept_on_path-Ends :
      (s : IpcServer) (timeout : ℤ) (w : W)
      → Ends (λ t w'. Opens is_open t.socket w w') (Unaccepted timeout w) (accept os s timeout w)
  unfolding accept from_descriptor
  accept_on_path-Ends s timeout w = Ends.bind (await_connection-Ends s timeout w) λ u w₁ same.
      let r = os.accept s.socket w₁ in
      elim (Bool-cases (is_invalid_socket r.0.0)) [
        | inl bad ↦
            rw bad (threw (λ d. ground (arith, law.accept_opens s.socket w₁ d, same d), inl refl))
        | inr good ↦ rw good (
            returned (
              same-Opens is_open same (record {
                valid = good;
                fresh = law.accept_fresh s.socket w₁;
                opened = λ d. ground (arith, law.accept_opens s.socket w₁ d);
              })))
      ]
