-- ===== src/TcpServer/Accept.antt =====
-- Accepting a connection: the wait, the exceptions, and the object for the connection.
use cpp_socket_library.Prelude.{
  ◌≡◌, refl, ap, ◌⊎◌, inl, inr, Bool, true, false, none, some, if◌then◌else◌, ℤ, pos, minus_one,
  eq_ℤ, is_positive, Bool-cases, Option-cases, eq_ℤ_refl, arith,
}
use cpp_socket_library.Errors.{Exception, socket_exception, timeout_exception, is_invalid_socket}
use cpp_socket_library.System.{Os, throw}
use cpp_socket_library.System.Laws.{IsLedger}
use cpp_socket_library.System.Table.{SameTable, Opens, same-Opens}
use cpp_socket_library.System.Ends
use cpp_socket_library.System.Ends.{Ends, returned, threw}
use cpp_socket_library.Address.{
  SocketAddress, get_address, get_port_number, htons, sin_port, sin6_port,
}
use cpp_socket_library.Socket.{poll_time, poll_socket}
use cpp_socket_library.TcpSocket.{TcpSocket, to_short, from_accepted}
use cpp_socket_library.TcpServer.{TcpServer, await_connection, accept}

module _ {W : Type 0} (os : Os W) where
  -- With a timeout, `accept` on a valid descriptor waits once and then does what the outcome of the
  -- wait asks for: it throws a `SocketException` where the wait failed and a `TimeoutException`
  -- where no connection came in time, and otherwise goes on, from the state after the wait, as an
  -- `accept` without a timeout.
  pub accept-after_wait :
      (s : TcpServer) (timeout : ℤ) (w : W)
      → is_positive timeout ≡ true
      → is_invalid_socket s.socket_descriptor ≡ false
      → let r = os.select s.socket_descriptor (poll_time timeout none) w in
        accept os s timeout w ≡ (
          if eq_ℤ r.0 minus_one
          then throw socket_exception r.1
          else if eq_ℤ r.0 (pos 0)
          then throw timeout_exception r.1
          else accept os s (pos 0) r.1)
  unfolding accept await_connection poll_socket
  accept-after_wait s timeout w waits valid =
      let r = os.select s.socket_descriptor (poll_time timeout none) w in
      rw (waits, valid)
        (elim (Bool-cases (eq_ℤ r.0 minus_one)) [
          | inl failed ↦ rw failed refl
          | inr polled ↦ rw polled (elim (Bool-cases (eq_ℤ r.0 (pos 0))) [
            | inl late ↦ rw late refl
            | inr ready ↦ rw ready refl
          ])
        ])

  module _ (is_open : W → ℤ → Bool) (law : IsLedger os is_open) where
    pub accept-Opens :
        (fd : ℤ) (w : W)
        → is_invalid_socket (os.accept fd w).0.0 ≡ false
        → Opens is_open (os.accept fd w).0.0 w (os.accept fd w).1
    accept-Opens fd w good = record {
      valid = good;
      fresh = law.accept_fresh fd w;
      opened = λ d. ground (arith, law.accept_opens fd w d);
    }

    -- Nothing is accepted when the wait fails, and the exception says why.
    abbrev pub Waiting : ℤ → W → Exception → W → Type 0
    Waiting timeout w e w' =
        SameTable is_open w w'
        × ((e ≡ socket_exception) ⊎ ((e ≡ timeout_exception) × (is_positive timeout ≡ true)))

    pub await_connection-Ends :
        (s : TcpServer) (timeout : ℤ) (w : W)
        → Ends
            (λ _ w'. SameTable is_open w w')
            (Waiting timeout w)
            (await_connection os s timeout w)
    unfolding await_connection poll_socket
    await_connection-Ends s timeout w =
        let fd = s.socket_descriptor in
        let r = os.select fd (poll_time timeout none) w in
        let same = law.select_keeps fd (poll_time timeout none) w in
        elim (Bool-cases (is_positive timeout)) [
          | inr at_once ↦ rw at_once (returned (λ d. refl))
          | inl waits ↦ rw waits (elim (Bool-cases (is_invalid_socket fd)) [
            | inl bad ↦ rw bad (threw (λ d. refl, inl refl))
            | inr good ↦ rw good (elim (Bool-cases (eq_ℤ r.0 minus_one)) [
              | inl failed ↦ rw failed (threw (same, inl refl))
              | inr polled ↦ rw polled (elim (Bool-cases (eq_ℤ r.0 (pos 0))) [
                | inl late ↦ rw late (threw (same, inr (refl, waits)))
                | inr ready ↦ rw ready (returned same)
              ])
            ])
          ])
        ]

    -- The port is read at the same place for both families.
    port-either :
        (v : Bool) (a : SocketAddress)
        → (if v then htons (sin6_port a) else htons (sin_port a)) ≡ get_port_number a
    unfolding get_port_number sin_port sin6_port
    port-either v a = ground arith

    -- An object for an accepted connection.
    pub record Accepted (s : TcpServer) (w : W) (t : TcpSocket) (w' : W) : Type 0 where
      pub opens : Opens is_open t.socket_descriptor w w'
      pub same_version : t.protocol_version ≡ s.protocol_version
      pub named : get_address os t.server_address ≡ some t.hostname
      pub numbered : t.port ≡ to_short (get_port_number t.server_address)

    -- A connection was accepted whose address has no text, and its descriptor is left open.
    abbrev pub Abandoned : TcpServer → W → W → Type 0
    Abandoned s w w' =
        (w₁ : W) × let r = os.accept s.socket_descriptor w₁ in
          Opens is_open r.0.0 w w' × (get_address os r.0.1 ≡ none)

    -- What `accept` throws: a `TimeoutException` only where there was a timeout, or a
    -- `SocketException`.
    abbrev pub Rejected : TcpServer → ℤ → W → Exception → W → Type 0
    Rejected s timeout w e w' =
        ((e ≡ timeout_exception) × (is_positive timeout ≡ true) × SameTable is_open w w')
        ⊎ ((e ≡ socket_exception) × (SameTable is_open w w' ⊎ Abandoned s w w'))

    Rejected-of_Waiting :
        (s : TcpServer) (timeout : ℤ) (w : W) (e : Exception) (w' : W)
        → Waiting timeout w e w'
        → Rejected s timeout w e w'
    Rejected-of_Waiting s timeout w e w' (same, inl k) = inr (k, inl same)
    Rejected-of_Waiting s timeout w e w' (same, inr (k, t)) = inl (k, t, same)

    -- `accept` ends, whatever the system answers. It returns an object with the server's version
    -- whose descriptor is the only one that was opened, whose name is the text of its address and
    -- whose port is that of its address. Or it throws: a `TimeoutException` only where a timeout
    -- was given, and then with no descriptor opened; and otherwise a `SocketException`, with no
    -- descriptor opened unless a connection was accepted whose address has no text, the descriptor
    -- of which alone is then left open.
    pub accept-Ends :
        (s : TcpServer) (timeout : ℤ) (w : W)
        → Ends (Accepted s w) (Rejected s timeout w) (accept os s timeout w)
    unfolding accept from_accepted
    accept-Ends s timeout w =
        Ends.bind
          (Ends.mono (await_connection-Ends s timeout w) (λ u w₁ p. p)
            (Rejected-of_Waiting s timeout w))
          λ u w₁ same.
            let fd = s.socket_descriptor in
            let r = os.accept fd w₁ in
            elim (Bool-cases (is_invalid_socket r.0.0)) [
              | inl bad ↦
                  rw bad (
                    threw (inr (refl, inl (λ d. ground (arith, law.accept_opens fd w₁ d, same d)))))
              | inr good ↦
                  let opens = same-Opens is_open same (accept-Opens fd w₁ good) in
                  rw good (elim (Option-cases (get_address os r.0.1)) [
                    | inl unnamed ↦ rw unnamed (threw (inr (refl, inr (w₁, (opens, unnamed)))))
                    | inr (hostname, e) ↦ rw e (
                        returned (record {
                          opens = opens;
                          same_version = refl;
                          named = e;
                          numbered = ap to_short (port-either _ r.0.1);
                        }))
                  ])
            ]

    -- Where a connection is accepted whose address has no text, `accept` throws a
    -- `SocketException` and leaves the accepted descriptor open. Here it does not wait.
    pub accept-leak :
        (s : TcpServer) (w : W)
        → let r = os.accept s.socket_descriptor w in
          is_invalid_socket r.0.0 ≡ false
          → get_address os r.0.1 ≡ none
          → (accept os s (pos 0) w ≡ throw socket_exception r.1)
            × (is_open w r.0.0 ≡ false)
            × (is_open r.1 r.0.0 ≡ true)
    unfolding accept await_connection
    accept-leak s w good unnamed =
        let opens = accept-Opens s.socket_descriptor w good in
        let fd = (os.accept s.socket_descriptor w).0.0 in
        (rw (good, unnamed) refl, opens.fresh, ground (arith, opens.opened fd, eq_ℤ_refl fd))
