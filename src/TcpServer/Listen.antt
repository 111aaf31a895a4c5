-- ===== src/TcpServer/Listen.antt =====
-- From `bind` on: the port of a server, and its descriptor.
use cpp_socket_library.Prelude.{
  ℕ, ◌≡◌, ◌≢◌, refl, ap, inl, inr, Bool, true, false, ◌==◌, length, ℤ, pos, minus_one, eq_ℤ, to_int,
  Bool-cases, ==→≡, arith,
}
use cpp_socket_library.Errors.{Exception, socket_exception, binding_exception, is_socket_exception}
use cpp_socket_library.Protocol.{from_family}
use cpp_socket_library.System.{Os}
use cpp_socket_library.System.Laws.{IsLedger}
use cpp_socket_library.System.Table.{SameTable, Opens, Opens-same, close-Opens}
use cpp_socket_library.System.Ends
use cpp_socket_library.System.Ends.{Ends, returned, threw}
use cpp_socket_library.Address.{
  SocketAddress, get_port_number, get_address_length, htons, set_sin_port, socket_to_address,
}
use cpp_socket_library.Address.Ports.{get_port_number-set_sin_port}
use cpp_socket_library.Address.Resolve.{IsFull}
use cpp_socket_library.Socket
use cpp_socket_library.TcpSocket.{to_short}
use cpp_socket_library.TcpServer.{
  TcpServer, close, initialise_port_number, start_listening, bind_and_listen,
}

not_minus_one : (d : ℤ) → eq_ℤ d minus_one ≡ false → d ≢ minus_one
not_minus_one d h e = cc (h, ap (λ x. eq_ℤ x minus_one) e)

module _ {W : Type 0} (os : Os W) (is_open : W → ℤ → Bool) (law : IsLedger os is_open) where
  -- Nothing is left open, and a handler for `SocketException` catches what is thrown.
  pub record Failed (w : W) (e : Exception) (w' : W) : Type 0 where
    pub caught : is_socket_exception e ≡ true
    pub same : SameTable is_open w w'

  -- `close` and a throw, while one descriptor is open.
  close-Failed :
      (s : TcpServer) (w w₁ : W) (e : Exception)
      → Opens is_open s.socket_descriptor w w₁
      → is_socket_exception e ≡ true
      → Failed w e (os.close s.socket_descriptor w₁).1
  close-Failed s w w₁ e opens caught = record {
    caught = caught;
    same = close-Opens is_open os law s.socket_descriptor opens;
  }

  start_listening-Ends :
      (s : TcpServer) (backlog : ℕ) (w w₁ : W)
      → Opens is_open s.socket_descriptor w w₁
      → Ends
          (λ s' w'. (s' ≡ s) × Opens is_open s.socket_descriptor w w')
          (Failed w)
          (start_listening os s backlog w₁)
  unfolding start_listening close Socket.close is_socket_exception
  start_listening-Ends s backlog w w₁ opens =
      let r = os.listen s.socket_descriptor (to_int backlog) w₁ in
      let kept =
        Opens-same is_open opens (law.listen_keeps s.socket_descriptor (to_int backlog) w₁) in
      elim (Bool-cases (eq_ℤ r.0 minus_one)) [
        | inl bad ↦ rw bad (threw (close-Failed s w r.1 socket_exception kept refl))
        | inr good ↦ rw good (returned (refl, kept))
      ]

  -- The port that the system names for a descriptor, as a 16-bit number.
  abbrev pub named_port : ℤ → W → ℕ
  named_port descriptor w = to_short (get_port_number (os.getsockname descriptor w).0.1)

  -- `w₁` is the state in which the system is asked for the port.
  abbrev Renumbered : TcpServer → W → W → TcpServer → W → Type 0
  Renumbered s w w₁ s' w' =
      (s'.socket_descriptor ≡ s.socket_descriptor)
      × (s'.protocol_version ≡ s.protocol_version)
      × (s'.server_address ≡ s.server_address)
      × ((os.getsockname s.socket_descriptor w₁).0.0 ≢ minus_one)
      × (s'.port ≡ named_port s.socket_descriptor w₁)
      × Opens is_open s.socket_descriptor w w'

  initialise_port_number-Ends :
      (s : TcpServer) (w w₁ : W)
      → Opens is_open s.socket_descriptor w w₁
      → Ends (Renumbered s w w₁) (Failed w) (initialise_port_number os s w₁)
  unfolding initialise_port_number socket_to_address close Socket.close is_socket_exception
  initialise_port_number-Ends s w w₁ opens =
      let r = os.getsockname s.socket_descriptor w₁ in
      let kept = Opens-same is_open opens (law.getsockname_keeps s.socket_descriptor w₁) in
      elim (Bool-cases (eq_ℤ r.0.0 minus_one)) [
        | inl bad ↦
            let code : eq_ℤ r.0.0 (pos 0) ≡ false = ground arith in
            rw (bad, code) (threw (close-Failed s w r.1 binding_exception kept refl))
        | inr good ↦ rw good (returned (refl, refl, refl, not_minus_one r.0.0 good, refl, kept))
      ]

  -- The system bound the descriptor to an address, and in the state after that named the port that
  -- the descriptor has: the server has this port, and that address with this port.
  pub record Chosen (s : TcpServer) : Type 0 where
    pub asked : SocketAddress
    pub before : W
    pub bound : (os.bind s.socket_descriptor asked (get_address_length asked) before).0 ≢ minus_one
    pub named :
        let w = (os.bind s.socket_descriptor asked (get_address_length asked) before).1 in
        ((os.getsockname s.socket_descriptor w).0.0 ≢ minus_one)
        × (s.port ≡ named_port s.socket_descriptor w)
    pub address : s.server_address ≡ set_sin_port asked (htons s.port)
    pub shown : get_port_number s.server_address ≡ s.port

  -- A server that listens, made from a request for a port.
  pub record Listening (requested : ℕ) (w : W) (s : TcpServer) (w' : W) : Type 0 where
    pub opens : Opens is_open s.socket_descriptor w w'
    pub version : s.protocol_version ≡ from_family s.server_address.sa_family
    pub kept : requested ≢ 0 → s.port ≡ requested
    pub chosen : requested ≡ 0 → Chosen s

  listen-chosen :
      (s s' : TcpServer) (backlog : ℕ) (w w₀ w₂ : W)
      → let r =
          os.bind s.socket_descriptor s.server_address (get_address_length s.server_address) w₀ in
        (r.0 ≢ minus_one)
        → s.port ≡ 0
        → IsFull s.server_address
        → s.protocol_version ≡ from_family s.server_address.sa_family
        → Renumbered s w r.1 s' w₂
        → Ends (Listening s.port w) (Failed w) (
            start_listening os
              (record s' { server_address = set_sin_port s'.server_address (htons s'.port) })
              backlog
              w₂)
  unfolding set_sin_port
  listen-chosen s s' backlog w w₀ w₂ bound zero_port full version
        (fd, same_version, same_address, code, port, opens) =
      let s'' : TcpServer = record s' {
        server_address = set_sin_port s'.server_address (htons s'.port);
      } in
      let ports =
        get_port_number-set_sin_port s'.server_address s'.port
          (omega (arith, ap (λ (a : SocketAddress). length a.sa_data) same_address, full))
          (omega (arith, port)) in
      let opens' : Opens is_open s''.socket_descriptor w w₂ = rw fd opens in
      Ends.mono (start_listening-Ends s'' backlog w w₂ opens')
        (λ u w₃ (e, o). record {
          opens = rw e o;
          version = rw (e, same_version, same_address) version;
          kept = λ n. absurd (n zero_port);
          chosen = λ _. rw e (record {
            asked = s.server_address;
            before = w₀;
            bound = rw fd bound;
            named = rw fd (code, port);
            address = ap (λ a. set_sin_port a (htons s'.port)) same_address;
            shown = ports.0;
          });
        })
        (λ e w₃ f. f)

  pub bind_and_listen-Ends :
      (s : TcpServer) (backlog : ℕ) (w w₁ : W)
      → Opens is_open s.socket_descriptor w w₁
      → IsFull s.server_address
      → s.protocol_version ≡ from_family s.server_address.sa_family
      → Ends (Listening s.port w) (Failed w) (bind_and_listen os s backlog w₁)
  unfolding bind_and_listen close Socket.close is_socket_exception
  bind_and_listen-Ends s backlog w w₁ opens full version =
      let size = get_address_length s.server_address in
      let r = os.bind s.socket_descriptor s.server_address size w₁ in
      let kept =
        Opens-same is_open opens (law.bind_keeps s.socket_descriptor s.server_address size w₁) in
      elim (Bool-cases (eq_ℤ r.0 minus_one)) [
        | inl bad ↦ rw bad (threw (close-Failed s w r.1 binding_exception kept refl))
        | inr good ↦ rw good (elim (Bool-cases (s.port == 0)) [
          | inl any_port ↦ rw any_port (
              Ends.bind (initialise_port_number-Ends s w r.1 kept) λ s' w₂ p.
                listen-chosen s s' backlog w w₁ w₂ (not_minus_one r.0 good) (==→≡ s.port 0 any_port)
                  full version p)
          | inr given ↦ rw given (
              Ends.mono (start_listening-Ends s backlog w r.1 kept)
                (λ u w₂ (e, o). record {
                  opens = rw e o;
                  version = rw e version;
                  kept = λ _. ap (λ (x : TcpServer). x.port) e;
                  chosen = λ z. absurd (ground arith);
                })
                (λ e w₂ f. f))
        ])
      ]
