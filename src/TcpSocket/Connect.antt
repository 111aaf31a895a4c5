-- ===== src/TcpSocket/Connect.antt =====
-- Connecting to a resolved host: one descriptor is opened for a connection, and none is left open
-- where no address can be connected to.
use cpp_socket_library.Prelude.{
  ℕ, ◌≡◌, refl, ◌∙◌, ◌⊎◌, inl, inr, Bool, true, false, List, [], ◌∷◌, Bytes, ℤ, pos, eq_ℤ,
  Bool-cases,
}
use mathlib.Core.List.{Mem, mem-cons_self, mem-cons_of_mem}
use cpp_socket_library.Errors.{
  Exception, socket_exception, get_invalid_socket_value, is_invalid_socket,
}
use cpp_socket_library.Protocol.{InternetProtocolVersion, from_family}
use cpp_socket_library.System.{AddrInfo, Os}
use cpp_socket_library.System.Laws.{IsLedger}
use cpp_socket_library.System.Table.{
  SameTable, Opens, Opens-same, same-Opens, socket-Opens, socket-same, close-Opens, close-same,
}
use cpp_socket_library.System.Ends
use cpp_socket_library.System.Ends.{Ends, returned, threw}
use cpp_socket_library.System.Returns.{Returns, returns}
use cpp_socket_library.Address.{SocketAddress, zero_address, address_size, create_tcp_hints}
use cpp_socket_library.Address.Resolve.{resolve_to_addresses-same}
use cpp_socket_library.Socket
use cpp_socket_library.TcpSocket.{
  TcpSocket, close, try_address, connect_loop, construct_socket, from_hostname,
}

module _ {W : Type 0} (os : Os W) (is_open : W → ℤ → Bool) (law : IsLedger os is_open) where
  -- The object `t` became `t'`, which holds the one descriptor that was opened.
  pub record Connected (t : TcpSocket) (w : W) (t' : TcpSocket) (w' : W) : Type 0 where
    pub opens : Opens is_open t'.socket_descriptor w w'
    pub same_host : t'.hostname ≡ t.hostname
    pub same_port : t'.port ≡ t.port
    pub version : t'.protocol_version ≡ from_family t'.server_address.sa_family

  -- No descriptor is left open, and the exception is a plain `SocketException`.
  pub record Refused (w : W) (e : Exception) (w' : W) : Type 0 where
    pub kind : e ≡ socket_exception
    pub same : SameTable is_open w w'

  -- An attempt that failed leaves at most its own descriptor open.
  pub record Attempted (t : TcpSocket) (w : W) (t' : TcpSocket) (w' : W) : Type 0 where
    pub same_host : t'.hostname ≡ t.hostname
    pub same_port : t'.port ≡ t.port
    pub left_open :
        (SameTable is_open w w' × (is_open w t'.socket_descriptor ≡ false))
        ⊎ Opens is_open t'.socket_descriptor w w'

  abbrev Tried : TcpSocket → SocketAddress → W → TcpSocket × Bool → W → Type 0
  Tried t a w (t', true) w' = Connected t w t' w' × (t'.server_address ≡ a)
  Tried t a w (t', false) w' = Attempted t w t' w'

  try_address-Tried :
      (t : TcpSocket) (hints : AddrInfo) (a : SocketAddress) (w : W)
      → Returns (Tried t a w) (try_address os t hints a w)
  unfolding try_address
  try_address-Tried t hints a w =
      let f = pos a.sa_family in
      let r = os.socket f hints.ai_socktype hints.ai_protocol w in
      elim (Bool-cases (is_invalid_socket r.0)) [
        | inl bad ↦ rw bad (
            returns (record {
              same_host = refl;
              same_port = refl;
              left_open = inl (socket-same is_open os law f _ _ w bad, law.socket_fresh f _ _ w);
            }))
        | inr good ↦
            let c = os.connect r.0 a address_size r.1 in
            let opens =
              Opens-same is_open (socket-Opens is_open os law f _ _ w good)
                (law.connect_keeps r.0 a address_size r.1) in
            rw good (elim (Bool-cases (eq_ℤ c.0 (pos 0))) [
              | inl up ↦ rw up (
                  returns (
                    record { opens = opens; same_host = refl; same_port = refl; version = refl },
                    refl,
                  ))
              | inr down ↦
                  rw down
                    (returns (record { same_host = refl; same_port = refl; left_open = inr opens }))
            ])
      ]

  close-Attempted :
      (t : TcpSocket) (w : W) (t' : TcpSocket) (w' : W)
      → Attempted t w t' w'
      → Returns
          (λ t'' w''. SameTable is_open w w'' × (t''.hostname ≡ t.hostname) × (t''.port ≡ t.port))
          (close os t' w')
  unfolding close Socket.close
  close-Attempted t w t' w' a = returns (table, a.same_host, a.same_port)
    where
      table : SameTable is_open w (os.close t'.socket_descriptor w').1
      table = elim a.left_open [
        | inl (same, shut) ↦ λ d.
            close-same is_open os law t'.socket_descriptor w' (same t'.socket_descriptor ∙ shut) d
            ∙ same d
        | inr opens ↦ close-Opens is_open os law t'.socket_descriptor opens
      ]

  abbrev pub ConnectedTo : List SocketAddress → TcpSocket → W → TcpSocket → W → Type 0
  ConnectedTo addresses t w t' w' = Connected t w t' w' × Mem t'.server_address addresses

  -- A connection that is made after attempts that left nothing open.
  after_failure :
      (t : TcpSocket) (w : W) (t₁ : TcpSocket) (w₁ : W) (t₂ : TcpSocket) (w₂ : W)
      → SameTable is_open w w₁
      → t₁.hostname ≡ t.hostname
      → t₁.port ≡ t.port
      → Connected t₁ w₁ t₂ w₂
      → Connected t w t₂ w₂
  after_failure t w t₁ w₁ t₂ w₂ same host port c = record {
    opens = same-Opens is_open same c.opens;
    same_host = c.same_host ∙ host;
    same_port = c.same_port ∙ port;
    version = c.version;
  }

  connect_loop-Ends :
      (t : TcpSocket) (hints : AddrInfo) (addresses : List SocketAddress) (w : W)
      → Ends (ConnectedTo addresses t w) (Refused w) (connect_loop os t hints addresses w)
  unfolding connect_loop
  connect_loop-Ends t hints [] w = threw (record { kind = refl; same = λ d. refl })
  connect_loop-Ends t hints (a ∷ rest) w =
      Ends.bind (Ends.of_Returns {E = Refused w} (try_address-Tried t hints a w))
        λ (t', connected) w₁ p. elim (Bool-cases connected) [
          | inl up ↦ let c = rw up at p in rw up (returned (c.0, rw c.1 mem-cons_self))
          | inr down ↦
              let f = rw down at p in
              rw down (
                Ends.bind (Ends.of_Returns {E = Refused w} (close-Attempted t w t' w₁ f))
                  λ t'' w₂ q.
                    Ends.mono (connect_loop-Ends t'' hints rest w₂)
                      (λ u w₃ (c, m).
                        (after_failure t w t'' w₂ u w₃ q.0 q.1 q.2 c, mem-cons_of_mem a m))
                      (λ e w₃ n. record { kind = n.kind; same = λ d. n.same d ∙ q.0 d }))
        ]

  -- Given the table of descriptors, the constructor from a host name ends in one of two ways. It
  -- returns an object with the given name and port, whose descriptor is valid and the only one that
  -- was opened, and whose version is the family of the address that it is connected to; or it
  -- throws a plain `SocketException`, and no descriptor is left open.
  pub from_hostname-Ends :
      (hostname : Bytes) (port : ℕ) (version : InternetProtocolVersion) (w : W)
      → Ends
          (λ t w'.
            Opens is_open t.socket_descriptor w w'
            × (t.hostname ≡ hostname)
            × (t.port ≡ port)
            × (t.protocol_version ≡ from_family t.server_address.sa_family))
          (Refused w)
          (from_hostname os hostname port version w)
  unfolding from_hostname construct_socket
  from_hostname-Ends hostname port version w =
      let hints = create_tcp_hints version 0 in
      Ends.bind
        (Ends.of_Returns {E = Refused w}
          (resolve_to_addresses-same os is_open law hostname port hints w))
        λ (addresses, code) w₁ p. elim (Bool-cases (eq_ℤ code (pos 0))) [
          | inl good ↦ rw good (
              Ends.mono
                (connect_loop-Ends
                  (record {
                    socket_descriptor = get_invalid_socket_value;
                    hostname = hostname;
                    port = port;
                    protocol_version = version;
                    server_address = zero_address;
                  })
                  hints addresses w₁)
                (λ t w' (c, m).
                  (same-Opens is_open p.0 c.opens, c.same_host, c.same_port, c.version))
                (λ e w' n. record { kind = n.kind; same = λ d. n.same d ∙ p.0 d }))
          | inr bad ↦ rw bad (threw (record { kind = refl; same = p.0 }))
        ]
