-- ===== src/TcpSocket/Failure.antt =====
-- The constructor from an address, and what it leaves behind when the connection is refused.
use cpp_socket_library.Prelude.{
  ◌≡◌, ◌≢◌, ◌⊎◌, inl, inr, refl, Bool-cases, Bool, true, false, ℤ, pos, eq_ℤ, eq_ℤ_refl, eq_ℤ→≡,
  arith,
}
use cpp_socket_library.Errors.{socket_exception, is_invalid_socket}
use cpp_socket_library.Protocol.{from_family}
use cpp_socket_library.System.{Os, throw}
use cpp_socket_library.System.Laws.{IsLedger}
use cpp_socket_library.System.Table.{
  SameTable, Opens, Opens-same, socket-Opens, socket-same, not_zero,
}
use cpp_socket_library.System.Returns.{Returns, returns}
use cpp_socket_library.System.Ends.{Ends, returned, threw}
use cpp_socket_library.Address.{
  SocketAddress, address_size, sock_stream, ipproto_tcp, get_port_number, get_address,
}
use cpp_socket_library.TcpSocket.{from_address, to_short, or_empty}

module _ {W : Type 0} (os : Os W) (is_open : W → ℤ → Bool) (law : IsLedger os is_open)
    (a : SocketAddress) (w : W) where
  abbrev created : ℤ × W
  created = os.socket (pos a.sa_family) sock_stream ipproto_tcp w

  abbrev connection : ℤ × W
  connection = os.connect created.0 a address_size created.1

  opened-connection : is_invalid_socket created.0 ≡ false → Opens is_open created.0 w connection.1
  opened-connection good =
      Opens-same is_open (socket-Opens is_open os law (pos a.sa_family) _ _ w good)
        (law.connect_keeps created.0 a address_size created.1)

  -- Where `connect` succeeds on a valid descriptor, the constructor from an address returns an
  -- object for that address, with its port and family, that holds the one descriptor opened.
  from_address-connected :
      is_invalid_socket created.0 ≡ false
      → connection.0 ≡ pos 0
      → Returns
          (λ t w'.
            Opens is_open t.socket_descriptor w w'
            × (t.server_address ≡ a)
            × (t.port ≡ to_short (get_port_number a))
            × (t.protocol_version ≡ from_family a.sa_family))
          (from_address os a w)
  unfolding from_address
  from_address-connected good up =
      let opens = opened-connection good in rw (good, up) (returns (opens, refl, refl, refl))

  -- The constructor from an address ends, whatever the system answers. It returns an object for
  -- that address, with its port and family, and its text or an empty string as the name, that holds
  -- the one descriptor opened, where `connect` succeeded. Or it throws a `SocketException`: with no
  -- descriptor opened where there was no valid one, and otherwise, where `connect` failed, with the
  -- new descriptor left open and no object that holds it.
  pub from_address-Ends :
      Ends
        (λ t w'.
          Opens is_open t.socket_descriptor w w'
          × (connection.0 ≡ pos 0)
          × (t.server_address ≡ a)
          × (t.hostname ≡ or_empty (get_address os a))
          × (t.port ≡ to_short (get_port_number a))
          × (t.protocol_version ≡ from_family a.sa_family))
        (λ e w'.
          (e ≡ socket_exception)
          × (((is_invalid_socket created.0 ≡ true) × SameTable is_open w w')
              ⊎ ((connection.0 ≢ pos 0) × Opens is_open created.0 w w')))
        (from_address os a w)
  unfolding from_address
  from_address-Ends = elim (Bool-cases (is_invalid_socket created.0)) [
    | inl bad ↦ rw bad (
        threw (
          refl,
          inl (refl, socket-same is_open os law (pos a.sa_family) sock_stream ipproto_tcp w bad),
        ))
    | inr good ↦
        let opens = opened-connection good in
        elim (Bool-cases (eq_ℤ connection.0 (pos 0))) [
          | inl up ↦
              rw (good, up)
                (returned (opens, eq_ℤ→≡ connection.0 (pos 0) up, refl, refl, refl, refl))
          | inr down ↦ rw (good, down) (threw (refl, inr (not_zero connection.0 down, opens)))
        ]
  ]

  -- Where `connect` fails on a valid descriptor, the constructor from an address throws a
  -- `SocketException` and leaves the new descriptor open, with no object that holds it.
  pub from_address-leak :
      is_invalid_socket created.0 ≡ false
      → connection.0 ≢ pos 0
      → (w' : W) × (from_address os a w ≡ throw socket_exception w')
        × (is_open w created.0 ≡ false)
        × (is_open w' created.0 ≡ true)
  unfolding from_address
  from_address-leak good down =
      let opens = opened-connection good in
      let failed : eq_ℤ connection.0 (pos 0) ≡ false =
        ground (arith, eq_ℤ→≡ connection.0 (pos 0)) in
      (
        connection.1,
        rw (good, failed) refl,
        opens.fresh,
        ground (arith, opens.opened created.0, eq_ℤ_refl created.0),
      )
