-- ===== src/Ipc/Channel.antt =====
-- StreamIPCSocket.h and StreamIPCSocket.cpp: a connection over a socket path.
use cpp_socket_library.Prelude.{
  ◌≡◌, ◌≢◌, ◌⊎◌, inl, inr, refl, Bool-cases, Bool, true, false, if◌then◌else◌, Bytes, ℤ, pos, eq_ℤ,
  eq_ℤ→≡, eq_ℤ_refl, arith,
}
use cpp_socket_library.Errors.{socket_exception, get_invalid_socket_value, is_invalid_socket}
use cpp_socket_library.Protocol.{af_unix}
use cpp_socket_library.System.{Os, M, pure, raise, call, throw, ◌>>=◌, ◌>>◌}
use cpp_socket_library.System.Laws.{IsLedger}
use cpp_socket_library.System.Table.{
  SameTable, Opens, Opens-same, socket-Opens, socket-same, close-Opens, not_zero,
}
use cpp_socket_library.System.Returns.{Returns, returns}
use cpp_socket_library.System.Ends.{Ends, returned, threw}
use cpp_socket_library.Address.{sock_stream}
use cpp_socket_library.Socket
use cpp_socket_library.Ipc.SocketPath.{fit_path, unix_address, sockaddr_un_size}

pub record StreamIpcSocket : Type 0 where
  pub socket : ℤ
  pub socket_path : Bytes

-- The constructor from an accepted descriptor.
unfoldable pub from_descriptor : ℤ → Bytes → StreamIpcSocket
from_descriptor descriptor path = record { socket = descriptor; socket_path = path }

abbrev pub get_socket : StreamIpcSocket → ℤ
get_socket s = s.socket

abbrev pub get_socket_path : StreamIpcSocket → Bytes
get_socket_path s = s.socket_path

unfoldable pub copy : StreamIpcSocket → StreamIpcSocket
copy socket = record { socket = socket.socket; socket_path = socket.socket_path }

-- `target = socket`
unfoldable pub assign_from : (target socket : StreamIpcSocket) → StreamIpcSocket
assign_from target socket = record target {
  socket = socket.socket;
  socket_path = socket.socket_path;
}

module _ {W : Type 0} (os : Os W) where
  unfoldable pub close : StreamIpcSocket → M W StreamIpcSocket
  close s = do Socket.close os s.socket; pure (record s { socket = get_invalid_socket_value })

  -- The constructor from a path, with `constructSocket`.
  unfoldable pub from_path : Bytes → M W StreamIpcSocket
  from_path path = do
    let socket_path = fit_path path
    descriptor ← call (os.socket (pos af_unix) sock_stream 0)
    if is_invalid_socket descriptor then raise socket_exception else do
      connection_result ← call (os.connect descriptor (unix_address socket_path) sockaddr_un_size)
      if eq_ℤ connection_result (pos 0)
          then pure (record { socket = descriptor; socket_path = socket_path })
          else raise socket_exception

  module _ (is_open : W → ℤ → Bool) (law : IsLedger os is_open) (path : Bytes) (w : W) where
    abbrev created : ℤ × W
    created = os.socket (pos af_unix) sock_stream 0 w

    abbrev connection : ℤ × W
    connection = os.connect created.0 (unix_address (fit_path path)) sockaddr_un_size created.1

    opened-connection : is_invalid_socket created.0 ≡ false → Opens is_open created.0 w connection.1
    opened-connection good =
        Opens-same is_open (socket-Opens is_open os law (pos af_unix) sock_stream 0 w good)
          (law.connect_keeps created.0 (unix_address (fit_path path)) sockaddr_un_size created.1)

    -- A connection to a path that succeeds holds the one descriptor that was opened; closing it
    -- gives the table of descriptors back, and leaves an object with the invalid descriptor.
    pub from_path-close :
        is_invalid_socket created.0 ≡ false
        → connection.0 ≡ pos 0
        → Returns
            (λ s w'. (s.socket ≡ get_invalid_socket_value) × SameTable is_open w w')
            ((from_path path >>= close) w)
    unfolding from_path close Socket.close
    from_path-close good up =
        rw (good, up)
          (returns (refl, close-Opens is_open os law created.0 (opened-connection good)))

    -- The constructor from a path ends, whatever the system answers. It returns an object for the
    -- path, cut to the size of an address, that holds the one descriptor opened, where `connect`
    -- succeeded. Or it throws a `SocketException`: with no descriptor opened where there was no
    -- valid one, and otherwise, where `connect` failed, with the new descriptor left open and no
    -- object that holds it.
    pub from_path-Ends :
        Ends
          (λ s w'.
            Opens is_open s.socket w w' × (connection.0 ≡ pos 0) × (s.socket_path ≡ fit_path path))
          (λ e w'.
            (e ≡ socket_exception)
            × (((is_invalid_socket created.0 ≡ true) × SameTable is_open w w')
                ⊎ ((connection.0 ≢ pos 0) × Opens is_open created.0 w w')))
          (from_path path w)
    unfolding from_path
    from_path-Ends = elim (Bool-cases (is_invalid_socket created.0)) [
      | inl bad ↦
          rw bad
            (threw (refl, inl (refl, socket-same is_open os law (pos af_unix) sock_stream 0 w bad)))
      | inr good ↦
          let opens = opened-connection good in
          elim (Bool-cases (eq_ℤ connection.0 (pos 0))) [
            | inl up ↦ rw (good, up) (returned (opens, eq_ℤ→≡ connection.0 (pos 0) up, refl))
            | inr down ↦ rw (good, down) (threw (refl, inr (not_zero connection.0 down, opens)))
          ]
    ]

    -- Where the connection to a path is refused on a valid descriptor, the constructor throws and
    -- leaves that descriptor open, with no object that holds it.
    pub from_path-leak :
        is_invalid_socket created.0 ≡ false
        → connection.0 ≢ pos 0
        → (w' : W) × (from_path path w ≡ throw socket_exception w')
          × (is_open w created.0 ≡ false)
          × (is_open w' created.0 ≡ true)
    unfolding from_path
    from_path-leak good down =
        let opens = opened-connection good in
        let failed : eq_ℤ connection.0 (pos 0) ≡ false =
          ground (arith, eq_ℤ→≡ connection.0 (pos 0)) in
        (
          connection.1,
          rw (good, failed) refl,
          opens.fresh,
          ground (arith, opens.opened created.0, eq_ℤ_refl created.0),
        )
