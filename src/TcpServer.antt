-- ===== src/TcpServer.antt =====
-- src/serversocket/ServerSocket.h, TCPServerSocket.h and TCPServerSocket.cpp.
pub mod Listen
pub mod Open
pub mod Create
pub mod Accept
pub mod Lifecycle
pub mod Program
pub mod Contract
use cpp_socket_library.Prelude.{
  ℕ, Bool, true, false, ◌||◌, not, Option, none, some, List, [], ◌∷◌, ◌==◌, if◌then◌else◌, Bytes,
  until_nul, ℤ, pos, minus_one, eq_ℤ, is_positive, to_int,
}
use cpp_socket_library.Errors.{
  socket_exception, binding_exception, timeout_exception, bad_optional_access,
  get_invalid_socket_value, is_invalid_socket,
}
use cpp_socket_library.Protocol.{
  InternetProtocolVersion, ipv6, family_int, from_family, same_version,
}
use cpp_socket_library.System.{AddrInfo, Os, M, pure, raise, call, ◌>>=◌, ◌>>◌}
use cpp_socket_library.Address.{
  SocketAddress, zero_address, create_tcp_hints, ai_passive, get_address, get_address_length,
  get_local_address, get_port_number, htons, sin_port, sin6_port, set_sin_port,
  resolve_to_addresses, socket_to_address,
}
use cpp_socket_library.Socket
use cpp_socket_library.TcpSocket.{TcpSocket, from_accepted, to_short}

-- A callback that is handed the descriptor by reference: it may act on the outside, change the
-- descriptor, and throw.
abbrev pub Operation : Type 0 → Type 0
Operation W = ℤ → M W ℤ

abbrev pub run_operation : {W : Type 0} → Option (Operation W) → ℤ → M W ℤ
run_operation none descriptor = pure descriptor
run_operation (some f) descriptor = f descriptor

pub record TcpServer : Type 0 where
  pub port : ℕ
  pub protocol_version : InternetProtocolVersion
  pub server_address : SocketAddress
  pub socket_descriptor : ℤ

abbrev pub get_port : TcpServer → ℕ
get_port s = s.port

abbrev pub get_socket : TcpServer → ℤ
get_socket s = s.socket_descriptor

abbrev pub get_socket_address : TcpServer → SocketAddress
get_socket_address s = s.server_address

abbrev pub get_internet_protocol_version : TcpServer → InternetProtocolVersion
get_internet_protocol_version s = s.protocol_version

abbrev pub sol_socket : ℕ
sol_socket = 1

abbrev pub so_reuseaddr : ℕ
so_reuseaddr = 2

-- The name that is resolved to listen on.
abbrev pub local_name : Option Bytes → InternetProtocolVersion → Bytes
local_name none version = get_local_address version
local_name (some hostname) version = until_nul hostname

unfoldable pub copy : TcpServer → TcpServer
copy socket = record {
  port = socket.port;
  protocol_version = socket.protocol_version;
  server_address = socket.server_address;
  socket_descriptor = socket.socket_descriptor;
}

-- `target = socket`
unfoldable pub assign_from : (target socket : TcpServer) → TcpServer
assign_from target socket = record target {
  port = socket.port;
  protocol_version = socket.protocol_version;
  server_address = socket.server_address;
  socket_descriptor = socket.socket_descriptor;
}

module _ {W : Type 0} (os : Os W) where
  unfoldable pub close : TcpServer → M W TcpServer
  close s = do
    Socket.close os s.socket_descriptor
    pure (record s { socket_descriptor = get_invalid_socket_value })

  -- `address.first.value()`, behind the check of the code.
  abbrev found_port : TcpServer → ℤ → Option SocketAddress → M W TcpServer
  found_port s code none =
      if eq_ℤ code (pos 0) then raise bad_optional_access else (do close s; raise binding_exception)
  found_port s code (some address) = pure (record s { port = to_short (get_port_number address) })

  unfoldable pub initialise_port_number : TcpServer → M W TcpServer
  unfolding close
  initialise_port_number s = do
    (address, code) ← socket_to_address os s.socket_descriptor
    found_port s code address

  -- The part of `constructSocket` from `listen` on.
  unfoldable pub start_listening : TcpServer → (backlog : ℕ) → M W TcpServer
  unfolding close
  start_listening s backlog = do
    listened ← call (os.listen s.socket_descriptor (to_int backlog))
    if eq_ℤ listened minus_one then (do close s; raise socket_exception) else pure s

  -- From `bind` on: a requested port of 0 is replaced by the one that the system chose.
  unfoldable pub bind_and_listen : TcpServer → (backlog : ℕ) → M W TcpServer
  unfolding close initialise_port_number start_listening set_sin_port
  bind_and_listen s backlog = do
    bound ←
        call (os.bind s.socket_descriptor s.server_address (get_address_length s.server_address))
    if eq_ℤ bound minus_one
        then (do close s; raise binding_exception)
        else if s.port == 0
        then (do
          s' ← initialise_port_number s
          start_listening
              (record s' { server_address = set_sin_port s'.server_address (htons s'.port) })
              backlog)
        else start_listening s backlog

  -- From the call of `socket` on, for the first of the resolved addresses.
  unfoldable pub open_socket :
      TcpServer → AddrInfo → (backlog : ℕ) → Option (Operation W) → M W TcpServer
  unfolding bind_and_listen
  open_socket s hints backlog pre_bind = do
    descriptor ←
        call (os.socket (family_int s.protocol_version) hints.ai_socktype hints.ai_protocol)
    if is_invalid_socket descriptor then raise socket_exception else do
      set ← call (os.setsockopt descriptor sol_socket so_reuseaddr (pos 1))
      if eq_ℤ set (pos 0)
          then (do
            descriptor' ← run_operation pre_bind descriptor
            bind_and_listen (record s { socket_descriptor = descriptor' }) backlog)
          else raise socket_exception

  -- `resolveAddresses.first.at(0)`, behind the check.
  abbrev first_address :
      TcpServer
      → AddrInfo
      → (backlog : ℕ) → Option (Operation W)
      → (addresses : List SocketAddress) → M W TcpServer
  first_address s hints backlog pre_bind [] = raise socket_exception
  first_address s hints backlog pre_bind (address ∷ rest) =
      open_socket
        (record s { protocol_version = from_family address.sa_family; server_address = address })
        hints backlog pre_bind

  unfoldable pub construct_socket :
      TcpServer → Option Bytes → (backlog : ℕ) → Option (Operation W) → M W TcpServer
  unfolding open_socket
  construct_socket s local_hostname backlog pre_bind = do
    let hints = create_tcp_hints s.protocol_version ai_passive
    (addresses, code) ←
        resolve_to_addresses os (local_name local_hostname s.protocol_version) s.port hints
    if not (eq_ℤ code (pos 0))
        then raise socket_exception
        else first_address s hints backlog pre_bind addresses

  -- The constructor.
  unfoldable pub create :
      Option Bytes
      → (port backlog : ℕ) → InternetProtocolVersion
      → Option (Operation W)
      → M W TcpServer
  unfolding construct_socket
  create local_hostname port backlog version pre_bind =
      construct_socket
        (record {
          port = port;
          protocol_version = version;
          server_address = zero_address;
          socket_descriptor = get_invalid_socket_value;
        })
        local_hostname backlog pre_bind

  -- The wait before `accept`, if there is a timeout.
  unfoldable pub await_connection : TcpServer → (timeout : ℤ) → M W (Unit {0})
  await_connection s timeout =
      if is_positive timeout
      then (do
        res ← Socket.poll_socket os s.socket_descriptor timeout none
        if eq_ℤ res minus_one
            then raise socket_exception
            else if eq_ℤ res (pos 0)
            then raise timeout_exception
            else pure tt)
      else pure tt

  -- The object for an accepted descriptor, if the address has a text.
  abbrev accepted_socket : TcpServer → ℤ → SocketAddress → Option Bytes → M W TcpSocket
  accepted_socket s temp address none = raise socket_exception
  accepted_socket s temp address (some hostname) = pure (
      from_accepted temp hostname
        (to_short (
          if same_version (get_internet_protocol_version s) ipv6
          then htons (sin6_port address)
          else htons (sin_port address)))
        (get_internet_protocol_version s) address)

  unfoldable pub accept : TcpServer → (timeout : ℤ) → M W TcpSocket
  unfolding await_connection
  accept s timeout = do
    await_connection s timeout
    (temp, accepted_address) ← call (os.accept s.socket_descriptor)
    if is_invalid_socket temp
        then raise socket_exception
        else accepted_socket s temp accepted_address (get_address os accepted_address)
