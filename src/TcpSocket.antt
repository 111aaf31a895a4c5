-- ===== src/TcpSocket.antt =====
-- src/socket/TCPSocket.h and TCPSocket.cpp. A member function that assigns to the object returns
-- the new object; a constructor that throws leaves none.
pub mod Connect
pub mod Failure
pub mod Copies
pub mod Order
use cpp_socket_library.Prelude.{
  ℕ, ◌%◌, ◌^◌, Bool, true, false, Option, none, some, List, [], ◌∷◌, if◌then◌else◌, Bytes, ℤ, pos,
  eq_ℤ,
}
use cpp_socket_library.Errors.{socket_exception, get_invalid_socket_value, is_invalid_socket}
use cpp_socket_library.Protocol.{InternetProtocolVersion, any, from_family}
use cpp_socket_library.System.{AddrInfo, Os, M, pure, raise, call, ◌>>=◌, ◌>>◌}
use cpp_socket_library.Address.{
  SocketAddress, zero_address, address_size, create_tcp_hints, get_address, get_port_number,
  resolve_to_addresses,
}
use cpp_socket_library.Socket

pub record TcpSocket : Type 0 where
  pub socket_descriptor : ℤ
  pub hostname : Bytes
  pub port : ℕ
  pub protocol_version : InternetProtocolVersion
  pub server_address : SocketAddress

abbrev pub get_socket : TcpSocket → ℤ
get_socket s = s.socket_descriptor

abbrev pub get_hostname : TcpSocket → Bytes
get_hostname s = s.hostname

abbrev pub get_port : TcpSocket → ℕ
get_port s = s.port

abbrev pub get_internet_protocol_version : TcpSocket → InternetProtocolVersion
get_internet_protocol_version s = s.protocol_version

abbrev pub get_socket_address : TcpSocket → SocketAddress
get_socket_address s = s.server_address

-- The conversion of an unsigned int to an unsigned short.
abbrev pub to_short : ℕ → ℕ
to_short n = n % 2 ^ 16

abbrev pub or_empty : Option Bytes → Bytes
or_empty none = []
or_empty (some s) = s

-- The constructor from an accepted connection.
unfoldable pub from_accepted :
    (descriptor : ℤ) (hostname : Bytes) (port : ℕ)
    → InternetProtocolVersion
    → SocketAddress
    → TcpSocket
from_accepted descriptor hostname port version accepted_address = record {
  socket_descriptor = descriptor;
  hostname = hostname;
  port = port;
  protocol_version = version;
  server_address = accepted_address;
}

-- The copy constructor: the copy shares the descriptor.
unfoldable pub copy : TcpSocket → TcpSocket
copy socket = record {
  socket_descriptor = socket.socket_descriptor;
  hostname = socket.hostname;
  port = socket.port;
  protocol_version = socket.protocol_version;
  server_address = socket.server_address;
}

-- `target = socket`
unfoldable pub assign_from : (target socket : TcpSocket) → TcpSocket
assign_from target socket = record target {
  socket_descriptor = socket.socket_descriptor;
  hostname = socket.hostname;
  port = socket.port;
  protocol_version = socket.protocol_version;
  server_address = socket.server_address;
}

module _ {W : Type 0} (os : Os W) where
  unfoldable pub close : TcpSocket → M W TcpSocket
  close t = do
    Socket.close os t.socket_descriptor
    pure (record t { socket_descriptor = get_invalid_socket_value })

  -- What follows `connect`: whether it succeeded, and the object.
  abbrev after_connect : TcpSocket → SocketAddress → ℤ → TcpSocket × Bool
  after_connect t address connection_result =
      if eq_ℤ connection_result (pos 0)
      then (
        record t { server_address = address; protocol_version = from_family address.sa_family },
        true,
      )
      else (t, false)

  -- The body of the loop up to its `return`, for one address.
  unfoldable pub try_address : TcpSocket → AddrInfo → SocketAddress → M W (TcpSocket × Bool)
  try_address t hints address = do
    descriptor ← call (os.socket (pos address.sa_family) hints.ai_socktype hints.ai_protocol)
    if is_invalid_socket descriptor
        then pure (record t { socket_descriptor = descriptor }, false)
        else (do
          connection_result ← call (os.connect descriptor address address_size)
          pure (
              after_connect (record t { socket_descriptor = descriptor }) address
                connection_result))

  unfoldable pub connect_loop : TcpSocket → AddrInfo → List SocketAddress → M W TcpSocket
  unfolding try_address close
  connect_loop t hints [] = raise socket_exception
  connect_loop t hints (address ∷ rest) = do
    (t', connected) ← try_address t hints address
    if connected then pure t' else do t'' ← close t'; connect_loop t'' hints rest

  unfoldable pub construct_socket : TcpSocket → M W TcpSocket
  unfolding connect_loop
  construct_socket t = do
    let hints = create_tcp_hints t.protocol_version 0
    (addresses, code) ← resolve_to_addresses os t.hostname t.port hints
    if eq_ℤ code (pos 0) then connect_loop t hints addresses else raise socket_exception

  -- The constructor from a host name and a port.
  unfoldable pub from_hostname :
      (hostname : Bytes) (port : ℕ) → InternetProtocolVersion → M W TcpSocket
  unfolding construct_socket
  from_hostname hostname port version = construct_socket (record {
    socket_descriptor = get_invalid_socket_value;
    hostname = hostname;
    port = port;
    protocol_version = version;
    server_address = zero_address;
  })

  -- The constructor from an address, which tries that address alone.
  unfoldable pub from_address : SocketAddress → M W TcpSocket
  unfolding create_tcp_hints
  from_address address = do
    let hints = create_tcp_hints any 0
    descriptor ← call (os.socket (pos address.sa_family) hints.ai_socktype hints.ai_protocol)
    if is_invalid_socket descriptor then raise socket_exception else do
      connection_result ← call (os.connect descriptor address address_size)
      if eq_ℤ connection_result (pos 0)
          then pure (record {
            socket_descriptor = descriptor;
            hostname = or_empty (get_address os address);
            port = to_short (get_port_number address);
            protocol_version = from_family address.sa_family;
            server_address = address;
          })
          else raise socket_exception
