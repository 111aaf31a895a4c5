-- ===== src/UdpSocket.antt =====
-- src/socket/ConnectionLessSocket.h, UDPSocket.h and UDPSocket.cpp. A method that assigns to the
-- object runs over the object and the outside, so that what it has assigned when it throws stays.
pub mod Valid
pub mod Bind
pub mod Transfer
pub mod Hosts
pub mod Contract
pub mod Exchange
pub mod Orderly
pub mod History
use cpp_socket_library.Prelude.{
  ℕ, ◌^◌, Bool, true, false, not, ◌||◌, ◌&&◌, Option, none, some, List, [], ◌∷◌, ◌++◌, ltb,
  if◌then◌else◌, length, take, replicate, Bytes, write_at, ℤ, pos, negsuc, minus_one, eq_ℤ,
  is_positive, is_nonneg, lt_ℤ, pos_part, to_int, to_long, to_size,
}
use cpp_socket_library.Errors.{
  socket_exception, binding_exception, bad_optional_access, length_error, get_invalid_socket_value,
  is_invalid_socket,
}
use cpp_socket_library.Protocol.{InternetProtocolVersion, any, from_family}
use cpp_socket_library.System.{TimeVal, Os, M, pure, raise, call, ◌>>=◌, ◌>>◌, lift, this, assign}
use cpp_socket_library.Address.{
  SocketAddress, zero_address, create_udp_hints, ai_passive, sock_dgram, ipproto_udp,
  get_address_length, get_port_number, htons, set_sin_port, resolve_to_addresses, socket_to_address,
}
use cpp_socket_library.Socket
use cpp_socket_library.Datagram.{cut_to, non_empty}
use cpp_socket_library.TcpSocket.{to_short}
use cpp_socket_library.TcpServer.{Operation, run_operation, local_name}

pub record UdpSocket (W : Type 0) : Type 0 where
  pub bound : Bool
  pub receive_socket : ℤ
  pub protocol_version : InternetProtocolVersion
  pub listening_port : Option ℕ
  pub pre_send_socket_operation : Option (Operation W)

-- The result of `bind`, `sendTo` and `receiveFrom`: the code, and an address.
abbrev pub Answer : Type 0
Answer = ℤ × SocketAddress

module _ {W : Type 0} where
  -- The default constructor.
  abbrev pub new_socket : UdpSocket W
  new_socket = record {
    bound = false;
    receive_socket = get_invalid_socket_value;
    protocol_version = any;
    listening_port = none;
    pre_send_socket_operation = none;
  }

  abbrev pub get_listening_socket : UdpSocket W → ℤ
  get_listening_socket s = s.receive_socket

  abbrev pub is_bound : UdpSocket W → Bool
  is_bound s = s.bound

  abbrev pub get_internet_protocol_version : UdpSocket W → InternetProtocolVersion
  get_internet_protocol_version s = s.protocol_version

  abbrev pub get_listening_port : UdpSocket W → Option ℕ
  get_listening_port s = s.listening_port

  -- The copy constructor: the operation before sending is not copied.
  unfoldable pub copy : UdpSocket W → UdpSocket W
  copy socket = record new_socket {
    bound = socket.bound;
    receive_socket = socket.receive_socket;
    listening_port = socket.listening_port;
    protocol_version = socket.protocol_version;
  }

  -- `target = socket`: the target keeps its own operation before sending.
  unfoldable pub assign_from : (target socket : UdpSocket W) → UdpSocket W
  assign_from target socket = record target {
    bound = socket.bound;
    receive_socket = socket.receive_socket;
    listening_port = socket.listening_port;
    protocol_version = socket.protocol_version;
  }

  unfoldable pub set_pre_send_socket_operation : UdpSocket W → Operation W → UdpSocket W
  set_pre_send_socket_operation u operation = record u {
    pre_send_socket_operation = some operation;
  }

module _ {W : Type 0} (os : Os W) where
  unfoldable pub close : M (UdpSocket W × W) (Unit {0})
  close = do
    u ← this
    lift (Socket.close os u.receive_socket)
    assign (record u {
      receive_socket = get_invalid_socket_value;
      bound = false;
      listening_port = none;
    })

  abbrev found_port : ℤ → Option SocketAddress → M (UdpSocket W × W) (Unit {0})
  found_port code none =
      if eq_ℤ code (pos 0) then raise bad_optional_access else (do close; raise binding_exception)
  found_port code (some address) = do
    u ← this
    assign (record u { listening_port = some (to_short (get_port_number address)) })

  unfoldable pub initialise_listening_port_number : M (UdpSocket W × W) (Unit {0})
  unfolding close
  initialise_listening_port_number = do
    u ← this
    (address, code) ← lift (socket_to_address os u.receive_socket)
    found_port code address

  -- `address.ipv4.sin_port = htons(this->listeningPort.value())`, and the answer.
  abbrev bound_answer : ℤ → SocketAddress → Option ℕ → M (UdpSocket W × W) Answer
  bound_answer bind_result address none = raise bad_optional_access
  bound_answer bind_result address (some port) =
      pure (bind_result, set_sin_port address (htons port))

  -- `bind` from the call of the system's `bind` on.
  unfoldable pub bind_receive_socket : SocketAddress → M (UdpSocket W × W) Answer
  unfolding initialise_listening_port_number
  bind_receive_socket address = do
    u ← this
    bind_result ← lift (call (os.bind u.receive_socket address (get_address_length address)))
    assign (record u { bound = not (eq_ℤ bind_result minus_one) })
    if eq_ℤ bind_result minus_one then pure (bind_result, zero_address) else do
      initialise_listening_port_number
      u' ← this
      bound_answer bind_result address u'.listening_port

  unfoldable pub bind_address :
      Option SocketAddress → Option (Operation W) → M (UdpSocket W × W) Answer
  unfolding bind_receive_socket close create_udp_hints
  bind_address none pre_bind = raise binding_exception
  bind_address (some address) pre_bind = do
    u ← this
    let hints = create_udp_hints u.protocol_version ai_passive
    assign (record u { protocol_version = from_family address.sa_family })
    descriptor ← lift (call (os.socket (pos address.sa_family) hints.ai_socktype hints.ai_protocol))
    u₁ ← this
    assign (record u₁ { receive_socket = descriptor })
    if is_invalid_socket descriptor then raise socket_exception else do
      u₂ ← this
      if is_bound u₂ then close else pure tt
      u₃ ← this
      descriptor' ← lift (run_operation pre_bind u₃.receive_socket)
      u₄ ← this
      assign (record u₄ { receive_socket = descriptor' })
      bind_receive_socket address

  -- `resolvedAddresses.first.at(0)`, behind the check.
  abbrev bind_first : List SocketAddress → Option (Operation W) → M (UdpSocket W × W) Answer
  bind_first [] pre_bind = raise binding_exception
  bind_first (address ∷ rest) pre_bind = bind_address (some address) pre_bind

  unfoldable pub bind :
      InternetProtocolVersion
      → Option Bytes
      → (port : ℕ) → Option (Operation W)
      → M (UdpSocket W × W) Answer
  unfolding bind_address
  bind version local_hostname port pre_bind = do
    let hints = create_udp_hints version ai_passive
    (addresses, code) ←
        lift (resolve_to_addresses os (local_name local_hostname version) port hints)
    if eq_ℤ code (pos 0) then bind_first addresses pre_bind else raise binding_exception

  -- A `timeval` of zero is handed down, so the timeout is not used.
  unfoldable pub poll_socket : (socket timeout : ℤ) → M W ℤ
  poll_socket socket timeout =
      if is_invalid_socket socket
      then pure minus_one
      else Socket.poll_socket os socket timeout (some (record { tv_sec = pos 0; tv_usec = pos 0 }))

  unfoldable pub ready : UdpSocket W → (timeout : ℕ) → M W Bool
  unfolding poll_socket
  ready u timeout =
      if not (is_bound u)
      then pure false
      else do result ← poll_socket u.receive_socket (to_long timeout); pure (is_positive result)

  unfoldable pub send_to :
      UdpSocket W → SocketAddress → (buffer : Bytes) (buffer_length flags : ℤ) → M W ℤ
  send_to u address buffer buffer_length flags = do
    temp_socket ← call (os.socket (pos address.sa_family) sock_dgram ipproto_udp)
    if is_invalid_socket temp_socket then pure (negsuc 1) else do
      temp_socket' ← run_operation u.pre_send_socket_operation temp_socket
      result ← call (
          os.sendto temp_socket' buffer (to_size buffer_length) flags address
            (get_address_length address))
      Socket.close os temp_socket'
      pure result

  unfoldable pub send_string_to :
      UdpSocket W → SocketAddress → (message : Bytes) (flags : ℤ) → M W ℤ
  unfolding send_to
  send_string_to u address message flags = send_to u address message (to_int (length message)) flags

  abbrev send_to_first :
      UdpSocket W → List SocketAddress → (buffer : Bytes) (buffer_length flags : ℤ) → M W Answer
  send_to_first u [] buffer buffer_length flags = pure (pos 0, zero_address)
  send_to_first u (first ∷ rest) buffer buffer_length flags = do
    result ← send_to u first buffer buffer_length flags
    pure (result, first)

  unfoldable pub send_to_host :
      UdpSocket W
      → (hostname : Bytes) (port : ℕ) (buffer : Bytes) (buffer_length flags : ℤ)
      → InternetProtocolVersion
      → M W Answer
  unfolding send_to
  send_to_host u hostname port buffer buffer_length flags version = do
    let hints = create_udp_hints version 0
    (addresses, code) ← resolve_to_addresses os hostname port hints
    if eq_ℤ code (pos 0)
        then send_to_first u addresses buffer buffer_length flags
        else pure (pos 0, zero_address)

  unfoldable pub send_string_to_host :
      UdpSocket W
      → (hostname : Bytes) (port : ℕ) (message : Bytes) (flags : ℤ) → InternetProtocolVersion
      → M W Answer
  unfolding send_to_host
  send_string_to_host u hostname port message flags version =
      send_to_host u hostname port message (to_int (length message)) flags version

  -- The buffer after the call, the code and the sender's address.
  unfoldable pub receive_buffer_from :
      UdpSocket W → (buffer : Bytes) (receive_length flags : ℤ) → M W (Bytes × Answer)
  receive_buffer_from u buffer receive_length flags =
      if not (is_bound u) || eq_ℤ receive_length (pos 0)
      then pure (buffer, (minus_one, zero_address))
      else (do
        (flag, received, address) ←
            call (os.recvfrom u.receive_socket (to_size receive_length) flags)
        pure (write_at buffer 0 received, (flag, address)))

  -- `data.resize` throws for a negative length, which becomes a huge `size_t`.
  unfoldable pub receive_from :
      UdpSocket W → (receive_length flags : ℤ) → M W (Option Bytes × Answer)
  unfolding receive_buffer_from
  receive_from u receive_length flags =
      if not (is_nonneg receive_length) then raise length_error else do
        (text, (code, address)) ←
            receive_buffer_from u (replicate (pos_part receive_length) 0) receive_length flags
        pure (non_empty (cut_to code receive_length text), (code, address))
