-- ===== src/Ipc/Datagrams.antt =====
-- DatagramIPCSocket.h and DatagramIPCSocket.cpp: datagrams over socket paths. As in `UdpSocket`, a
-- method that assigns to the object runs over the object and the outside.
pub mod Valid
pub mod Sends
pub mod Rebind
pub mod Contract
pub mod Exchange
pub mod Orderly
pub mod History
use cpp_socket_library.Prelude.{
  ℕ, Bool, true, false, not, ◌||◌, Option, none, some, [], if◌then◌else◌, length, replicate, ◌++◌,
  ◌∷◌, Bytes, write_at, ℤ, pos, negsuc, minus_one, eq_ℤ, is_positive, is_nonneg, pos_part, to_int,
  to_long, to_size,
}
use cpp_socket_library.Errors.{
  socket_exception, binding_exception, bad_optional_access, length_error, get_invalid_socket_value,
  is_invalid_socket,
}
use cpp_socket_library.Protocol.{af_unix}
use cpp_socket_library.System.{Os, M, pure, raise, call, ◌>>=◌, ◌>>◌, lift, this, assign}
use cpp_socket_library.Address.{sock_dgram}
use cpp_socket_library.Socket
use cpp_socket_library.TcpServer.{Operation, run_operation}
use cpp_socket_library.Datagram.{cut_to, non_empty}
use cpp_socket_library.Ipc.SocketPath.{fit_path, unix_address, sockaddr_un_size, remove_socket_path}

pub record DatagramIpcSocket (W : Type 0) : Type 0 where
  pub bound : Bool
  pub socket_path : Option Bytes
  pub receive_socket : ℤ
  pub pre_send_socket_operation : Option (Operation W)

-- The result of `bind` and `receiveFrom`: the code, and a path.
abbrev pub Answer : Type 0
Answer = ℤ × Bytes

module _ {W : Type 0} where
  -- The constructor.
  abbrev pub new_socket : DatagramIpcSocket W
  new_socket = record {
    bound = false;
    socket_path = none;
    receive_socket = get_invalid_socket_value;
    pre_send_socket_operation = none;
  }

  abbrev pub is_bound : DatagramIpcSocket W → Bool
  is_bound s = s.bound

  abbrev pub get_listening_socket : DatagramIpcSocket W → ℤ
  get_listening_socket s = s.receive_socket

  abbrev pub get_socket_path : DatagramIpcSocket W → Option Bytes
  get_socket_path s = s.socket_path

  unfoldable pub set_pre_send_socket_operation :
      DatagramIpcSocket W → Operation W → DatagramIpcSocket W
  set_pre_send_socket_operation u operation = record u {
    pre_send_socket_operation = some operation;
  }

module _ {W : Type 0} (os : Os W) where
  -- The removal of the file that the object is bound to.
  abbrev remove_bound : Bool → Option Bytes → M W (Unit {0})
  remove_bound false path = pure tt
  remove_bound true none = pure tt
  remove_bound true (some path) = do remove_socket_path os path; pure tt

  unfoldable pub close : M (DatagramIpcSocket W × W) (Unit {0})
  unfolding remove_socket_path
  close = do
    u ← this
    lift (Socket.close os u.receive_socket)
    assign (record u { receive_socket = get_invalid_socket_value })
    u₁ ← this
    lift (remove_bound (is_bound u₁) u₁.socket_path)
    assign (record u₁ { socket_path = none; bound = false })

  abbrev remove_old : Bool → Bytes → M W (Unit {0})
  remove_old false path = pure tt
  remove_old true path = do remove_socket_path os path; pure tt

  -- `bind` from the call of the system's `bind` on.
  unfoldable pub bind_receive_socket : (path : Bytes) → M (DatagramIpcSocket W × W) Answer
  bind_receive_socket path = do
    u ← this
    bind_result ← lift (call (os.bind u.receive_socket (unix_address path) sockaddr_un_size))
    assign (record u { bound = not (eq_ℤ bind_result minus_one) })
    if eq_ℤ bind_result minus_one
        then pure (bind_result, [])
        else do u₁ ← this; assign (record u₁ { socket_path = some path }); pure (bind_result, path)

  unfoldable pub bind_override :
      (override : Bool) → Option Bytes → Option (Operation W) → M (DatagramIpcSocket W × W) Answer
  unfolding bind_receive_socket close remove_socket_path
  bind_override override none pre_bind = raise binding_exception
  bind_override override (some socket_path) pre_bind = do
    lift (remove_old override (fit_path socket_path))
    descriptor ← lift (call (os.socket (pos af_unix) sock_dgram 0))
    u ← this
    assign (record u { receive_socket = descriptor })
    if is_invalid_socket descriptor then raise socket_exception else do
      u₁ ← this
      if is_bound u₁ then close else pure tt
      u₂ ← this
      descriptor' ← lift (run_operation pre_bind u₂.receive_socket)
      u₃ ← this
      assign (record u₃ { receive_socket = descriptor' })
      bind_receive_socket (fit_path socket_path)

  unfoldable pub bind : Option Bytes → Option (Operation W) → M (DatagramIpcSocket W × W) Answer
  unfolding bind_override
  bind socket_path pre_bind = bind_override false socket_path pre_bind

  unfoldable pub ready : DatagramIpcSocket W → (timeout : ℕ) → M W Bool
  ready u timeout = if not (is_bound u) then pure false else do
    result ← Socket.poll_socket os u.receive_socket (to_long timeout) none
    pure (is_positive result)

  unfoldable pub send_to :
      DatagramIpcSocket W → (path buffer : Bytes) (buffer_length flags : ℤ) → M W ℤ
  send_to u path buffer buffer_length flags = do
    temp_socket ← call (os.socket (pos af_unix) sock_dgram 0)
    if is_invalid_socket temp_socket then pure (negsuc 1) else do
      temp_socket' ← run_operation u.pre_send_socket_operation temp_socket
      result ← call (
          os.sendto temp_socket' buffer (to_size buffer_length) flags (unix_address (fit_path path))
            sockaddr_un_size)
      Socket.close os temp_socket'
      pure result

  unfoldable pub send_string_to : DatagramIpcSocket W → (path message : Bytes) (flags : ℤ) → M W ℤ
  unfolding send_to
  send_string_to u path message flags =
      send_to u path (message ++ 0 ∷ []) (to_int (length message)) flags

  -- `socketPath.value()`
  abbrev own_path : Bytes → ℤ → Option Bytes → M W (Bytes × Answer)
  own_path buffer flag none = raise bad_optional_access
  own_path buffer flag (some path) = pure (buffer, (flag, path))

  -- The buffer after the call, the code and the path.
  unfoldable pub receive_buffer_from :
      DatagramIpcSocket W → (buffer : Bytes) (receive_length flags : ℤ) → M W (Bytes × Answer)
  receive_buffer_from u buffer receive_length flags =
      if not (is_bound u) || eq_ℤ receive_length (pos 0)
      then pure (buffer, (minus_one, []))
      else (do
        (flag, received, address) ←
            call (os.recvfrom u.receive_socket (to_size receive_length) flags)
        own_path (write_at buffer 0 received) flag u.socket_path)

  unfoldable pub receive_from :
      DatagramIpcSocket W → (receive_length flags : ℤ) → M W (Option Bytes × Answer)
  unfolding receive_buffer_from
  receive_from u receive_length flags =
      if not (is_nonneg receive_length) then raise length_error else do
        (text, (code, path)) ←
            receive_buffer_from u (replicate (pos_part receive_length) 0) receive_length flags
        pure (non_empty (cut_to code receive_length text), (code, path))
