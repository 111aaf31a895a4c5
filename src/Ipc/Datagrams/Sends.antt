-- ===== src/Ipc/Datagrams/Sends.antt =====
-- Sending from a datagram socket on a path.
use cpp_socket_library.Prelude.{Bool, Bytes, ℤ, pos, to_size}
use cpp_socket_library.System.Ends.{Ends}
use cpp_socket_library.ConnectionLess.Sending.{Stranded, Transmitted, sending-Ends, sending-Returns}
use cpp_socket_library.Errors.{Exception}
use cpp_socket_library.Protocol.{af_unix}
use cpp_socket_library.System.{Os}
use cpp_socket_library.System.Laws.{IsLedger}
use cpp_socket_library.System.Table.{SameTable}
use cpp_socket_library.System.Returns
use cpp_socket_library.System.Returns.{Returns, returns}
use cpp_socket_library.Address.{sock_dgram}
use cpp_socket_library.ConnectionLess.{SendsSafely, SendsGently}
use cpp_socket_library.Ipc.SocketPath.{fit_path, unix_address, sockaddr_un_size}
use cpp_socket_library.Ipc.Datagrams.{DatagramIpcSocket, send_to}

module _ {W : Type 0} (os : Os W) (is_open : W → ℤ → Bool) (law : IsLedger os is_open)
    (u : DatagramIpcSocket W) (path buffer : Bytes) (buffer_length flags : ℤ) where
  -- The call of the system, on a descriptor.
  abbrev pub transmit : ℤ → W → ℤ × W
  transmit fd =
      os.sendto fd buffer (to_size buffer_length) flags (unix_address (fit_path path))
        sockaddr_un_size

  transmit_keeps : (fd : ℤ) (w : W) → SameTable is_open w (transmit fd w).1
  transmit_keeps fd =
      law.sendto_keeps fd buffer (to_size buffer_length) flags (unix_address (fit_path path))
        sockaddr_un_size

  abbrev pub Left : W → Exception → W → Type 0
  Left = Stranded os is_open law (pos af_unix) sock_dgram 0 u.pre_send_socket_operation transmit

  abbrev pub Done : W → ℤ → W → Type 0
  Done = Transmitted os is_open law (pos af_unix) sock_dgram 0 u.pre_send_socket_operation transmit

  -- Sending to a path ends, if the operation before sending ends, opens and closes no descriptor,
  -- and keeps its descriptor where it returns. Where it returns, the table of descriptors is as it
  -- was, and it answers -2 where there was no valid descriptor, and otherwise what the system
  -- answered. It throws only what the operation before sending throws, and then leaves the one
  -- descriptor open that it opened.
  pub send_to_path-Ends :
      SendsGently is_open u.pre_send_socket_operation
      → (w : W) → Ends (Done w) (Left w) (send_to os u path buffer buffer_length flags w)
  unfolding send_to
  send_to_path-Ends gentle w =
      sending-Ends os is_open law (pos af_unix) sock_dgram 0 u.pre_send_socket_operation transmit
        transmit_keeps gentle w

  -- Sending returns and leaves the table of descriptors as it was.
  pub send_to-closes :
      SendsSafely is_open u.pre_send_socket_operation
      → (w : W)
      → Returns (λ r w'. SameTable is_open w w') (send_to os u path buffer buffer_length flags w)
  unfolding send_to
  send_to-closes safe w =
      Returns.mono
        (sending-Returns os is_open law (pos af_unix) sock_dgram 0 u.pre_send_socket_operation
          transmit transmit_keeps safe w)
        λ r w' p. p.0
