-- ===== src/UdpSocket/History.antt =====
-- What the calls on one UDP socket let a caller see.
use cpp_socket_library.Prelude.{Bool, List, All, ℤ}
use cpp_socket_library.System.{Os}
use cpp_socket_library.System.Laws.{IsLedger}
use cpp_socket_library.System.Returns.{Returns}
use cpp_socket_library.Address.{SocketAddress, zero_address, get_port_number}
use cpp_socket_library.Address.Resolve.{IsFull}
use cpp_socket_library.ConnectionLess.{Call, IsProper, Trace, perform_each}
use cpp_socket_library.ConnectionLess.History.{perform_each-Trace}
use cpp_socket_library.UdpSocket.{UdpSocket}
use cpp_socket_library.UdpSocket.Contract.{udp_socket, IsSafe, port_of, udp_socket-IsConnectionLess}

module _ {W : Type 0} (os : Os W) (is_open : W → ℤ → Bool) (law : IsLedger os is_open) where
  -- Any calls of `bind`, `close`, `ready`, `sendTo` and `receiveFrom` on one valid UDP socket, by a
  -- caller that catches what they throw, end and leave a valid socket, whatever the system answers;
  -- and what the caller sees is a trace of a socket that knows nothing but its listening port. So a
  -- socket listens only on the port in the last answer of `bind`; a `bind` that throws leaves the
  -- port or none; a socket that is not bound is never ready, and receives only the code -1 and the
  -- zero address; only a negative length makes `receiveFrom` throw; and `ready`, `sendTo` and
  -- `receiveFrom` leave the port as it is. The addresses to bind to are full unions, the operations
  -- before binding end, and the one before sending is harmless.
  pub udp_socket-Trace :
      (calls : List (Call W SocketAddress)) (u : UdpSocket W) (w : W)
      → All (IsProper IsFull) calls
      → IsSafe os is_open law u
      → Returns
          (λ seen s.
            IsSafe os is_open law s.0
            × Trace zero_address get_port_number calls u.listening_port seen s.0.listening_port)
          (perform_each (udp_socket os) calls (u, w))
  udp_socket-Trace =
      perform_each-Trace is_open (IsSafe os is_open law) port_of zero_address get_port_number IsFull
        (udp_socket os) (udp_socket-IsConnectionLess os is_open law)
