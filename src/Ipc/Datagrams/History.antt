-- ===== src/Ipc/Datagrams/History.antt =====
-- What the calls on one datagram socket on a path let a caller see.
use cpp_socket_library.Prelude.{Bool, List, [], All, Bytes, ℤ}
use cpp_socket_library.System.{Os}
use cpp_socket_library.System.Laws.{IsLedger}
use cpp_socket_library.System.Returns.{Returns}
use cpp_socket_library.ConnectionLess.{Call, IsProper, Trace, perform_each}
use cpp_socket_library.ConnectionLess.History.{perform_each-Trace}
use cpp_socket_library.Ipc.Datagrams.{DatagramIpcSocket}
use cpp_socket_library.Ipc.Datagrams.Contract.{
  datagram_socket, IsSafe, path_of, path_shown, datagram_socket-IsConnectionLess,
}

module _ {W : Type 0} (os : Os W) (is_open : W → ℤ → Bool) (law : IsLedger os is_open) where
  -- Any calls of `bind`, `close`, `ready`, `sendTo` and `receiveFrom` on one valid datagram socket
  -- on a path, by a caller that catches what they throw, end and leave a valid socket, whatever the
  -- system answers; and what the caller sees is a trace of a socket that knows nothing but its
  -- path. So a socket has only the path in the last answer of `bind`; a `bind` that throws leaves
  -- the path or none; a socket that is not bound is never ready, and receives only the code -1 and
  -- no path; only a negative length makes `receiveFrom` throw; and `ready`, `sendTo` and
  -- `receiveFrom` leave the path as it is. The operations before binding end, and the one before
  -- sending is harmless.
  pub datagram_socket-Trace :
      (calls : List (Call W Bytes)) (u : DatagramIpcSocket W) (w : W)
      → All (IsProper (λ path. Unit {0})) calls
      → IsSafe os is_open law u
      → Returns
          (λ seen s.
            IsSafe os is_open law s.0
            × Trace [] path_shown calls u.socket_path seen s.0.socket_path)
          (perform_each (datagram_socket os) calls (u, w))
  datagram_socket-Trace =
      perform_each-Trace is_open (IsSafe os is_open law) path_of [] path_shown (λ path. Unit {0})
        (datagram_socket os) (datagram_socket-IsConnectionLess os is_open law)
