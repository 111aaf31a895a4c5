-- ===== src/TcpServer/Program.antt =====
-- A program with a TCP server, from the construction of the server to the end.
use cpp_socket_library.Prelude.{ℕ, ◌≡◌, Bool, false, Option, List, Bytes, ℤ}
use cpp_socket_library.Errors.{get_invalid_socket_value}
use cpp_socket_library.Protocol.{InternetProtocolVersion}
use cpp_socket_library.System.{Os, M}
use cpp_socket_library.System.Laws.{IsLedger}
use cpp_socket_library.System.Table.{SameTable}
use cpp_socket_library.System.Ends
use cpp_socket_library.System.Ends.{Ends}
use cpp_socket_library.TcpServer.{Operation, create}
use cpp_socket_library.TcpServer.Listen.{Failed}
use cpp_socket_library.TcpServer.Open.{ReuseWorks, IsTame}
use cpp_socket_library.TcpServer.Create.{create-Failed}
use cpp_socket_library.TcpServer.Contract.{
  tcp_connection, tcp_server, NamesAccepted, tcp_server-IsServer,
}
use cpp_socket_library.ServerSocket.{Request}
use cpp_socket_library.ServerSocket.Program.{run_program, run_program-Ends}

module _ {W : Type 0} (os : Os W) where
  unfoldable pub run_server :
      Option Bytes
      → (port backlog : ℕ) → InternetProtocolVersion
      → Option (Operation W)
      → List Request
      → M W (Unit {0})
  unfolding create
  run_server local_hostname port backlog version pre_bind requests =
      run_program (tcp_server os) (tcp_connection os)
        (create os local_hostname port backlog version pre_bind) requests

  -- A program that constructs a TCP server, serves any requests with it, catching
  -- `SocketException`, and closes what it holds at the end: it ends, and the table of descriptors
  -- is as it was before. Where it throws, this is the constructor of the server, and a handler for
  -- `SocketException` catches it. `SO_REUSEADDR` can be set, the operation before binding keeps the
  -- descriptor and the table of descriptors, and the address of every accepted connection has a
  -- text. The invalid descriptor is not open at the start.
  pub run_server-Ends :
      (is_open : W → ℤ → Bool) (law : IsLedger os is_open)
      → ReuseWorks os is_open law
      → NamesAccepted os
      → (pre_bind : Option (Operation W)) → IsTame os is_open law pre_bind
      → (local_hostname : Option Bytes) (port backlog : ℕ) (version : InternetProtocolVersion)
        (requests : List Request) (w : W)
      → is_open w get_invalid_socket_value ≡ false
      → Ends
          (λ u w'. SameTable is_open w w')
          (Failed os is_open law w)
          (run_server local_hostname port backlog version pre_bind requests w)
  unfolding run_server
  run_server-Ends is_open law reuse named pre_bind tame local_hostname port backlog version requests
        w nothing =
      let promise = tcp_server-IsServer os is_open law named in
      run_program-Ends (tcp_server os) (tcp_connection os) is_open (λ s. s.socket_descriptor)
        (λ t. t.socket_descriptor) promise.0 promise.1
        (create os local_hostname port backlog version pre_bind) requests w
        (Ends.mono
          (create-Failed os is_open law reuse pre_bind tame local_hostname port backlog version w)
          (λ s w' listening. listening.opens) (λ e w' failed. failed))
        nothing
