-- ===== src/Ipc/Server/Program.antt =====
-- A program with a server on a path, from the construction of the server to the end.
use cpp_socket_library.Prelude.{ℕ, ◌≡◌, ◌⊎◌, Bool, false, Option, List, Bytes, ℤ}
use cpp_socket_library.Errors.{get_invalid_socket_value}
use cpp_socket_library.System.{Os, M}
use cpp_socket_library.System.Laws.{IsLedger}
use cpp_socket_library.System.Table.{SameTable}
use cpp_socket_library.System.Ends
use cpp_socket_library.System.Ends.{Ends}
use cpp_socket_library.TcpServer.{Operation}
use cpp_socket_library.TcpServer.Open.{IsGentle}
use cpp_socket_library.Ipc.Server.{create, Failed, Stranded, create_on_path-Ends}
use cpp_socket_library.Ipc.Server.Contract.{ipc_connection, ipc_server, ipc_server-IsServer}
use cpp_socket_library.ServerSocket.{Request}
use cpp_socket_library.ServerSocket.Program.{run_program, run_program-Ends}

module _ {W : Type 0} (os : Os W) where
  unfoldable pub run_server_on_path :
      (path : Bytes) (override : Bool) (backlog : ℕ)
      → Option (Operation W)
      → List Request
      → M W (Unit {0})
  unfolding create
  run_server_on_path path override backlog pre_bind requests =
      run_program (ipc_server os) (ipc_connection os) (create os path override backlog pre_bind)
        requests

  -- A program that constructs a server on a path, serves any requests with it, catching
  -- `SocketException`, and closes what it holds at the end: it ends. Where it returns, the table of
  -- descriptors is as it was before. Where it throws, this is the constructor of the server: an
  -- exception that a handler for `SocketException` catches, with the table as it was, or what the
  -- operation before binding threw, with the one descriptor that was opened left open. That
  -- operation ends, opens and closes no descriptor, and keeps its descriptor where it returns. The
  -- invalid descriptor is not open at the start.
  pub run_server_on_path-Ends :
      (is_open : W → ℤ → Bool) (law : IsLedger os is_open) (pre_bind : Option (Operation W))
      → IsGentle os is_open law pre_bind
      → (path : Bytes) (override : Bool) (backlog : ℕ) (requests : List Request) (w : W)
      → is_open w get_invalid_socket_value ≡ false
      → Ends
          (λ u w'. SameTable is_open w w')
          (λ e w'. Failed os is_open law w e w' ⊎ Stranded os is_open law pre_bind w e w')
          (run_server_on_path path override backlog pre_bind requests w)
  unfolding run_server_on_path
  run_server_on_path-Ends is_open law pre_bind gentle path override backlog requests w nothing =
      let promise = ipc_server-IsServer os is_open law in
      run_program-Ends (ipc_server os) (ipc_connection os) is_open (λ s. s.socket) (λ t. t.socket)
        promise.0 promise.1 (create os path override backlog pre_bind) requests w
        (Ends.mono (create_on_path-Ends os is_open law path override backlog pre_bind w gentle)
          (λ s w' (named, opens). opens) (λ e w' thrown. thrown))
        nothing
