-- ===== src/Ipc/Server/Contract.antt =====
-- The server on a path as a `ServerSocket` whose connections are local stream sockets.
use cpp_socket_library.Prelude.{◌≡◌, refl, inl, inr, ◌∙◌, Bool, true, until_nul, ℤ}
use cpp_socket_library.Errors.{Exception, is_socket_exception}
use cpp_socket_library.System.{Os}
use cpp_socket_library.System.Laws.{IsLedger}
use cpp_socket_library.System.Table.{SameTable}
use cpp_socket_library.System.Returns.{returns}
use cpp_socket_library.System.Ends
use cpp_socket_library.Socket
use cpp_socket_library.Ipc.SocketPath.{remove_socket_path}
use cpp_socket_library.Ipc.Channel
use cpp_socket_library.Ipc.Channel.{StreamIpcSocket}
use cpp_socket_library.Ipc.Server
use cpp_socket_library.Ipc.Server.{IpcServer, accept}
use cpp_socket_library.Ipc.Accept.{Unaccepted, accept_on_path-Ends}
use cpp_socket_library.ServerSocket.{Closable, ServerSocket, IsClosable, IsServer}

module _ {W : Type 0} (os : Os W) where
  abbrev pub ipc_connection : Closable W StreamIpcSocket
  ipc_connection = record { close = Channel.close os }

  abbrev pub ipc_server : ServerSocket W IpcServer StreamIpcSocket
  ipc_server = record { base = record { close = Server.close os }; accept = accept os }

  module _ (is_open : W → ℤ → Bool) (law : IsLedger os is_open) where
    pub ipc_connection-IsClosable : IsClosable is_open (λ t. t.socket) ipc_connection
    unfolding Channel.close Socket.close
    ipc_connection-IsClosable t w = returns (refl, λ d. law.close_closes t.socket w d)

    ipc_server-IsClosable : IsClosable is_open (λ s. s.socket) (record { close = Server.close os })
    unfolding Server.close Socket.close remove_socket_path
    ipc_server-IsClosable s w = returns (
      refl,
      λ d.
          law.remove_keeps (until_nul s.socket_path) (os.close s.socket w).1 d
          ∙ law.close_closes s.socket w d,
    )

    Unaccepted-caught :
        (timeout : ℤ) (w : W) (e : Exception) (w' : W)
        → Unaccepted os is_open law timeout w e w'
        → (is_socket_exception e ≡ true) × SameTable is_open w w'
    unfolding is_socket_exception
    Unaccepted-caught timeout w e w' (same, inl k) = (rw k refl, same)
    Unaccepted-caught timeout w e w' (same, inr (k, waits)) = (rw k refl, same)

    -- A server on a path keeps the promise of the interface of servers, with local stream sockets
    -- as connections: `accept` ends, with a socket that holds the one descriptor that was opened,
    -- or with an exception that a handler for `SocketException` catches and nothing opened; and
    -- `close` of the server closes its descriptor and no other, and leaves a server with the
    -- invalid descriptor. The `close` of a connection does the same for the connection.
    pub ipc_server-IsServer :
        IsServer is_open (λ s. s.socket) (λ t. t.socket) ipc_server
        × IsClosable is_open (λ t. t.socket) ipc_connection
    ipc_server-IsServer = (
      record {
        closes = ipc_server-IsClosable;
        accepts = λ s timeout w.
            Ends.mono (accept_on_path-Ends os is_open law s timeout w) (λ t w' opens. opens)
              (Unaccepted-caught timeout w);
      },
      ipc_connection-IsClosable,
    )
