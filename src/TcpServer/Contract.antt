-- ===== src/TcpServer/Contract.antt =====
-- The TCP server as a `ServerSocket` whose connections are TCP sockets.
use cpp_socket_library.Prelude.{
  ◌≡◌, refl, inl, inr, Bool, true, false, some, Bytes, ℤ, Bool-cases, arith,
}
use cpp_socket_library.Errors.{Exception, is_socket_exception, is_invalid_socket}
use cpp_socket_library.System.{Os}
use cpp_socket_library.System.Laws.{IsLedger}
use cpp_socket_library.System.Table.{SameTable, Opens, same-Opens}
use cpp_socket_library.System.Returns.{returns}
use cpp_socket_library.System.Ends
use cpp_socket_library.System.Ends.{Ends, returned, threw}
use cpp_socket_library.Address.{get_address}
use cpp_socket_library.Socket
use cpp_socket_library.TcpSocket
use cpp_socket_library.TcpSocket.{TcpSocket, from_accepted}
use cpp_socket_library.TcpServer
use cpp_socket_library.TcpServer.{TcpServer, accept}
use cpp_socket_library.TcpServer.Accept.{Waiting, await_connection-Ends, accept-Opens}
use cpp_socket_library.ServerSocket.{Closable, ServerSocket, IsClosable, IsServer}

module _ {W : Type 0} (os : Os W) where
  abbrev pub tcp_connection : Closable W TcpSocket
  tcp_connection = record { close = TcpSocket.close os }

  abbrev pub tcp_server : ServerSocket W TcpServer TcpSocket
  tcp_server = record { base = record { close = TcpServer.close os }; accept = accept os }

  -- The address of every accepted connection has a text.
  abbrev pub NamesAccepted : Type 0
  NamesAccepted =
      (fd : ℤ) (w : W)
      → is_invalid_socket (os.accept fd w).0.0 ≡ false
      → (text : Bytes) × (get_address os (os.accept fd w).0.1 ≡ some text)

  module _ (is_open : W → ℤ → Bool) (law : IsLedger os is_open) where
    pub tcp_connection-IsClosable : IsClosable is_open (λ t. t.socket_descriptor) tcp_connection
    unfolding TcpSocket.close Socket.close
    tcp_connection-IsClosable t w = returns (refl, λ d. law.close_closes t.socket_descriptor w d)

    tcp_server-IsClosable :
        IsClosable is_open (λ s. s.socket_descriptor) (record { close = TcpServer.close os })
    unfolding TcpServer.close Socket.close
    tcp_server-IsClosable s w = returns (refl, λ d. law.close_closes s.socket_descriptor w d)

    Waiting-caught :
        (timeout : ℤ) (w : W) (e : Exception) (w' : W)
        → Waiting os is_open law timeout w e w'
        → (is_socket_exception e ≡ true) × SameTable is_open w w'
    unfolding is_socket_exception
    Waiting-caught timeout w e w' (same, inl k) = (rw k refl, same)
    Waiting-caught timeout w e w' (same, inr (k, waits)) = (rw k refl, same)

    accept-opens :
        NamesAccepted
        → (s : TcpServer) (timeout : ℤ) (w : W)
        → Ends
            (λ t w'. Opens is_open t.socket_descriptor w w')
            (λ e w'. (is_socket_exception e ≡ true) × SameTable is_open w w')
            (accept os s timeout w)
    unfolding accept from_accepted is_socket_exception
    accept-opens named s timeout w =
        Ends.bind
          (Ends.mono (await_connection-Ends os is_open law s timeout w) (λ u w₁ p. p)
            (Waiting-caught timeout w))
          λ u w₁ same.
            let fd = s.socket_descriptor in
            elim (Bool-cases (is_invalid_socket (os.accept fd w₁).0.0)) [
              | inl bad ↦
                  rw bad (threw (refl, λ d. ground (arith, law.accept_opens fd w₁ d, same d)))
              | inr good ↦
                  rw (good, (named fd w₁ good).1)
                    (returned (same-Opens is_open same (accept-Opens os is_open law fd w₁ good)))
            ]

    -- A TCP server keeps the promise of the interface of servers, with TCP sockets as connections,
    -- where the address of every accepted connection has a text: `accept` ends, with a socket that
    -- holds the one descriptor that was opened, or with an exception that a handler for
    -- `SocketException` catches and nothing opened; and `close` of the server closes its descriptor
    -- and no other, and leaves a server with the invalid descriptor. The `close` of a TCP socket
    -- does the same for the socket.
    pub tcp_server-IsServer :
        NamesAccepted
        → IsServer is_open (λ s. s.socket_descriptor) (λ t. t.socket_descriptor) tcp_server
          × IsClosable is_open (λ t. t.socket_descriptor) tcp_connection
    tcp_server-IsServer named = (
      record { closes = tcp_server-IsClosable; accepts = accept-opens named },
      tcp_connection-IsClosable,
    )
