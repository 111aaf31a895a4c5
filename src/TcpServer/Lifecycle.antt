-- ===== src/TcpServer/Lifecycle.antt =====
-- A server, a client that connects to it, and the accepted connection, from creation to closing.
use cpp_socket_library.Prelude.{
  ℕ, ◌≡◌, refl, inl, inr, Bool, true, Option, none, Bytes, ℤ, eq_ℤ→≡, arith,
}
use cpp_socket_library.Errors.{Exception, is_socket_exception, get_invalid_socket_value}
use cpp_socket_library.Protocol.{InternetProtocolVersion, any}
use cpp_socket_library.System.{Os, M, pure, ◌>>=◌}
use cpp_socket_library.System.Laws.{IsLedger}
use cpp_socket_library.System.Table.{SameTable, Opens}
use cpp_socket_library.System.Ends
use cpp_socket_library.System.Ends.{Ends, returned, threw}
use cpp_socket_library.Socket
use cpp_socket_library.TcpSocket
use cpp_socket_library.TcpSocket.{TcpSocket, from_hostname}
use cpp_socket_library.TcpSocket.Connect.{from_hostname-Ends}
use cpp_socket_library.TcpServer
use cpp_socket_library.TcpServer.{TcpServer, Operation, create, accept}
use cpp_socket_library.TcpServer.Open.{ReuseWorks, IsTame}
use cpp_socket_library.TcpServer.Create.{create-Failed}
use cpp_socket_library.TcpServer.Accept.{Rejected, accept-Ends}

module _ {W : Type 0} (os : Os W) where
  -- The client names the server's host, and connects to the port that the server listens on.
  unfoldable pub connect_and_close :
      (hostname : Bytes) (port backlog : ℕ)
      → InternetProtocolVersion
      → Option (Operation W)
      → (timeout : ℤ) → M W (TcpServer × TcpSocket × TcpSocket)
  unfolding create from_hostname accept TcpSocket.close TcpServer.close
  connect_and_close hostname port backlog version pre_bind timeout = do
    server ← create os none port backlog version pre_bind
    client ← from_hostname os hostname server.port any
    connection ← accept os server timeout
    client' ← TcpSocket.close os client
    server' ← TcpServer.close os server
    connection' ← TcpSocket.close os connection
    pure (server', client', connection')

  module _ (is_open : W → ℤ → Bool) (law : IsLedger os is_open) where
    -- Three descriptors that were opened one after the other, and closed.
    close_three :
        (s c a : ℤ) (w w₁ w₂ w₃ : W)
        → Opens is_open s w w₁
        → Opens is_open c w₁ w₂
        → Opens is_open a w₂ w₃
        → SameTable is_open w (os.close a (os.close s (os.close c w₃).1).1).1
    close_three s c a w w₁ w₂ w₃ os₁ oc oa d = ground (
      arith,
      law.close_closes c w₃ d,
      law.close_closes s (os.close c w₃).1 d,
      law.close_closes a (os.close s (os.close c w₃).1).1 d,
      os₁.opened d,
      oc.opened d,
      oa.opened d,
      os₁.opened c,
      os₁.opened a,
      oc.opened a,
      os₁.fresh,
      oc.fresh,
      oa.fresh,
      eq_ℤ→≡ d s,
      eq_ℤ→≡ d c,
      eq_ℤ→≡ d a,
    )

    caught_of_Rejected :
        (s : TcpServer) (timeout : ℤ) (w : W) (e : Exception) (w' : W)
        → Rejected os is_open law s timeout w e w'
        → is_socket_exception e ≡ true
    unfolding is_socket_exception
    caught_of_Rejected s timeout w e w' (inl (late, r, same)) = rw late refl
    caught_of_Rejected s timeout w e w' (inr (k, left)) = rw k refl

    -- A server, a client that connects to the server's port, and the connection that the server
    -- accepts, all closed: this ends, whatever the system answers. If nothing throws, the table of
    -- descriptors is as it was, and each of the three objects holds the invalid descriptor; or what
    -- is thrown is caught by a handler for `SocketException`.
    -- `SO_REUSEADDR` can be set, and the operation before binding keeps the descriptor and the
    -- table of descriptors.
    pub connect_and_close-Ends :
        ReuseWorks os is_open law
        → (pre_bind : Option (Operation W)) → IsTame os is_open law pre_bind
        → (hostname : Bytes) (port backlog : ℕ) (version : InternetProtocolVersion) (timeout : ℤ)
          (w : W)
        → Ends
            (λ r w'.
              SameTable is_open w w'
              × (r.0.socket_descriptor ≡ get_invalid_socket_value)
              × (r.1.socket_descriptor ≡ get_invalid_socket_value)
              × (r.2.socket_descriptor ≡ get_invalid_socket_value))
            (λ e w'. is_socket_exception e ≡ true)
            (connect_and_close hostname port backlog version pre_bind timeout w)
    unfolding connect_and_close TcpSocket.close TcpServer.close Socket.close is_socket_exception
    connect_and_close-Ends reuse pre_bind tame hostname port backlog version timeout w =
        Ends.bind
          (Ends.mono (create-Failed os is_open law reuse pre_bind tame none port backlog version w)
            (λ s w₁ l. l) (λ e w₁ f. f.caught))
          λ s w₁ listening.
            Ends.bind
              (Ends.mono (from_hostname-Ends os is_open law hostname s.port any w₁) (λ c w₂ p. p)
                (λ e w₂ f. rw f.kind refl))
              λ c w₂ connected.
                Ends.bind
                  (Ends.mono (accept-Ends os is_open law s timeout w₂) (λ a w₃ p. p)
                    (caught_of_Rejected s timeout w₂))
                  λ a w₃ accepted. returned (
                    close_three s.socket_descriptor c.socket_descriptor a.socket_descriptor w w₁ w₂
                        w₃ listening.opens connected.0 accepted.opens,
                    refl,
                    refl,
                    refl,
                  )
