-- ===== src/Ipc/Datagrams/Rebind.antt =====
-- Binding a datagram socket on a path a second time.
use cpp_socket_library.Prelude.{
  ◌≡◌, refl, ◌∙◌, Bool, true, false, none, some, [], Bytes, until_nul, ℤ, pos, minus_one,
}
use cpp_socket_library.Errors.{is_invalid_socket, get_invalid_socket_value}
use cpp_socket_library.Protocol.{af_unix}
use cpp_socket_library.System.{Os}
use cpp_socket_library.System.Laws.{IsLedger, IsFiles}
use cpp_socket_library.System.Table.{SameTable, socket-Opens, close-Opens}
use cpp_socket_library.System.Returns.{Returns, returns}
use cpp_socket_library.Address.{sock_dgram}
use cpp_socket_library.Socket
use cpp_socket_library.UdpSocket.Bind.{InvalidRefused}
use cpp_socket_library.Ipc.SocketPath.{fit_path, unix_address, sockaddr_un_size, remove_socket_path}
use cpp_socket_library.Ipc.Datagrams.{DatagramIpcSocket, close, bind_receive_socket, bind_override}

module _ {W : Type 0} (os : Os W) (is_open : W → ℤ → Bool) (law : IsLedger os is_open) where
  -- Binding a bound datagram socket again, to any path, without override and without an operation
  -- before binding, fails where a new descriptor can be had: `bind` closes the descriptor that it
  -- has just opened instead of the old one, and binds the invalid descriptor. The answer is -1 and
  -- no path, the socket is no longer bound, and the old descriptor, which no field holds any more,
  -- is still open. The file of the old path is gone if the system answers the removal with 0. The
  -- invalid descriptor cannot be bound, and a refused `bind` makes no file.
  pub bind_override-again :
      (exists_at : W → Bytes → Bool)
      → IsFiles os exists_at
      → InvalidRefused os
      → (path old_path : Bytes) (u : DatagramIpcSocket W) (w : W) → u.bound ≡ true
      → u.socket_path ≡ some old_path
      → is_open w u.receive_socket ≡ true
      → let temporary = os.socket (pos af_unix) sock_dgram 0 w in
        is_invalid_socket temporary.0 ≡ false
        → Returns
            (λ r s.
              (r ≡ (minus_one, []))
              × (s.0 ≡ record u {
                bound = false;
                socket_path = none;
                receive_socket = get_invalid_socket_value;
              })
              × SameTable is_open w s.1
              × (is_open s.1 u.receive_socket ≡ true)
              × ((os.remove (until_nul old_path) (os.close temporary.0 temporary.1).1).0 ≡ pos 0
                  → exists_at s.1 (until_nul old_path) ≡ false))
            (bind_override os false (some path) none (u, w))
  unfolding bind_override bind_receive_socket close Socket.close remove_socket_path
  bind_override-again exists_at files refused path old_path u w bound held used good =
      let r = os.socket (pos af_unix) sock_dgram 0 w in
      let back =
        close-Opens is_open os law r.0
          (socket-Opens is_open os law (pos af_unix) sock_dgram 0 w good) in
      let name = until_nul old_path in
      let w₁ = (os.close r.0 r.1).1 in
      let w₂ = (os.remove name w₁).1 in
      let a = unix_address (fit_path path) in
      let no = refused a sockaddr_un_size w₂ in
      let same : SameTable is_open w (os.bind minus_one a sockaddr_un_size w₂).1 = λ d.
        law.bind_keeps minus_one a sockaddr_un_size w₂ d ∙ law.remove_keeps name w₁ d ∙ back d in
      rw (good, bound, held, no)
        (returns (
          refl,
          refl,
          same,
          same u.receive_socket ∙ used,
          λ removed.
              files.none_made minus_one a sockaddr_un_size w₂ name no ∙ files.gone name w₁ removed,
        ))
