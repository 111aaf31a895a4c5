-- ===== src/TcpSocket/Copies.antt =====
-- Programs that copy and assign TCP sockets.
use cpp_socket_library.Prelude.{ℕ, ◌≡◌, refl, Bool, false, List, [], Bytes, ℤ}
use cpp_socket_library.Errors.{get_invalid_socket_value, is_socket_exception}
use cpp_socket_library.Protocol.{InternetProtocolVersion}
use cpp_socket_library.System.{Os}
use cpp_socket_library.System.Laws.{IsLedger}
use cpp_socket_library.System.Table.{SameTable}
use cpp_socket_library.System.Returns.{Returns, returns}
use cpp_socket_library.System.Ends
use cpp_socket_library.Socket
use cpp_socket_library.TcpSocket
use cpp_socket_library.TcpSocket.{TcpSocket, from_hostname}
use cpp_socket_library.TcpSocket.Connect.{from_hostname-Ends}
use cpp_socket_library.Sharing.{SocketClass, SharesDescriptors, Action, act_each, close_all}
use cpp_socket_library.Sharing.Covered.{Covers, Covers-nil, descriptors, act_each-Covers}

module _ {W : Type 0} (os : Os W) where
  -- The constructor from a host name, a port and a version.
  abbrev pub tcp_sockets : SocketClass W TcpSocket (Bytes × ℕ × InternetProtocolVersion)
  tcp_sockets = record {
    base = record { close = TcpSocket.close os };
    construct = λ (hostname, port, version). from_hostname os hostname port version;
    copy = TcpSocket.copy;
    assign_from = TcpSocket.assign_from;
  }

  module _ (is_open : W → ℤ → Bool) (law : IsLedger os is_open) where
    tcp_sockets-SharesDescriptors : SharesDescriptors is_open (λ t. t.socket_descriptor) tcp_sockets
    unfolding TcpSocket.close TcpSocket.copy TcpSocket.assign_from Socket.close is_socket_exception
    tcp_sockets-SharesDescriptors = record {
      closes = λ t w. returns (refl, λ d. law.close_closes t.socket_descriptor w d);
      constructs = λ (hostname, port, version) w.
          Ends.mono (from_hostname-Ends os is_open law hostname port version w) (λ t w' p. p.0)
            (λ e w' f. (rw f.kind refl, f.same));
      copied = λ t. refl;
      assigned = λ target t. refl;
    }

    -- A program that constructs TCP sockets from host names, copies them, closes them, also where
    -- another object holds the same descriptor, and closes and assigns to them, in any order, and
    -- that catches `SocketException`: it returns. No descriptor that was open at the start was
    -- closed, although objects can be closed that hold a descriptor closed before; each open
    -- descriptor was open at the start or is held by an object, so that none leaks; and no object
    -- holds one that was open at the start. Closing every object at the end gives the table of
    -- descriptors back. The invalid descriptor is not open at the start.
    pub tcp_sockets-Covers :
        (actions : List (Action (Bytes × ℕ × InternetProtocolVersion))) (w : W)
        → is_open w get_invalid_socket_value ≡ false
        → Returns
            (λ sockets w'.
              Covers is_open w (descriptors (λ t. t.socket_descriptor) sockets) w'
              × Returns (λ u w''. SameTable is_open w w'') (close_all tcp_sockets sockets w'))
            (act_each tcp_sockets [] actions w)
    tcp_sockets-Covers actions w nothing =
        act_each-Covers is_open (λ t. t.socket_descriptor) tcp_sockets tcp_sockets-SharesDescriptors
          w nothing [] actions w (Covers-nil is_open w)
