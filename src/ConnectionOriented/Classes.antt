-- ===== src/ConnectionOriented/Classes.antt =====
-- The two classes that extend `ConnectionOrientedSocket`: TCPSocket and StreamIPCSocket.
use cpp_socket_library.System.{Os}
use cpp_socket_library.TcpSocket
use cpp_socket_library.TcpSocket.{TcpSocket}
use cpp_socket_library.TcpServer.Contract.{tcp_connection}
use cpp_socket_library.Ipc.Channel
use cpp_socket_library.Ipc.Channel.{StreamIpcSocket}
use cpp_socket_library.Ipc.Server.Contract.{ipc_connection}
use cpp_socket_library.ConnectionOriented.{ConnectionOrientedSocket}

module _ {W : Type 0} (os : Os W) where
  abbrev pub tcp_stream : ConnectionOrientedSocket W TcpSocket
  tcp_stream = record { base = tcp_connection os; get_socket = TcpSocket.get_socket }

  abbrev pub ipc_stream : ConnectionOrientedSocket W StreamIpcSocket
  ipc_stream = record { base = ipc_connection os; get_socket = Channel.get_socket }
