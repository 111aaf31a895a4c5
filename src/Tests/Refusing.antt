-- ===== src/Tests/Refusing.antt =====
-- A small system that refuses the invalid descriptor, and calls on connections that were closed.
use cpp_socket_library.Prelude.{
  ◌≡◌, refl, [], ◌∷◌, List, codes, if◌then◌else◌, pos, minus_one, none, false,
}
use cpp_socket_library.Errors.{get_invalid_socket_value, is_invalid_socket}
use cpp_socket_library.System.{Os}
use cpp_socket_library.System.Laws.{IsLedger, RefusesInvalid}
use cpp_socket_library.System.Returns.{Returns}
use cpp_socket_library.ServerSocket.{Closes}
use cpp_socket_library.Protocol.{ipv4}
use cpp_socket_library.Address.{zero_address}
use cpp_socket_library.TcpSocket.{TcpSocket}
use cpp_socket_library.TcpServer.Contract.{tcp_connection-IsClosable}
use cpp_socket_library.Ipc.Channel.{StreamIpcSocket}
use cpp_socket_library.Ipc.Server.Contract.{ipc_connection-IsClosable}
use cpp_socket_library.ConnectionOriented.{
  Call, check_ready, check_connected, send_text, get_char, receive, receive_line, receive_into,
  receive_rest, close_it, truth, code, character, text, buffered, closed, caught, perform_each,
}
use cpp_socket_library.ConnectionOriented.Classes.{tcp_stream, ipc_stream}
use cpp_socket_library.ConnectionOriented.Closed.{perform_each-closed}
use cpp_socket_library.Tests.Machine.{Machine, system, friendly, start, is_open, system-IsLedger}

abbrev refusing : Os Machine
refusing = record (system friendly) {
  send =
      λ d b n g m. if is_invalid_socket d then (minus_one, m) else (system friendly).send d b n g m;
  recv = λ d n g m.
      if is_invalid_socket d then ((minus_one, []), m) else (system friendly).recv d n g m;
}

refusing-RefusesInvalid : RefusesInvalid refusing is_open
refusing-RefusesInvalid = record {
  not_open = λ m. refl;
  send_refused = λ b n g m. refl;
  recv_refused = λ n g m. refl;
  recv_empty = λ n g m. refl;
  send_keeps = λ b n g m d. refl;
  recv_keeps = λ n g m d. refl;
}

refusing-IsLedger : IsLedger refusing is_open
refusing-IsLedger =
    let l = system-IsLedger friendly in
    record {
      socket_opens = l.socket_opens;
      socket_fresh = l.socket_fresh;
      accept_opens = l.accept_opens;
      accept_fresh = l.accept_fresh;
      close_closes = l.close_closes;
      setsockopt_keeps = l.setsockopt_keeps;
      bind_keeps = l.bind_keeps;
      connect_keeps = l.connect_keeps;
      listen_keeps = l.listen_keeps;
      sendto_keeps = l.sendto_keeps;
      recvfrom_keeps = l.recvfrom_keeps;
      getsockname_keeps = l.getsockname_keeps;
      select_keeps = l.select_keeps;
      getaddrinfo_keeps = l.getaddrinfo_keeps;
      freeaddrinfo_keeps = l.freeaddrinfo_keeps;
      remove_keeps = l.remove_keeps;
    }

abbrev line_open : TcpSocket
line_open = record {
  socket_descriptor = pos 1;
  hostname = codes "localhost";
  port = 80;
  protocol_version = ipv4;
  server_address = zero_address;
}

abbrev calls : List Call
calls =
    check_ready 5
    ∷ send_text (codes "hello") (pos 0)
    ∷ get_char (pos 0)
    ∷ receive 3 (pos 0)
    ∷ receive_line 0 (pos 0)
    ∷ close_it
    ∷ receive_into (codes "xy") 2 (pos 0)
    ∷ receive_rest 5 (pos 0)
    ∷ []

perform_each-closed_example :
    Returns
      (λ r m.
        (r.0.socket_descriptor ≡ get_invalid_socket_value)
        × (r.1
            ≡ closed
              ∷ truth false
              ∷ code minus_one
              ∷ character none
              ∷ text []
              ∷ caught
              ∷ closed
              ∷ buffered (codes "xy") 0
              ∷ text []
              ∷ [])
        × Closes is_open (pos 1) start m)
      (perform_each refusing (tcp_stream refusing) 1 (close_it ∷ calls) line_open start)
perform_each-closed_example =
    perform_each-closed refusing is_open refusing-RefusesInvalid (tcp_stream refusing)
      (tcp_connection-IsClosable refusing is_open refusing-IsLedger) 0 calls line_open start

abbrev path_open : StreamIpcSocket
path_open = record { socket = pos 0; socket_path = codes "/tmp/a" }

ipc_stream-closed :
    Returns
      (λ r m.
        (r.0.socket ≡ get_invalid_socket_value)
        × (r.1 ≡ closed ∷ truth false ∷ text [] ∷ [])
        × Closes is_open (pos 0) start m)
      (perform_each refusing
        (ipc_stream refusing)
        1
        (close_it ∷ check_connected 5 ∷ receive_line 126 (pos 0) ∷ [])
        path_open
        start)
ipc_stream-closed =
    perform_each-closed refusing is_open refusing-RefusesInvalid (ipc_stream refusing)
      (ipc_connection-IsClosable refusing is_open refusing-IsLedger) 0
      (check_connected 5 ∷ receive_line 126 (pos 0) ∷ []) path_open start
