-- ===== src/Tests/Datagrams.antt =====
-- The interface of datagram sockets at concrete inputs.
use cpp_socket_library.Prelude.{minus_one, true, arith, All, Bytes, ◌≡◌}
use cpp_socket_library.Ipc.Datagrams
use cpp_socket_library.Ipc.Datagrams.{DatagramIpcSocket}
use cpp_socket_library.Ipc.SocketPath.{fit_path, unix_address, sockaddr_un_size}
use cpp_socket_library.Protocol.{af_unix}
use cpp_socket_library.ConnectionLess.Exchange.{IsShort, exchange}
use cpp_socket_library.UdpSocket.Exchange.{udp_exchange-queue}
use cpp_socket_library.Ipc.Datagrams.Exchange.{ipc_exchange-queue}
use cpp_socket_library.Tests.Post.{Post, post, IsMade, empty_post, post-IsMailbox}
use cpp_socket_library.Prelude.{refl, none, some, List, [], ◌∷◌, codes, pos}
use cpp_socket_library.System.Returns.{Returns, returns}
use cpp_socket_library.System.Ends.{returned}
use cpp_socket_library.Address.{
  SocketAddress, zero_address, get_port_number, get_address_length, sock_dgram, ipproto_udp,
}
use cpp_socket_library.Address.Resolve.{IsFull}
use cpp_socket_library.ConnectionLess.{
  EndsAlways, IsConnectionLess, Call, bind_to, check, send, receive, close_it, Trace, perform_each,
}
use cpp_socket_library.UdpSocket.History.{udp_socket-Trace}
use cpp_socket_library.Ipc.Datagrams.History.{datagram_socket-Trace}
use cpp_socket_library.UdpSocket.{UdpSocket, new_socket}
use cpp_socket_library.UdpSocket.Contract.{port_of, udp_socket, IsSafe, udp_socket-IsConnectionLess}
use cpp_socket_library.Ipc.Datagrams.Contract
use cpp_socket_library.Tests.Machine.{
  Machine, system, friendly, hostile, start, peer, is_open, system-IsLedger,
}

udp_socket-IsConnectionLess_example :
    IsConnectionLess is_open
      (IsSafe (system friendly) is_open (system-IsLedger friendly))
      port_of
      zero_address
      get_port_number
      IsFull
      (udp_socket (system friendly))
udp_socket-IsConnectionLess_example =
    udp_socket-IsConnectionLess (system friendly) is_open (system-IsLedger friendly)

datagram_socket-IsConnectionLess_example :
    IsConnectionLess is_open
      (Contract.IsSafe (system friendly) is_open (system-IsLedger friendly))
      Contract.path_of
      []
      Contract.path_shown
      (λ path. Unit {0})
      (Contract.datagram_socket (system friendly))
datagram_socket-IsConnectionLess_example =
    Contract.datagram_socket-IsConnectionLess (system friendly) is_open (system-IsLedger friendly)

-- Bound twice, with a receive, a send and a close.
abbrev calls : List (Call Machine SocketAddress)
calls =
    bind_to (some peer) none
    ∷ check 100
    ∷ receive (pos 4) (pos 0)
    ∷ send peer (codes "hello") (pos 5) (pos 0)
    ∷ bind_to (some peer) none
    ∷ close_it
    ∷ receive (pos 4) (pos 0)
    ∷ []

proper_bind : IsFull peer × EndsAlways {W = Machine} none
proper_bind = (refl, λ d m. returned tt)

abbrev fresh : UdpSocket Machine
fresh = new_socket

fresh-IsSafe : IsSafe (system friendly) is_open (system-IsLedger friendly) fresh
fresh-IsSafe = (refl, λ d m. returns (refl, λ k. refl))

udp_socket-Trace_example :
    Returns
      (λ seen s.
        IsSafe (system friendly) is_open (system-IsLedger friendly) s.0
        × Trace zero_address get_port_number calls none seen s.0.listening_port)
      (perform_each (udp_socket (system friendly)) calls (fresh, start))
udp_socket-Trace_example =
    udp_socket-Trace (system friendly) is_open (system-IsLedger friendly) calls fresh start
      (proper_bind, (tt, (tt, (tt, (proper_bind, (tt, (tt, tt))))))) fresh-IsSafe

-- A `bind` with no path, one that is refused, and a receive of a negative length.
abbrev path_calls : List (Call Machine Bytes)
path_calls =
    bind_to none none
    ∷ bind_to (some (codes "/tmp/a")) none
    ∷ receive minus_one (pos 0)
    ∷ close_it
    ∷ check 100
    ∷ []

abbrev fresh_path : DatagramIpcSocket Machine
fresh_path = Datagrams.new_socket

datagram_socket-Trace_example :
    Returns
      (λ seen s.
        Contract.IsSafe (system hostile) is_open (system-IsLedger hostile) s.0
        × Trace [] Contract.path_shown path_calls none seen s.0.socket_path)
      (perform_each (Contract.datagram_socket (system hostile)) path_calls (fresh_path, start))
datagram_socket-Trace_example =
    datagram_socket-Trace (system hostile) is_open (system-IsLedger hostile) path_calls fresh_path
      start (tt, ((tt, λ d m. returned tt), (tt, (tt, (tt, tt)))))
      (refl, λ d m. returns (refl, λ k. refl))

abbrev letters : List Bytes
letters = codes "hello" ∷ codes "longer" ∷ [] ∷ codes "abc" ∷ []

IsShort-letters : All IsShort letters
IsShort-letters = omega arith

abbrev sender : UdpSocket Post
sender = new_socket

abbrev listener : UdpSocket Post
listener = record new_socket { bound = true; receive_socket = pos 0; listening_port = some 8080 }

udp_exchange-queue_example :
    Returns
      (λ r m.
        (r ≡ (
          pos 5 ∷ minus_one ∷ pos 0 ∷ pos 3 ∷ [],
          (some (codes "hell"), pos 4) ∷ (none, pos 0) ∷ (some (codes "abc"), pos 3) ∷ [],
        ))
        × (m.messages ≡ []))
      (exchange (udp_socket post) sender listener peer (pos 4) (pos 0) 3 letters empty_post)
udp_exchange-queue_example =
    udp_exchange-queue post (λ m. m.messages) IsMade sender listener peer (pos 0) 5 3
      (post-IsMailbox (pos 2) sock_dgram ipproto_udp peer (get_address_length peer) (pos 0) 3)
      (λ d m able. returns (refl, refl, able)) 4 letters empty_post refl (omega arith) (omega arith)
      IsShort-letters (omega arith) refl

abbrev path_sender : DatagramIpcSocket Post
path_sender = Datagrams.new_socket

abbrev path_listener : DatagramIpcSocket Post
path_listener = record Datagrams.new_socket {
  bound = true;
  receive_socket = pos 0;
  socket_path = some (codes "/tmp/a");
}

ipc_exchange-queue_example :
    Returns
      (λ r m.
        (r ≡ (
          pos 5 ∷ minus_one ∷ pos 0 ∷ pos 3 ∷ [],
          (some (codes "hell"), pos 4) ∷ (none, pos 0) ∷ (some (codes "abc"), pos 3) ∷ [],
        ))
        × (m.messages ≡ []))
      (exchange
        (Contract.datagram_socket post)
        path_sender
        path_listener
        (codes "/tmp/a")
        (pos 4)
        (pos 0)
        3
        letters
        empty_post)
ipc_exchange-queue_example =
    ipc_exchange-queue post (λ m. m.messages) IsMade path_sender path_listener (codes "/tmp/a")
      (pos 0) 5 3
      (post-IsMailbox (pos af_unix) sock_dgram 0 (unix_address (fit_path (codes "/tmp/a")))
        sockaddr_un_size (pos 0) 3)
      (λ d m able. returns (refl, refl, able)) 4 (codes "/tmp/a") letters empty_post refl refl
      (omega arith) (omega arith) IsShort-letters (omega arith) refl
