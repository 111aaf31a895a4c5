-- ===== src/Tests/Orderly.antt =====
-- Programs that bind a datagram socket again only after closing it, at concrete inputs.
use cpp_socket_library.Prelude.{◌≡◌, refl, true, none, some, List, [], ◌∷◌, Bytes, codes, pos}
use cpp_socket_library.Errors.{is_invalid_socket}
use cpp_socket_library.System.Table.{SameTable}
use cpp_socket_library.System.Returns.{Returns, returns}
use cpp_socket_library.System.Ends.{returned}
use cpp_socket_library.Address.{SocketAddress}
use cpp_socket_library.ConnectionLess.{
  SendsGently, Call, bind_to, check, send, receive, close_it, perform_each,
}
use cpp_socket_library.UdpSocket
use cpp_socket_library.UdpSocket.{UdpSocket, new_socket}
use cpp_socket_library.UdpSocket.Contract.{udp_socket}
use cpp_socket_library.UdpSocket.Orderly as UdpOrderly
use cpp_socket_library.UdpSocket.Orderly.{udp_socket-Holds}
use cpp_socket_library.Ipc.Datagrams
use cpp_socket_library.Ipc.Datagrams.{DatagramIpcSocket}
use cpp_socket_library.Ipc.Datagrams.Contract.{datagram_socket}
use cpp_socket_library.Ipc.Datagrams.Orderly as LocalOrderly
use cpp_socket_library.Ipc.Datagrams.Orderly.{datagram_socket-Holds}
use cpp_socket_library.Tests.Machine.{
  Machine, system, friendly, hostile, start, peer, is_open, system-IsLedger,
}

nothing_first : SendsGently {W = Machine} is_open none
nothing_first d m = returned (refl, λ k. refl)

abbrev udp_calls : List (Call Machine SocketAddress)
udp_calls =
    bind_to (some peer) none
    ∷ check 100
    ∷ receive (pos 4) (pos 0)
    ∷ close_it
    ∷ bind_to none none
    ∷ close_it
    ∷ bind_to (some peer) none
    ∷ send peer (codes "hello") (pos 5) (pos 0)
    ∷ []

abbrev fresh_udp : UdpSocket Machine
fresh_udp = new_socket

udp_socket-Holds_example :
    Returns
      (λ seen s.
        UdpOrderly.Settled (system friendly) is_open (system-IsLedger friendly) start s
        × Returns
            (λ x s'. (is_invalid_socket s'.0.receive_socket ≡ true) × SameTable is_open start s'.1)
            (UdpSocket.close (system friendly) s))
      (perform_each (udp_socket (system friendly)) udp_calls (fresh_udp, start))
udp_socket-Holds_example =
    udp_socket-Holds (system friendly) is_open (system-IsLedger friendly) udp_calls fresh_udp start
      refl (λ bad. refl, λ d m. returns (refl, λ k. refl)) refl
      (
        (refl, nothing_first),
        (tt, (tt, (tt, ((refl, nothing_first), (tt, ((refl, nothing_first), (tt, tt))))))),
      )

-- The first `bind` throws and the second one is refused.
abbrev path_calls : List (Call Machine Bytes)
path_calls =
    bind_to none none
    ∷ check 100
    ∷ close_it
    ∷ bind_to (some (codes "/tmp/a")) none
    ∷ receive (pos 4) (pos 0)
    ∷ []

abbrev fresh_local : DatagramIpcSocket Machine
fresh_local = Datagrams.new_socket

datagram_socket-Holds_example :
    Returns
      (λ seen s.
        LocalOrderly.Settled (system hostile) is_open (system-IsLedger hostile) start s
        × Returns
            (λ x s'. (is_invalid_socket s'.0.receive_socket ≡ true) × SameTable is_open start s'.1)
            (Datagrams.close (system hostile) s))
      (perform_each (datagram_socket (system hostile)) path_calls (fresh_local, start))
datagram_socket-Holds_example =
    datagram_socket-Holds (system hostile) is_open (system-IsLedger hostile) path_calls fresh_local
      start refl (λ bad. refl, λ d m. returns (refl, λ k. refl)) refl
      ((refl, nothing_first), (tt, (tt, ((refl, nothing_first), (tt, tt)))))
