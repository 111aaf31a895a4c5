-- ===== src/Tests/Udp.antt =====
-- The theorems on datagram sockets at concrete inputs.
use cpp_socket_library.System.{throw}
use cpp_socket_library.Errors.{foreign}
use cpp_socket_library.Prelude.{◌≡◌, refl, true, codes, pos, minus_one, none, some}
use cpp_socket_library.Protocol.{ipv4, from_family}
use cpp_socket_library.System.Returns.{Returns, returns}
use cpp_socket_library.System.Ends.{Ends, returned, threw}
use cpp_socket_library.System.Table.{SameTable}
use cpp_socket_library.Address.{zero_address}
use cpp_socket_library.UdpSocket.{UdpSocket, new_socket, bind_address, bind, send_to_host}
use cpp_socket_library.UdpSocket.Valid.{Thrown, closed}
use cpp_socket_library.UdpSocket.Bind.{InvalidRefused, bind_address-again}
use cpp_socket_library.UdpSocket.Hosts.{
  Sent, Abandoned, BoundByName, bind-BoundByName, send_to_host-Sent,
}
use cpp_socket_library.ConnectionLess.{EndsAlways, SendsSafely}
use cpp_socket_library.Tests.Machine.{
  Machine, system, friendly, start, peer, is_open, system-IsLedger,
}

abbrev bound_socket : UdpSocket Machine
bound_socket = record new_socket {
  bound = true;
  receive_socket = pos 1;
  protocol_version = ipv4;
  listening_port = some 8080;
}

nothing_first : EndsAlways {W = Machine} none
nothing_first d m = returned tt

invalid_refused : InvalidRefused (system friendly)
invalid_refused a n m = refl

bind_address-again_example :
    Returns
      (λ r s.
        (r ≡ (minus_one, zero_address))
        × (s.0 ≡ record (closed bound_socket) { protocol_version = from_family 2 })
        × SameTable is_open start s.1
        × (is_open s.1 (pos 1) ≡ true))
      (bind_address (system friendly) (some peer) none (bound_socket, start))
bind_address-again_example =
    bind_address-again (system friendly) is_open (system-IsLedger friendly) invalid_refused peer
      bound_socket start refl refl refl

sends_safely : SendsSafely is_open none
sends_safely d m = returns (refl, λ k. refl)

bind-BoundByName_example :
    Ends
      (BoundByName (system friendly) none)
      (Thrown (system friendly) bound_socket)
      (bind (system friendly) ipv4 (some (codes "localhost")) 8080 none (bound_socket, start))
bind-BoundByName_example =
    bind-BoundByName (system friendly) none nothing_first ipv4 (some (codes "localhost")) 8080
      bound_socket start refl

-- A socket whose operation before sending throws.
abbrev refusing : UdpSocket Machine
refusing = record bound_socket { pre_send_socket_operation = some (λ d m. throw (foreign 7) m) }

send_to_host-Sent_example :
    Ends
      (Sent
        (system friendly)
        is_open
        (system-IsLedger friendly)
        refusing
        (λ d m. threw (λ k. refl))
        (codes "hello")
        (pos 5)
        (pos 0)
        start)
      (Abandoned
        (system friendly)
        is_open
        (system-IsLedger friendly)
        refusing
        (λ d m. threw (λ k. refl))
        (codes "hello")
        (pos 5)
        (pos 0)
        start)
      (send_to_host
        (system friendly)
        refusing
        (codes "localhost")
        8080
        (codes "hello")
        (pos 5)
        (pos 0)
        ipv4
        start)
send_to_host-Sent_example =
    send_to_host-Sent (system friendly) is_open (system-IsLedger friendly) refusing
      (λ d m. threw (λ k. refl)) (codes "hello") (pos 5) (pos 0) (codes "localhost") 8080 ipv4 start
