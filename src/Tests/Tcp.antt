-- ===== src/Tests/Tcp.antt =====
-- The theorems on TCP sockets and servers at concrete inputs.
use cpp_socket_library.Prelude.{ℕ, List, Bytes}
use cpp_socket_library.Protocol.{InternetProtocolVersion}
use cpp_socket_library.System.Returns.{Returns}
use cpp_socket_library.Sharing.{
  Action, construct_one, copy_one, close_one, close_and_assign, act_each, close_all,
}
use cpp_socket_library.Sharing.Covered.{Covers, descriptors}
use cpp_socket_library.TcpSocket.Copies.{tcp_sockets, tcp_sockets-Covers}
use cpp_socket_library.Prelude.{◌≡◌, ◌≢◌, refl, true, [], codes, pos, minus_one, none}
use cpp_socket_library.Prelude.{Option}
use cpp_socket_library.Errors.{foreign, socket_exception}
use cpp_socket_library.Protocol.{ipv4, from_family}
use cpp_socket_library.System.{Os, throw}
use cpp_socket_library.System.Ends.{Ends, returned, threw}
use cpp_socket_library.System.Table.{Opens}
use cpp_socket_library.Address.{get_address, create_tcp_hints}
use cpp_socket_library.TcpSocket.{from_hostname, from_address}
use cpp_socket_library.TcpSocket.Connect.{Refused, from_hostname-Ends}
use cpp_socket_library.TcpSocket.Failure.{from_address-Ends}
use cpp_socket_library.TcpSocket.{or_empty, to_short}
use cpp_socket_library.Address.{get_port_number}
use cpp_socket_library.Errors.{is_invalid_socket}
use cpp_socket_library.Prelude.{◌⊎◌}
use cpp_socket_library.TcpServer.{TcpServer, Operation, create, accept}
use cpp_socket_library.TcpServer.Listen.{Listening}
use cpp_socket_library.TcpServer.Open.{ReuseWorks, IsTame, IsGentle, Aborted}
use cpp_socket_library.TcpServer.Create.{create-Ends}
use cpp_socket_library.TcpServer.Accept.{Accepted, Rejected, accept-Ends}
use cpp_socket_library.TcpSocket.Order.{FirstAccepted, NoneAccepted, from_hostname-order}
use cpp_socket_library.Address.{resolve_to_addresses, SocketAddress}
use cpp_socket_library.Prelude.{◌∷◌, [], some, if◌then◌else◌, ◌==◌}
use cpp_socket_library.TcpServer.Lifecycle.{connect_and_close, connect_and_close-Ends}
use cpp_socket_library.System.Table.{SameTable}
use cpp_socket_library.Errors.{is_socket_exception, get_invalid_socket_value}
use cpp_socket_library.Tests.Machine.{
  Machine, system, friendly, hostile, start, peer, is_open, system-IsLedger,
}

minus_one_not : minus_one ≢ pos 0
minus_one_not = cc

from_hostname-Ends_example :
    Ends
      (λ t m.
        Opens is_open t.socket_descriptor start m
        × (t.hostname ≡ codes "localhost")
        × (t.port ≡ 8080)
        × (t.protocol_version ≡ from_family t.server_address.sa_family))
      (Refused (system friendly) is_open (system-IsLedger friendly) start)
      (from_hostname (system friendly) (codes "localhost") 8080 ipv4 start)
from_hostname-Ends_example =
    from_hostname-Ends (system friendly) is_open (system-IsLedger friendly) (codes "localhost") 8080
      ipv4 start

reuse_works : ReuseWorks (system friendly) is_open (system-IsLedger friendly)
reuse_works d m = refl

nothing_first : IsTame (system friendly) is_open (system-IsLedger friendly) none
nothing_first d m = returned (refl, λ k. refl)

-- An operation before binding that throws.
abbrev refuses : Option (Operation Machine)
refuses = some (λ d m. throw (foreign 7) m)

refuses-IsGentle : IsGentle (system friendly) is_open (system-IsLedger friendly) refuses
refuses-IsGentle d m = threw (λ k. refl)

create-Ends_example :
    Ends
      (Listening (system friendly) is_open (system-IsLedger friendly) 0 start)
      (Aborted (system friendly) is_open (system-IsLedger friendly) refuses start)
      (create (system friendly) none 0 5 ipv4 refuses start)
create-Ends_example =
    create-Ends (system friendly) is_open (system-IsLedger friendly) refuses refuses-IsGentle none 0
      5 ipv4 start

abbrev server : TcpServer
server = record {
  port = 8080;
  protocol_version = ipv4;
  server_address = peer;
  socket_descriptor = pos 1;
}

accept-Ends_example :
    Ends
      (Accepted (system friendly) is_open (system-IsLedger friendly) server start)
      (Rejected (system friendly) is_open (system-IsLedger friendly) server (pos 5) start)
      (accept (system friendly) server (pos 5) start)
accept-Ends_example =
    accept-Ends (system friendly) is_open (system-IsLedger friendly) server (pos 5) start

from_address-Ends_example :
    Ends
      (λ t m.
        Opens is_open t.socket_descriptor start m
        × (minus_one ≡ pos 0)
        × (t.server_address ≡ peer)
        × (t.hostname ≡ or_empty (get_address (system hostile) peer))
        × (t.port ≡ to_short (get_port_number peer))
        × (t.protocol_version ≡ from_family 2))
      (λ e m.
        (e ≡ socket_exception)
        × (((is_invalid_socket (pos 2) ≡ true) × SameTable is_open start m)
            ⊎ ((minus_one ≢ pos 0) × Opens is_open (pos 2) start m)))
      (from_address (system hostile) peer start)
from_address-Ends_example =
    from_address-Ends (system hostile) is_open (system-IsLedger hostile) peer start

-- A host with two addresses, of which the first is refused.
abbrev refused_peer : SocketAddress
refused_peer = record peer { sa_family = 10 }

abbrev choosy : Os Machine
choosy = record (system friendly) {
  getaddrinfo = λ h p i m. ((pos 0, some (refused_peer ∷ peer ∷ [])), m);
  connect = λ d a n m. (if a.sa_family == 10 then minus_one else pos 0, m);
}

from_hostname-order_example :
    Ends
      (FirstAccepted choosy (create_tcp_hints ipv4 0) (refused_peer ∷ peer ∷ []) start)
      (NoneAccepted choosy (create_tcp_hints ipv4 0) (refused_peer ∷ peer ∷ []) start)
      (from_hostname choosy (codes "localhost") 8080 ipv4 start)
unfolding resolve_to_addresses
from_hostname-order_example =
    from_hostname-order choosy (codes "localhost") 8080 ipv4 start (refused_peer ∷ peer ∷ []) start
      refl

connect_and_close-Ends_example :
    Ends
      (λ r m.
        SameTable is_open start m
        × (r.0.socket_descriptor ≡ get_invalid_socket_value)
        × (r.1.socket_descriptor ≡ get_invalid_socket_value)
        × (r.2.socket_descriptor ≡ get_invalid_socket_value))
      (λ e m. is_socket_exception e ≡ true)
      (connect_and_close (system friendly) (codes "localhost") 0 5 ipv4 none (pos 5) start)
connect_and_close-Ends_example =
    connect_and_close-Ends (system friendly) is_open (system-IsLedger friendly) reuse_works none
      nothing_first (codes "localhost") 0 5 ipv4 (pos 5) start

-- Two copies of one socket: all three are closed, and a fourth is assigned.
abbrev actions : List (Action (Bytes × ℕ × InternetProtocolVersion))
actions =
    construct_one (codes "localhost", 8080, ipv4)
    ∷ copy_one 0
    ∷ copy_one 1
    ∷ close_one 0
    ∷ close_one 2
    ∷ construct_one (codes "localhost", 8081, ipv4)
    ∷ close_and_assign 1 0
    ∷ close_one 3
    ∷ []

tcp_sockets-Covers_example :
    Returns
      (λ sockets m.
        Covers is_open start (descriptors (λ t. t.socket_descriptor) sockets) m
        × Returns
            (λ u m'. SameTable is_open start m')
            (close_all (tcp_sockets (system friendly)) sockets m))
      (act_each (tcp_sockets (system friendly)) [] actions start)
tcp_sockets-Covers_example =
    tcp_sockets-Covers (system friendly) is_open (system-IsLedger friendly) actions start refl
