-- ===== src/Tests/Servers.antt =====
-- The theorems on servers and programs that use them at concrete inputs.
use cpp_socket_library.Prelude.{refl, ◌∷◌, [], none, List, codes, pos}
use cpp_socket_library.Protocol.{ipv4}
use cpp_socket_library.System.Ends.{Ends, returned}
use cpp_socket_library.System.Table.{SameTable}
use cpp_socket_library.Address.{
  get_address, differs, get_empty_address, get_internet_protocol_version,
}
use cpp_socket_library.TcpServer.Listen.{Failed}
use cpp_socket_library.TcpServer.Open.{ReuseWorks, IsTame}
use cpp_socket_library.TcpServer.Contract.{
  tcp_connection, tcp_server, NamesAccepted, tcp_server-IsServer,
}
use cpp_socket_library.TcpServer.Program.{run_server, run_server-Ends}
use cpp_socket_library.Ipc.Server.Contract.{ipc_connection, ipc_server, ipc_server-IsServer}
use cpp_socket_library.ServerSocket.{
  IsClosable, IsServer, Request, accept_one, close_connection, close_server,
}
use cpp_socket_library.System.{Os}
use cpp_socket_library.Tests.Machine.{Machine, system, friendly, start, is_open, system-IsLedger}

abbrev os : Os Machine
os = system friendly

named : NamesAccepted os
unfolding get_address differs get_empty_address get_internet_protocol_version
named fd m good = (codes "10.0.0.1", refl)

tcp_server-IsServer_example :
    IsServer is_open (λ s. s.socket_descriptor) (λ t. t.socket_descriptor) (tcp_server os)
    × IsClosable is_open (λ t. t.socket_descriptor) (tcp_connection os)
tcp_server-IsServer_example = tcp_server-IsServer os is_open (system-IsLedger friendly) named

ipc_server-IsServer_example :
    IsServer is_open (λ s. s.socket) (λ t. t.socket) (ipc_server os)
    × IsClosable is_open (λ t. t.socket) (ipc_connection os)
ipc_server-IsServer_example = ipc_server-IsServer os is_open (system-IsLedger friendly)

abbrev requests : List Request
requests =
    accept_one (pos 5)
    ∷ accept_one (pos 0)
    ∷ close_connection 1
    ∷ close_server
    ∷ accept_one (pos 0)
    ∷ close_server
    ∷ []

reuse_works : ReuseWorks os is_open (system-IsLedger friendly)
reuse_works d m = refl

nothing_first : IsTame os is_open (system-IsLedger friendly) none
nothing_first d m = returned (refl, λ k. refl)

run_server-Ends_example :
    Ends
      (λ u m. SameTable is_open start m)
      (Failed os is_open (system-IsLedger friendly) start)
      (run_server os none 0 5 ipv4 none requests start)
run_server-Ends_example =
    run_server-Ends os is_open (system-IsLedger friendly) reuse_works named none nothing_first none
      0 5 ipv4 requests start refl
