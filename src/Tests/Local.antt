-- ===== src/Tests/Local.antt =====
-- The theorems on sockets with a path at concrete inputs.
use cpp_socket_library.TcpServer.{Operation}
use cpp_socket_library.TcpServer.Open.{IsGentle}
use cpp_socket_library.Prelude.{Option, List, ◌∷◌}
use cpp_socket_library.Errors.{foreign}
use cpp_socket_library.Prelude.{
  ◌⊎◌, ◌≢◌, minus_one, [], ◌≡◌, ◌<◌, refl, Bool, true, false, Bytes, codes, pos, none, some, length,
  take, until_nul,
}
use cpp_socket_library.Errors.{
  socket_exception, binding_exception, is_invalid_socket, get_invalid_socket_value,
}
use cpp_socket_library.System.{throw}
use cpp_socket_library.System.Returns.{Returns}
use cpp_socket_library.System.Ends.{Ends, returned, threw}
use cpp_socket_library.System.Table.{Opens, SameTable}
use cpp_socket_library.Ipc.SocketPath.{fit_path, unix_address, sun_path_size, unix_address-fit_path}
use cpp_socket_library.Ipc.Channel.{from_path, from_path-Ends}
use cpp_socket_library.Ipc.Server.{
  IpcServer, create, Failed, Stranded, create_on_path-Ends, create-removes,
}
use cpp_socket_library.Ipc.Server.Program.{run_server_on_path, run_server_on_path-Ends}
use cpp_socket_library.ServerSocket.{Request, accept_one, close_connection, close_server}
use cpp_socket_library.Ipc.Datagrams.{DatagramIpcSocket, bind_override}
use cpp_socket_library.Ipc.Datagrams.Rebind.{bind_override-again}
use cpp_socket_library.System.Laws.{IsFiles}
use cpp_socket_library.Tests.Machine.{
  Machine, Answers, system, friendly, hostile, start, is_open, system-IsLedger,
}

abbrev path : Bytes
path = codes "/tmp/a"

-- An operation before binding that throws.
abbrev refuses : Option (Operation Machine)
refuses = some (λ d m. throw (foreign 7) m)

refuses-IsGentle : IsGentle (system friendly) is_open (system-IsLedger friendly) refuses
refuses-IsGentle d m = threw (λ k. refl)

create_on_path-Ends_example :
    Ends
      (λ s m. (s.socket_path ≡ fit_path path) × Opens is_open s.socket start m)
      (λ e m.
        Failed (system friendly) is_open (system-IsLedger friendly) start e m
        ⊎ Stranded (system friendly) is_open (system-IsLedger friendly) refuses start e m)
      (create (system friendly) path true 5 refuses start)
create_on_path-Ends_example =
    create_on_path-Ends (system friendly) is_open (system-IsLedger friendly) path true 5 refuses
      start refuses-IsGentle

nothing_before : IsGentle (system friendly) is_open (system-IsLedger friendly) none
nothing_before d m = returned (refl, λ k. refl)

-- Two connections are accepted, the older one is closed, and the server is closed early.
abbrev local_requests : List Request
local_requests = accept_one (pos 0) ∷ accept_one (pos 5) ∷ close_connection 1 ∷ close_server ∷ []

run_server_on_path-Ends_example :
    Ends
      (λ u m. SameTable is_open start m)
      (λ e m.
        Failed (system friendly) is_open (system-IsLedger friendly) start e m
        ⊎ Stranded (system friendly) is_open (system-IsLedger friendly) none start e m)
      (run_server_on_path (system friendly) path true 5 none local_requests start)
run_server_on_path-Ends_example =
    run_server_on_path-Ends (system friendly) is_open (system-IsLedger friendly) none nothing_before
      path true 5 local_requests start refl

abbrev exists_at : Machine → Bytes → Bool
exists_at m p = m.file

exists_at-IsFiles : (a : Answers) → IsFiles (system a) exists_at
exists_at-IsFiles a = record { gone = λ p m h. refl; none_made = λ d b n m p h. refl }

create-removes_example :
    (m : Machine) × (create (system hostile) path false 5 none start ≡ throw binding_exception m)
    × SameTable is_open start m
    × (pos 0 ≡ pos 0 → exists_at m (until_nul (fit_path path)) ≡ false)
create-removes_example =
    create-removes (system hostile) is_open (system-IsLedger hostile) exists_at
      (exists_at-IsFiles hostile) path 5 start refl refl

from_path-Ends_example :
    Ends
      (λ s m.
        Opens is_open s.socket start m × (minus_one ≡ pos 0) × (s.socket_path ≡ fit_path path))
      (λ e m.
        (e ≡ socket_exception)
        × (((is_invalid_socket (pos 2) ≡ true) × SameTable is_open start m)
            ⊎ ((minus_one ≢ pos 0) × Opens is_open (pos 2) start m)))
      (from_path (system hostile) path start)
from_path-Ends_example =
    from_path-Ends (system hostile) is_open (system-IsLedger hostile) path start

abbrev bound_socket : DatagramIpcSocket Machine
bound_socket = record {
  bound = true;
  socket_path = some path;
  receive_socket = pos 1;
  pre_send_socket_operation = none;
}

unix_address-fit_path_example :
    (length (unix_address (fit_path path)).sa_data ≡ sun_path_size)
    × (until_nul (unix_address (fit_path path)).sa_data ≡ take sun_path_size path)
    × (length path < sun_path_size → until_nul (unix_address (fit_path path)).sa_data ≡ path)
    × ((other : Bytes)
        → take sun_path_size other ≡ take sun_path_size path
        → unix_address (fit_path other) ≡ unix_address (fit_path path))
unix_address-fit_path_example = unix_address-fit_path path tt

abbrev server : IpcServer
server = record { socket = pos 1; socket_path = path }

bind_override-again_example :
    Returns
      (λ r s.
        (r ≡ (minus_one, []))
        × (s.0 ≡ record bound_socket {
          bound = false;
          socket_path = none;
          receive_socket = get_invalid_socket_value;
        })
        × SameTable is_open start s.1
        × (is_open s.1 (pos 1) ≡ true)
        × (pos 0 ≡ pos 0 → exists_at s.1 (until_nul path) ≡ false))
      (bind_override (system friendly) false (some (codes "/tmp/b")) none (bound_socket, start))
bind_override-again_example =
    bind_override-again (system friendly) is_open (system-IsLedger friendly) exists_at
      (exists_at-IsFiles friendly) (λ a n m. refl) (codes "/tmp/b") path bound_socket start refl
      refl refl refl
