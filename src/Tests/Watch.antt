-- ===== src/Tests/Watch.antt =====
-- A receive into the memory of a caller: three bytes for the buffer, with two others behind it.
use cpp_socket_library.Prelude.{◌≡◌, ◌≤◌, length, drop, codes, pos, arith}
use cpp_socket_library.System.Returns.{Returns}
use cpp_socket_library.Stream.{receive_buffer}
use cpp_socket_library.Stream.Memory.{receive_buffer-Within}
use cpp_socket_library.Tests.Machine.{system, friendly, start, system-IsReceiver}

receive_buffer-Within_example :
    Returns
      (λ r m. (r.1 ≤ 3) × (length r.0 ≡ 5) × (drop r.1 r.0 ≡ drop r.1 (codes "---!?")))
      (receive_buffer (system friendly) (pos 0) (codes "---!?") 3 (pos 0) start)
receive_buffer-Within_example =
    receive_buffer-Within (system friendly) (pos 0) (pos 0)
      (system-IsReceiver friendly (pos 0) (pos 0)) 3 (omega arith) (codes "---!?") start
