-- ===== src/Socket/Timing.antt =====
-- The split of a timeout into seconds and microseconds.
use cpp_socket_library.Prelude.{ℕ, suc, ◌+◌, ◌*◌, ◌≡◌, ◌<◌, arith, ℤ, pos, negsuc, pos_part}
use cpp_socket_library.Socket.{to_timeval}

-- The absolute value.
abbrev pub magnitude : ℤ → ℕ
magnitude (pos n) = n
magnitude (negsuc n) = suc n

-- The seconds and microseconds add up to the timeout, the microseconds are less than a second, and
-- a part has the timeout's sign where it is not 0.
pub to_timeval_lem :
    (timeout : ℤ)
    → let t = to_timeval timeout in
      (magnitude t.tv_sec * 1000000 + magnitude t.tv_usec ≡ magnitude timeout)
      × (magnitude t.tv_usec < 1000000)
      × (pos_part t.tv_sec * 1000000 + pos_part t.tv_usec ≡ pos_part timeout)
unfolding to_timeval
to_timeval_lem (pos n) = omega arith
to_timeval_lem (negsuc n) = ground arith
