-- ===== src/Socket.antt =====
-- src/socket/Socket.h and Socket.cpp: waiting for a descriptor, and closing it.
pub mod Timing
use cpp_socket_library.Prelude.{ℕ, Option, none, some, if◌then◌else◌, ℤ, minus_one, quot_ℤ, rem_ℤ}
use cpp_socket_library.Errors.{is_invalid_socket}
use cpp_socket_library.System.{TimeVal, Os, M, pure, call, ◌>>=◌, ◌>>◌}

-- A timeout in microseconds, as `select` takes it.
unfoldable pub to_timeval : ℤ → TimeVal
to_timeval timeout = record { tv_sec = quot_ℤ timeout 1000000; tv_usec = rem_ℤ timeout 1000000 }

-- The `timeval` that is used: the caller's, where the pointer is not null.
unfoldable pub poll_time : ℤ → Option TimeVal → TimeVal
unfolding to_timeval
poll_time timeout none = to_timeval timeout
poll_time timeout (some t) = t

module _ {W : Type 0} (os : Os W) where
  unfoldable pub poll_socket : (descriptor timeout : ℤ) → Option TimeVal → M W ℤ
  unfolding poll_time
  poll_socket descriptor timeout time_out_val =
      if is_invalid_socket descriptor
      then pure minus_one
      else call (os.select descriptor (poll_time timeout time_out_val))

  unfoldable pub close : (descriptor : ℤ) → M W (Unit {0})
  close descriptor = do call (os.close descriptor); pure tt
