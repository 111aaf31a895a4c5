-- ===== src/Errors.antt =====
-- The exceptions of src/socketexceptions, and the test of a descriptor (SocketError.cpp).
use cpp_socket_library.Prelude.{ℕ, Bool, true, false, ℤ, minus_one, eq_ℤ}

-- What a function of the library, or a callback that it runs, can throw. `bad_optional_access` and
-- `length_error` are thrown by the standard library, `foreign` stands for what a callback throws.
pub data Exception : Type 0 where
  socket_exception : Exception
  binding_exception : Exception
  timeout_exception : Exception
  bad_optional_access : Exception
  length_error : Exception
  foreign : ℕ → Exception

-- Whether a handler for `kt::SocketException` catches it: the two other classes extend that one.
unfoldable pub is_socket_exception : Exception → Bool
is_socket_exception socket_exception = true
is_socket_exception binding_exception = true
is_socket_exception timeout_exception = true
is_socket_exception bad_optional_access = false
is_socket_exception length_error = false
is_socket_exception (foreign n) = false

-- -1, as on Linux
abbrev pub get_invalid_socket_value : ℤ
get_invalid_socket_value = minus_one

abbrev pub is_invalid_socket : ℤ → Bool
is_invalid_socket descriptor = eq_ℤ descriptor get_invalid_socket_value
