-- ===== src/Stream.antt =====
-- src/socket/ConnectionOrientedSocket.h and ConnectionOrientedSocket.cpp: sending and receiving on
-- a connection. The class has no state of its own; `getSocket()` is the argument `descriptor`.
pub mod Wait
pub mod Receive
pub mod Delimiter
pub mod All
pub mod Closed
pub mod Exact
pub mod Session
pub mod Lines
pub mod Dialogue
pub mod Memory
use cpp_socket_library.Prelude.{
  ℕ, zero, suc, ◌+◌, ◌-◌, ◌%◌, ◌^◌, Bool, true, false, not, ◌&&◌, ◌||◌, Option, none, some, [], ◌∷◌,
  ◌++◌, ltb, ◌==◌, if◌then◌else◌, length, take, replicate, Bytes, write_at, ℤ, pos, minus_one, eq_ℤ,
  is_positive, lt_ℕ, pos_part, to_int, to_long, to_unsigned, to_size,
}
use cpp_socket_library.Errors.{socket_exception}
use cpp_socket_library.System.{Os, M, out_of_fuel, pure, raise, call, ◌>>=◌}
use cpp_socket_library.Socket.{poll_socket}

-- The default timeout of `ready` and `connected`, in microseconds.
abbrev pub default_timeout : ℕ
default_timeout = 100

-- `static_cast<int>(amountToReceive - counter)`, as the `size_t` that `recv` is called with.
unfoldable pub recv_length : (amount counter : ℕ) → ℕ
recv_length amount counter = to_size (to_int (amount + 2 ^ 32 - counter % 2 ^ 32))

-- The character at the front, or none.
abbrev pub first_char : Bytes → Option ℕ
first_char [] = none
first_char (c ∷ s) = some c

abbrev pub starts_with_nul : Bytes → Bool
starts_with_nul [] = false
starts_with_nul (c ∷ s) = c == 0

module _ {W : Type 0} (os : Os W) (descriptor : ℤ) where
  unfoldable pub ready : (timeout : ℕ) → M W Bool
  ready timeout = do
    result ← poll_socket os descriptor (to_long timeout) none
    pure (is_positive result)

  unfoldable pub connected : (timeout : ℕ) → M W Bool
  connected timeout = do
    result ← poll_socket os descriptor (to_long timeout) none
    pure (not (eq_ℤ result minus_one))

  unfoldable pub send : (message : Bytes) (message_length flags : ℤ) → M W ℤ
  send message message_length flags =
      call (os.send descriptor message (to_size message_length) flags)

  unfoldable pub send_string : (message : Bytes) (flags : ℤ) → M W ℤ
  unfolding send
  send_string message flags = send (message ++ 0 ∷ []) (to_int (length message)) flags

  -- The loop of `receiveAmount`: the buffer, and how many bytes of it are received.
  unfoldable pub receive_loop :
      ℕ → (buffer : Bytes) (counter amount : ℕ) (flags : ℤ) → M W (Bytes × ℕ)
  unfolding ready
  receive_loop zero buffer counter amount flags = λ _. out_of_fuel
  receive_loop (suc fuel) buffer counter amount flags = do
    (received, bytes) ← call (os.recv descriptor (recv_length amount counter) flags)
    if lt_ℕ received 1
        then pure (write_at buffer counter bytes, counter)
        else if ltb (counter + pos_part received) amount
        then (do
          more ← ready default_timeout
          if more
              then receive_loop fuel (write_at buffer counter bytes) (counter + pos_part received)
                  amount flags
              else pure (write_at buffer counter bytes, counter + pos_part received))
        else pure (write_at buffer counter bytes, counter + pos_part received)

  -- Every round but the last receives a byte, so there are at most `amount`.
  unfoldable pub receive_buffer : (buffer : Bytes) (amount : ℕ) (flags : ℤ) → M W (Bytes × ℕ)
  unfolding receive_loop
  receive_buffer buffer amount flags =
      if amount == 0 then pure (buffer, 0) else receive_loop amount buffer 0 amount flags

  unfoldable pub receive_amount : (amount : ℕ) (flags : ℤ) → M W Bytes
  unfolding receive_buffer
  receive_amount amount flags = do
    (buffer, received) ← receive_buffer (replicate amount 0) amount flags
    pure (take received buffer)

  unfoldable pub get : (flags : ℤ) → M W (Option ℕ)
  unfolding receive_amount
  get flags = do received ← receive_amount 1 flags; pure (first_char received)

  unfoldable pub delimiter_loop : ℕ → (text : Bytes) (delimiter : ℕ) (flags : ℤ) → M W Bytes
  unfolding get ready
  delimiter_loop zero text delimiter flags = λ _. out_of_fuel
  delimiter_loop (suc fuel) text delimiter flags = do
    character ← get flags
    elim character [
      | none ↦ pure text
      | some c ↦ if c == delimiter then pure text else do
        more ← ready default_timeout
        if more then delimiter_loop fuel (text ++ c ∷ []) delimiter flags else pure (text ++ c ∷ [])
    ]

  unfoldable pub receive_to_delimiter : ℕ → (delimiter : ℕ) (flags : ℤ) → M W Bytes
  unfolding delimiter_loop
  receive_to_delimiter fuel delimiter flags = if delimiter == 0 then raise socket_exception else do
    more ← ready default_timeout
    if more then delimiter_loop fuel [] delimiter flags else pure []

  unfoldable pub all_loop :
      ℕ → (result : Bytes) (hit_eof : Bool) (timeout : ℕ) (flags : ℤ) → M W Bytes
  unfolding receive_amount ready
  all_loop zero result hit_eof timeout flags = λ _. out_of_fuel
  all_loop (suc fuel) result hit_eof timeout flags = do
    more ← ready timeout
    if more && not hit_eof
        then (do
          polled ← poll_socket os descriptor (to_long timeout) none
          res ← receive_amount (to_unsigned polled) flags
          all_loop fuel (if starts_with_nul res then result else result ++ res)
              (starts_with_nul res || hit_eof) timeout flags)
        else pure result

  unfoldable pub receive_all : ℕ → (timeout : ℕ) (flags : ℤ) → M W Bytes
  unfolding all_loop
  receive_all fuel timeout flags = all_loop fuel [] false timeout flags
