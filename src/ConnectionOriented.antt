-- ===== src/ConnectionOriented.antt =====
-- src/socket/ConnectionOrientedSocket.h: the abstract class of connections, whose methods are those
-- of `Stream` on the descriptor that `getSocket` returns, and the calls of a program on an object
-- of it.
pub mod Classes
pub mod Closed
use cpp_socket_library.Prelude.{ℕ, Bool, Option, List, [], ◌∷◌, Bytes, ℤ}
use cpp_socket_library.System.{Os, Run, M, pure, ◌>>=◌}
use cpp_socket_library.ServerSocket.{Closable, recover}
use cpp_socket_library.Stream.{
  ready, connected, send, send_string, get, receive_amount, receive_to_delimiter, receive_buffer,
  receive_all,
}

-- The abstract class `ConnectionOrientedSocket`, for objects `O`.
pub record ConnectionOrientedSocket (W O : Type 0) : Type 0 where
  pub base : Closable W O
  pub get_socket : O → ℤ

pub data Call : Type 0 where
  check_ready : (timeout : ℕ) → Call
  check_connected : (timeout : ℕ) → Call
  send_bytes : (message : Bytes) (message_length flags : ℤ) → Call
  send_text : (message : Bytes) (flags : ℤ) → Call
  get_char : (flags : ℤ) → Call
  receive : (amount : ℕ) (flags : ℤ) → Call
  receive_line : (delimiter : ℕ) (flags : ℤ) → Call
  receive_into : (buffer : Bytes) (amount : ℕ) (flags : ℤ) → Call
  receive_rest : (timeout : ℕ) (flags : ℤ) → Call
  close_it : Call

-- What a caller gets: `buffered` is the buffer and how many bytes of it were received, and `caught`
-- stands for a `SocketException`.
pub data Answer : Type 0 where
  truth : Bool → Answer
  code : ℤ → Answer
  character : Option ℕ → Answer
  text : Bytes → Answer
  buffered : Bytes → ℕ → Answer
  closed : Answer
  caught : Answer

module _ {W O : Type 0} (os : Os W) (c : ConnectionOrientedSocket W O) (fuel : ℕ) where
  unfoldable pub perform : Call → O → M W (O × Answer)
  perform (check_ready t) o = do b ← ready os (c.get_socket o) t; pure (o, truth b)
  perform (check_connected t) o = do b ← connected os (c.get_socket o) t; pure (o, truth b)
  perform (send_bytes m n g) o = do r ← send os (c.get_socket o) m n g; pure (o, code r)
  perform (send_text m g) o = do r ← send_string os (c.get_socket o) m g; pure (o, code r)
  perform (get_char g) o = do r ← get os (c.get_socket o) g; pure (o, character r)
  perform (receive n g) o = do s ← receive_amount os (c.get_socket o) n g; pure (o, text s)
  perform (receive_line d g) o = do
    s ← receive_to_delimiter os (c.get_socket o) fuel d g
    pure (o, text s)
  perform (receive_into b n g) o = do
    r ← receive_buffer os (c.get_socket o) b n g
    pure (o, buffered r.0 r.1)
  perform (receive_rest t g) o = do s ← receive_all os (c.get_socket o) fuel t g; pure (o, text s)
  perform close_it o = do o' ← c.base.close o; pure (o', closed)

  -- The caller catches `SocketException` with its derived classes.
  unfoldable pub perform_each : List Call → O → M W (O × List Answer)
  unfolding perform
  perform_each [] o = pure (o, [])
  perform_each (q ∷ qs) o = do
    (o', a) ← (λ w. recover (o, caught) (perform q o w))
    (o'', rest) ← perform_each qs o'
    pure (o'', a ∷ rest)
