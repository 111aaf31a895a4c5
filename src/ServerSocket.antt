-- ===== src/ServerSocket.antt =====
-- src/serversocket/ServerSocket.h and the class that it extends in src/socket/Socket.h: the
-- interface of servers, what it promises, and a program that serves requests with it.
pub mod Owned
pub mod Sessions
pub mod Program
use cpp_socket_library.Prelude.{
  ℕ, zero, suc, ◌≡◌, Bool, true, false, not, ◌&&◌, List, [], ◌∷◌, if◌then◌else◌, ℤ, eq_ℤ,
}
use cpp_socket_library.Errors.{is_socket_exception, get_invalid_socket_value}
use cpp_socket_library.System.{Run, M, ok, throw, out_of_fuel, pure, ◌>>=◌, ◌>>◌}
use cpp_socket_library.System.Returns.{Returns}
use cpp_socket_library.System.Ends.{Ends}
use cpp_socket_library.System.Table.{SameTable, Opens}

-- The abstract class `Socket`, for objects `O`.
pub record Closable (W O : Type 0) : Type 0 where
  pub close : O → M W O

-- The abstract class `ServerSocket` for servers `S`; it is given the class of its connections.
pub record ServerSocket (W S T : Type 0) : Type 0 where
  pub base : Closable W S
  pub accept : S → (timeout : ℤ) → M W T

module _ {W : Type 0} (is_open : W → ℤ → Bool) where
  -- The descriptor `fd` is closed, and no other.
  abbrev pub Closes : ℤ → W → W → Type 0
  Closes fd w w' = (d : ℤ) → is_open w' d ≡ (not (eq_ℤ d fd) && is_open w d)

  -- `close` returns, closes the object's descriptor, and leaves an object without one.
  abbrev pub IsClosable : {O : Type 0} → (descriptor : O → ℤ) → Closable W O → Type 0
  IsClosable {O} descriptor c =
      (o : O) (w : W)
      → Returns (λ o' w'. (descriptor o' ≡ get_invalid_socket_value) × Closes (descriptor o) w w')
          (c.close o w)

  -- `accept` ends: with an object that holds the one descriptor that was opened, or with an
  -- exception that a handler for `SocketException` catches, and nothing opened.
  pub record IsServer {S T : Type 0} (descriptor : S → ℤ) (connection : T → ℤ)
      (server : ServerSocket W S T) : Type 0 where
    pub closes : IsClosable descriptor server.base
    pub accepts :
        (s : S) (timeout : ℤ) (w : W)
        → Ends
            (λ t w'. Opens is_open (connection t) w w')
            (λ e w'. (is_socket_exception e ≡ true) × SameTable is_open w w')
            (server.accept s timeout w)

-- A program with one server keeps the connections that it accepted, the newest first.
pub record Session (S T : Type 0) : Type 0 where
  pub server : S
  pub connections : List T

pub data Request : Type 0 where
  accept_one : (timeout : ℤ) → Request
  close_connection : (index : ℕ) → Request
  close_server : Request

-- The program catches `SocketException` with its derived classes, and nothing else.
abbrev pub recover : {W A : Type 0} → A → Run W A → Run W A
recover a (ok b w) = ok b w
recover a (throw e w) = if is_socket_exception e then ok a w else throw e w
recover a out_of_fuel = out_of_fuel

module _ {W S T : Type 0} (server : ServerSocket W S T) (connection : Closable W T) where
  -- The connection at an index is closed and forgotten; there may be none.
  unfoldable pub close_nth : ℕ → List T → M W (List T)
  close_nth i [] = pure []
  close_nth zero (t ∷ ts) = do t' ← connection.close t; pure ts
  close_nth (suc i) (t ∷ ts) = do ts' ← close_nth i ts; pure (t ∷ ts')

  unfoldable pub serve : Session S T → Request → M W (Session S T)
  unfolding close_nth
  serve s (accept_one timeout) = λ w. recover s (
      (do t ← server.accept s.server timeout; pure (record s { connections = t ∷ s.connections }))
        w)
  serve s (close_connection i) = do
    ts ← close_nth i s.connections
    pure (record s { connections = ts })
  serve s close_server = do closed ← server.base.close s.server; pure (record s { server = closed })

  unfoldable pub serve_each : Session S T → List Request → M W (Session S T)
  unfolding serve
  serve_each s [] = pure s
  serve_each s (r ∷ rs) = do s' ← serve s r; serve_each s' rs

  unfoldable pub close_each : List T → M W (Unit {0})
  close_each [] = pure tt
  close_each (t ∷ ts) = do connection.close t; close_each ts

  -- The end of the program: what it holds is closed.
  unfoldable pub shut_down : Session S T → M W (Unit {0})
  unfolding close_each
  shut_down s = do server.base.close s.server; close_each s.connections
