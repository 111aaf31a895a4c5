-- ===== src/ServerSocket/Program.antt =====
-- A program with a server of any class, from the construction of the server to the end.
use cpp_socket_library.Prelude.{◌≡◌, Bool, false, List, [], ℤ}
use cpp_socket_library.Errors.{Exception, get_invalid_socket_value}
use cpp_socket_library.System.{M, ◌>>=◌}
use cpp_socket_library.System.Table.{SameTable, Opens}
use cpp_socket_library.System.Returns
use cpp_socket_library.System.Ends
use cpp_socket_library.System.Ends.{Ends}
use cpp_socket_library.ServerSocket.{
  Closable, ServerSocket, IsClosable, IsServer, Request, serve_each, shut_down,
}
use cpp_socket_library.ServerSocket.Owned.{Owns, Owns-Opens, Owns-nil}
use cpp_socket_library.ServerSocket.Sessions.{own, serve_each-Owns}

module _ {W S T : Type 0} (server : ServerSocket W S T) (connection : Closable W T) where
  -- The constructor, any requests, and the end.
  unfoldable pub run_program : (construct : M W S) → List Request → M W (Unit {0})
  unfolding serve_each shut_down
  run_program construct requests = do
    s ← construct
    session ← serve_each server connection (record { server = s; connections = [] }) requests
    shut_down server connection session

  module _ (is_open : W → ℤ → Bool) (descriptor : S → ℤ) (handle : T → ℤ)
      (promise : IsServer is_open descriptor handle server)
      (closes : IsClosable is_open handle connection) where
    -- Where the constructor returns a server that holds the one descriptor that was opened, the
    -- program ends with the table of descriptors as it was; and only the constructor throws.
    pub run_program-Ends :
        {F : Exception → W → Type 0} (construct : M W S) (requests : List Request) (w : W)
        → Ends (λ s w'. Opens is_open (descriptor s) w w') F (construct w)
        → is_open w get_invalid_socket_value ≡ false
        → Ends (λ u w'. SameTable is_open w w') F (run_program construct requests w)
    unfolding run_program
    run_program-Ends construct requests w constructs nothing = Ends.bind constructs λ s w₁ opens.
        let owned : Owns is_open w (own (descriptor s)) w₁ =
          rw opens.valid (Owns-Opens is_open w (descriptor s) [] (Owns-nil is_open w) opens) in
        Ends.of_Returns (
          Returns.bind
            (serve_each-Owns is_open descriptor handle server connection promise closes w nothing
              (record { server = s; connections = [] }) requests w₁ owned)
            λ s' w₂ r. r.1)
