-- ===== src/ServerSocket/Sessions.antt =====
-- A program that serves requests with one server, and the descriptors that it holds.
use cpp_socket_library.Prelude.{
  ◌≡◌, refl, ap, ◌⊎◌, inl, inr, Bool, true, false, List, [], ◌∷◌, if◌then◌else◌, ℤ, zero, suc, ℕ,
  eq_ℤ→≡, minus_one, Bool-cases,
}
use cpp_socket_library.Errors.{get_invalid_socket_value, is_invalid_socket, is_socket_exception}
use cpp_socket_library.System.Returns
use cpp_socket_library.System.Returns.{Returns, returns}
use cpp_socket_library.System.Ends
use cpp_socket_library.System.Ends.{Ends, returned, threw}
use cpp_socket_library.System.Table.{SameTable}
use cpp_socket_library.System.{Run}
use cpp_socket_library.ServerSocket.{
  Closable, ServerSocket, Closes, IsClosable, IsServer, Session, Request, accept_one,
  close_connection, close_server, recover, close_nth, serve, serve_each, close_each, shut_down,
}
use cpp_socket_library.ServerSocket.Owned.{
  Taken, here, there, Owns, Owns-same, Owns-Opens, Owns-Closes, Owns-nothing,
}

-- The descriptors of the connections, in front of others.
abbrev pub handles : {T : Type 0} → (T → ℤ) → List T → List ℤ → List ℤ
handles connection [] tail = tail
handles connection (t ∷ ts) tail = connection t ∷ handles connection ts tail

-- A server that was closed holds no descriptor.
abbrev pub own : ℤ → List ℤ
own d = if is_invalid_socket d then [] else d ∷ []

abbrev pub held : {S T : Type 0} → (S → ℤ) → (T → ℤ) → Session S T → List ℤ
held descriptor connection s = handles connection s.connections (own (descriptor s.server))

handles-Taken :
    {T : Type 0} (connection : T → ℤ) (ts : List T) (x : ℤ)
    → Taken x (handles connection ts (x ∷ [])) (handles connection ts [])
handles-Taken connection [] x = here
handles-Taken connection (t ∷ ts) x = there (handles-Taken connection ts x)

-- A run whose exceptions are caught leaves the value as it was where it throws.
pub recover-Returns :
    {W A : Type 0} (P : A → W → Type 0) (a : A) {r : Run W A}
    → Ends P (λ e w'. (is_socket_exception e ≡ true) × P a w') r
    → Returns P (recover a r)
recover-Returns P a (returned p) = returns p
recover-Returns P a (threw (caught, p)) = rw caught (returns p)

module _ {W S T : Type 0} (is_open : W → ℤ → Bool) (descriptor : S → ℤ) (connection : T → ℤ)
    (server : ServerSocket W S T) (client : Closable W T)
    (promise : IsServer is_open descriptor connection server)
    (closes : IsClosable is_open connection client) where
  -- One of the connections was closed, or none.
  abbrev Change : List T → List ℤ → W → List T → W → Type 0
  Change ts tail w ts' w' =
      ((ts' ≡ ts) × (w' ≡ w))
      ⊎ ((x : ℤ) × Taken x (handles connection ts tail) (handles connection ts' tail)
          × Closes is_open x w w')

  close_nth-Change :
      (i : ℕ) (ts : List T) (tail : List ℤ) (w : W)
      → Returns (Change ts tail w) (close_nth server client i ts w)
  unfolding close_nth
  close_nth-Change i [] tail w = returns (inl (refl, refl))
  close_nth-Change zero (t ∷ ts) tail w =
      Returns.bind (closes t w) λ t' w' c. returns (inr (connection t, here, c.1))
  close_nth-Change (suc i) (t ∷ ts) tail w = Returns.bind (close_nth-Change i ts tail w) λ ts' w' c.
      returns (elim c [
        | inl (same, e) ↦ inl (ap (◌∷◌ t) same, e)
        | inr (x, taken, k) ↦ inr (x, there taken, k)
      ])

  module _ (start : W) (nothing : is_open start get_invalid_socket_value ≡ false) where
    close-own :
        (d : ℤ) (ts : List T) (w w' : W)
        → Owns is_open start (handles connection ts (own d)) w
        → Closes is_open d w w'
        → Owns is_open start (handles connection ts []) w'
    close-own d ts w w' = elim (Bool-cases (is_invalid_socket d)) [
      | inl shut ↦ rw (eq_ℤ→≡ d minus_one shut) (λ o c. Owns-nothing is_open start nothing o c)
      | inr good ↦ rw good (λ o c. Owns-Closes is_open start (handles-Taken connection ts d) o c)
    ]

    close_server-Owns :
        (s : S) (ts : List T) (w : W)
        → Owns is_open start (handles connection ts (own (descriptor s))) w
        → Returns
            (λ s' w'. (own (descriptor s') ≡ []) × Owns is_open start (handles connection ts []) w')
            (server.base.close s w)
    close_server-Owns s ts w o =
        Returns.mono (promise.closes s w)
          λ s' w' c. (rw c.0 refl, close-own (descriptor s) ts w w' o c.1)

    serve-Owns :
        (s : Session S T) (r : Request) (w : W)
        → Owns is_open start (held descriptor connection s) w
        → Returns
            (λ s' w'. Owns is_open start (held descriptor connection s') w')
            (serve server client s r w)
    unfolding serve
    serve-Owns s (accept_one timeout) w o =
        recover-Returns (λ s' w'. Owns is_open start (held descriptor connection s') w') s
          (Ends.bind
            (Ends.mono (promise.accepts s.server timeout w) (λ t w' opens. opens)
              (λ e w' (caught, same). (caught, Owns-same is_open start o same)))
            λ t w' opens.
              returned
                (Owns-Opens is_open start (connection t) (held descriptor connection s) o opens))
    serve-Owns s (close_connection i) w o =
        let tail = own (descriptor s.server) in
        Returns.bind (close_nth-Change i s.connections tail w) λ ts w' c. returns (elim c [
          | inl (same, e) ↦ rw (same, e) o
          | inr (x, taken, k) ↦ Owns-Closes is_open start taken o k
        ])
    serve-Owns s close_server w o =
        Returns.bind (close_server-Owns s.server s.connections w o) λ s' w' c. returns (rw c.0 c.1)

    close_each-Owns :
        (ts : List T) (w : W)
        → Owns is_open start (handles connection ts []) w
        → Returns (λ u w'. Owns is_open start [] w') (close_each server client ts w)
    unfolding close_each
    close_each-Owns [] w o = returns o
    close_each-Owns (t ∷ ts) w o =
        Returns.bind (closes t w)
          λ t' w' c. close_each-Owns ts w' (Owns-Closes is_open start here o c.1)

    shut_down-same :
        (s : Session S T) (w : W)
        → Owns is_open start (held descriptor connection s) w
        → Returns (λ u w'. SameTable is_open start w') (shut_down server client s w)
    unfolding shut_down
    shut_down-same s w o =
        Returns.bind (close_server-Owns s.server s.connections w o)
          λ s' w' c. Returns.mono (close_each-Owns s.connections w' c.1) λ u w'' e d. e.table d

    serve_each-keeps :
        (s : Session S T) (rs : List Request) (w : W)
        → Owns is_open start (held descriptor connection s) w
        → Returns
            (λ s' w'. Owns is_open start (held descriptor connection s') w')
            (serve_each server client s rs w)
    unfolding serve_each
    serve_each-keeps s [] w o = returns o
    serve_each-keeps s (r ∷ rs) w o =
        Returns.bind (serve-Owns s r w o) λ s' w' o'. serve_each-keeps s' rs w' o'

    -- A program with a server that keeps the promise of the interface, and connections whose
    -- `close` does, serves any requests to accept a connection, to close the connection at an
    -- index, or to close the server, in any order and also again after the server is closed. If the
    -- descriptors that it holds, of its server unless that is closed and of its connections, are
    -- valid, distinct, and all that was opened since `start`, then serving returns, nothing but a
    -- `SocketException` or a class that extends it having been thrown on the way, and this holds
    -- again; and closing the server and all connections at the end gives the table of descriptors
    -- back. The invalid descriptor is not open at `start`.
    pub serve_each-Owns :
        (s : Session S T) (requests : List Request) (w : W)
        → Owns is_open start (held descriptor connection s) w
        → Returns
            (λ s' w'.
              Owns is_open start (held descriptor connection s') w'
              × Returns (λ u w''. SameTable is_open start w'') (shut_down server client s' w'))
            (serve_each server client s requests w)
    serve_each-Owns s requests w o =
        Returns.mono (serve_each-keeps s requests w o) λ s' w' o'. (o', shut_down-same s' w' o')
