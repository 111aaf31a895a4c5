-- ===== src/TcpServer/Open.antt =====
-- Opening the socket of a server for the first of the resolved addresses.
use cpp_socket_library.Prelude.{
  ℕ, ◌≡◌, ◌≢◌, refl, ◌⊎◌, inl, inr, Bool, Option, List, [], ◌∷◌, All, ℤ, pos, eq_ℤ, Bool-cases,
}
use cpp_socket_library.Errors.{Exception, socket_exception, is_socket_exception, is_invalid_socket}
use cpp_socket_library.Protocol.{family_int, from_family}
use cpp_socket_library.System.{AddrInfo, Os, throw, and_then}
use cpp_socket_library.System.Laws.{IsLedger}
use cpp_socket_library.System.Table.{
  SameTable, Opens, Opens-same, socket-Opens, socket-same, not_zero,
}
use cpp_socket_library.System.Ends
use cpp_socket_library.System.Ends.{Ends, returned, threw}
use cpp_socket_library.Address.{SocketAddress}
use cpp_socket_library.Address.Resolve.{IsFull}
use cpp_socket_library.TcpServer.{
  TcpServer, Operation, run_operation, sol_socket, so_reuseaddr, bind_and_listen, open_socket,
  first_address,
}
use cpp_socket_library.TcpServer.Listen.{Failed, Listening, bind_and_listen-Ends}

module _ {W : Type 0} (os : Os W) (is_open : W → ℤ → Bool) (law : IsLedger os is_open) where
  -- `SO_REUSEADDR` can be set on every descriptor.
  abbrev pub ReuseWorks : Type 0
  ReuseWorks = (d : ℤ) (w : W) → (os.setsockopt d sol_socket so_reuseaddr (pos 1) w).0 ≡ pos 0

  -- The operation before binding returns, keeps the descriptor, and opens and closes none.
  abbrev pub IsTame : Option (Operation W) → Type 0
  IsTame f =
      (d : ℤ) (w : W)
      → Ends (λ d' w'. (d' ≡ d) × SameTable is_open w w') (λ e w'. ⊥) (run_operation f d w)

  -- The operation before binding ends, opens and closes no descriptor, and keeps its descriptor
  -- where it returns.
  abbrev pub IsGentle : Option (Operation W) → Type 0
  IsGentle f =
      (d : ℤ) (w : W)
      → Ends (λ d' w'. (d' ≡ d) × SameTable is_open w w') (λ e w'. SameTable is_open w w')
          (run_operation f d w)

  -- One descriptor was opened and is left open: `SO_REUSEADDR` could not be set on it, or the
  -- operation before binding threw the exception.
  pub record Stranded (pre_bind : Option (Operation W)) (w : W) (e : Exception) (w' : W)
      : Type 0 where
    pub descriptor : ℤ
    pub opens : Opens is_open descriptor w w'
    pub reason :
        (w₁ : W) × (((e ≡ socket_exception)
            × ((os.setsockopt descriptor sol_socket so_reuseaddr (pos 1) w₁).0 ≢ pos 0))
          ⊎ (run_operation pre_bind descriptor w₁ ≡ throw e w'))

  abbrev pub Aborted : Option (Operation W) → W → Exception → W → Type 0
  Aborted pre_bind w e w' = Failed os is_open law w e w' ⊎ Stranded pre_bind w e w'

  module _ (pre_bind : Option (Operation W)) (gentle : IsGentle pre_bind) where
    after_reuse-Ends :
        (s : TcpServer) (backlog : ℕ) (d : ℤ) (w w₁ : W)
        → Opens is_open d w w₁
        → IsFull s.server_address
        → s.protocol_version ≡ from_family s.server_address.sa_family
        → Ends (Listening os is_open law s.port w) (Aborted pre_bind w) (
            and_then
              (run_operation pre_bind d w₁)
              λ d'. bind_and_listen os (record s { socket_descriptor = d' }) backlog)
    after_reuse-Ends s backlog d w w₁ opens full version =
        Ends.bind
          (Ends.mono (Ends.remember (gentle d w₁)) (λ d' w₂ p. p.0)
            (λ e w₂ (same, thrown). inr (record {
              descriptor = d;
              opens = Opens-same is_open opens same;
              reason = (w₁, inr thrown);
            })))
          λ d' w₂ p.
            Ends.mono
              (bind_and_listen-Ends os is_open law (record s { socket_descriptor = d' }) backlog w
                w₂ (rw p.0 (Opens-same is_open opens p.1)) full version)
              (λ u w₃ l. l) (λ e w₃ f. inl f)

    open_socket-Ends :
        (s : TcpServer) (hints : AddrInfo) (backlog : ℕ) (w : W)
        → IsFull s.server_address
        → s.protocol_version ≡ from_family s.server_address.sa_family
        → Ends
            (Listening os is_open law s.port w)
            (Aborted pre_bind w)
            (open_socket os s hints backlog pre_bind w)
    unfolding open_socket is_socket_exception
    open_socket-Ends s hints backlog w full version =
        let f = family_int s.protocol_version in
        let r = os.socket f hints.ai_socktype hints.ai_protocol w in
        let set = os.setsockopt r.0 sol_socket so_reuseaddr (pos 1) r.1 in
        elim (Bool-cases (is_invalid_socket r.0)) [
          | inl bad ↦ rw bad (
              threw (inl (record { caught = refl; same = socket-same is_open os law f _ _ w bad })))
          | inr good ↦
              let opens =
                Opens-same is_open (socket-Opens is_open os law f _ _ w good)
                  (law.setsockopt_keeps r.0 sol_socket so_reuseaddr (pos 1) r.1) in
              rw good (elim (Bool-cases (eq_ℤ set.0 (pos 0))) [
                | inl can ↦ rw can (after_reuse-Ends s backlog r.0 w set.1 opens full version)
                | inr cannot ↦ rw cannot (
                    threw (
                      inr (record {
                        descriptor = r.0;
                        opens = opens;
                        reason = (r.1, inl (refl, not_zero set.0 cannot));
                      })))
              ])
        ]

    pub first_address-Ends :
        (s : TcpServer) (hints : AddrInfo) (backlog : ℕ) (addresses : List SocketAddress) (w : W)
        → All IsFull addresses
        → Ends
            (Listening os is_open law s.port w)
            (Aborted pre_bind w)
            (first_address os s hints backlog pre_bind addresses w)
    unfolding is_socket_exception
    first_address-Ends s hints backlog [] w full =
        threw (inl (record { caught = refl; same = λ d. refl }))
    first_address-Ends s hints backlog (a ∷ rest) w full =
        open_socket-Ends
          (record s { protocol_version = from_family a.sa_family; server_address = a }) hints
          backlog w full.0 refl
