-- ===== src/TcpServer/Create.antt =====
-- The constructor of the server, and the descriptor that it can leave behind.
use cpp_socket_library.Prelude.{
  ℕ, ◌≡◌, ◌≢◌, refl, ◌∙◌, inl, inr, Bool, true, false, Option, Bytes, ℤ, pos, eq_ℤ, eq_ℤ→≡,
  eq_ℤ_refl, Bool-cases, arith,
}
use cpp_socket_library.Errors.{
  Exception, socket_exception, is_socket_exception, is_invalid_socket, get_invalid_socket_value,
}
use cpp_socket_library.Protocol.{InternetProtocolVersion, family_int}
use cpp_socket_library.System.{AddrInfo, Os, Run, throw}
use cpp_socket_library.System.Laws.{IsLedger}
use cpp_socket_library.System.Table.{SameTable, Opens-same, same-Opens, socket-Opens}
use cpp_socket_library.System.Ends
use cpp_socket_library.System.Ends.{Ends, returned, threw}
use cpp_socket_library.Address.{zero_address, ai_passive, create_tcp_hints}
use cpp_socket_library.Address.Resolve.{resolve_to_addresses-same}
use cpp_socket_library.TcpServer.{
  TcpServer, Operation, sol_socket, so_reuseaddr, local_name, open_socket, construct_socket, create,
}
use cpp_socket_library.TcpServer.Listen.{Failed, Listening}
use cpp_socket_library.TcpServer.Open.{ReuseWorks, IsTame, IsGentle, Aborted, first_address-Ends}

module _ {W : Type 0} (os : Os W) (is_open : W → ℤ → Bool) (law : IsLedger os is_open) where
  Stranded-earlier :
      (pre_bind : Option (Operation W)) (w w₁ : W) (e : Exception) (w' : W)
      → SameTable is_open w w₁
      → Aborted os is_open law pre_bind w₁ e w'
      → Aborted os is_open law pre_bind w e w'
  Stranded-earlier pre_bind w w₁ e w' same (inl f) =
      inl (record { caught = f.caught; same = λ d. f.same d ∙ same d })
  Stranded-earlier pre_bind w w₁ e w' same (inr k) = inr (record {
    descriptor = k.descriptor;
    opens = same-Opens is_open same k.opens;
    reason = k.reason;
  })

  -- The constructor of the server ends, whatever the system answers, with any operation before
  -- binding that ends, opens and closes no descriptor, and keeps its descriptor where it returns.
  -- It returns a server that holds the one descriptor that was opened, with the version of its
  -- address; a requested port other than 0 is kept, and for 0 the server has the port that
  -- `getsockname` names for its descriptor once the system has bound it to an address, and shows
  -- that address with this port. Or it throws: an exception that a handler for
  -- `SocketException` catches, with nothing left open; or, with the one descriptor that was opened
  -- left open, a `SocketException` because `SO_REUSEADDR` could not be set on that descriptor, or
  -- what the operation before binding threw.
  pub create-Ends :
      (pre_bind : Option (Operation W))
      → IsGentle os is_open law pre_bind
      → (local_hostname : Option Bytes) (port backlog : ℕ) (version : InternetProtocolVersion)
        (w : W)
      → Ends
          (Listening os is_open law port w)
          (Aborted os is_open law pre_bind w)
          (create os local_hostname port backlog version pre_bind w)
  unfolding create construct_socket is_socket_exception
  create-Ends pre_bind gentle local_hostname port backlog version w =
      let hints = create_tcp_hints version ai_passive in
      let s : TcpServer = record {
        port = port;
        protocol_version = version;
        server_address = zero_address;
        socket_descriptor = get_invalid_socket_value;
      } in
      Ends.bind
        (Ends.of_Returns {E = Aborted os is_open law pre_bind w} (
          resolve_to_addresses-same os is_open law (local_name local_hostname version) port hints
            w))
        λ (addresses, code) w₁ (same, full). elim (Bool-cases (eq_ℤ code (pos 0))) [
          | inl good ↦ rw good (
              Ends.mono
                (first_address-Ends os is_open law pre_bind gentle s hints backlog addresses w₁
                  full)
                (λ u w₂ l. record {
                  opens = same-Opens is_open same l.opens;
                  version = l.version;
                  kept = l.kept;
                  chosen = l.chosen;
                })
                (λ e w₂ f. Stranded-earlier pre_bind w w₁ e w₂ same f))
          | inr bad ↦ rw bad (threw (inl (record { caught = refl; same = same })))
        ]

  IsTame-IsGentle :
      (pre_bind : Option (Operation W))
      → IsTame os is_open law pre_bind
      → IsGentle os is_open law pre_bind
  IsTame-IsGentle pre_bind tame d w = Ends.mono (tame d w) (λ d' w' p. p) (λ e w' h. absurd h)

  Ends-throws :
      {r : Run W ℤ} {P : ℤ → W → Type 0} (e : Exception) (w : W)
      → Ends P (λ e w'. ⊥) r
      → r ≢ throw e w
  Ends-throws e w (returned p) = λ h. cc
  Ends-throws e w (threw h) = absurd h

  -- Where `SO_REUSEADDR` can be set and the operation before binding throws nothing, a constructor
  -- that throws leaves nothing open.
  pub create-Failed :
      ReuseWorks os is_open law
      → (pre_bind : Option (Operation W)) → IsTame os is_open law pre_bind
      → (local_hostname : Option Bytes) (port backlog : ℕ) (version : InternetProtocolVersion)
        (w : W)
      → Ends
          (Listening os is_open law port w)
          (Failed os is_open law w)
          (create os local_hostname port backlog version pre_bind w)
  create-Failed reuse pre_bind tame local_hostname port backlog version w =
      Ends.mono
        (create-Ends pre_bind (IsTame-IsGentle pre_bind tame) local_hostname port backlog version w)
        (λ s w' l. l) not_stranded
    where
      not_stranded :
          (e : Exception) (w' : W)
          → Aborted os is_open law pre_bind w e w'
          → Failed os is_open law w e w'
      not_stranded e w' (inl f) = f
      not_stranded e w' (inr k) = elim k.reason.1 [
        | inl unset ↦ absurd (unset.1 (reuse k.descriptor k.reason.0))
        | inr thrown ↦ absurd (Ends-throws e w' (tame k.descriptor k.reason.0) thrown)
      ]

  -- Where `SO_REUSEADDR` cannot be set on a new valid descriptor, opening the socket throws a
  -- `SocketException` and leaves that descriptor open, whatever is to be done before binding.
  pub open_socket-leak :
      (s : TcpServer) (hints : AddrInfo) (backlog : ℕ) (pre_bind : Option (Operation W)) (w : W)
      → let r = os.socket (family_int s.protocol_version) hints.ai_socktype hints.ai_protocol w in
        is_invalid_socket r.0 ≡ false
        → (os.setsockopt r.0 sol_socket so_reuseaddr (pos 1) r.1).0 ≢ pos 0
        → (w' : W) × (open_socket os s hints backlog pre_bind w ≡ throw socket_exception w')
          × (is_open w r.0 ≡ false)
          × (is_open w' r.0 ≡ true)
  unfolding open_socket
  open_socket-leak s hints backlog pre_bind w good unset =
      let f = family_int s.protocol_version in
      let r = os.socket f hints.ai_socktype hints.ai_protocol w in
      let set = os.setsockopt r.0 sol_socket so_reuseaddr (pos 1) r.1 in
      let opens =
        Opens-same is_open (socket-Opens is_open os law f _ _ w good)
          (law.setsockopt_keeps r.0 sol_socket so_reuseaddr (pos 1) r.1) in
      let failed : eq_ℤ set.0 (pos 0) ≡ false = ground (arith, eq_ℤ→≡ set.0 (pos 0)) in
      (set.1, rw (good, failed) refl, opens.fresh, ground (arith, opens.opened r.0, eq_ℤ_refl r.0))
