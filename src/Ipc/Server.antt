-- ===== src/Ipc/Server.antt =====
-- IPCServerSocket.h and IPCServerSocket.cpp: a server on a socket path.
pub mod Contract
pub mod Program
use cpp_socket_library.Prelude.{
  ℕ, ◌≡◌, refl, ◌∙◌, ◌⊎◌, inl, inr, Bool, true, false, Option, none, if◌then◌else◌, Bytes,
  until_nul, ℤ, pos, minus_one, eq_ℤ, is_positive, to_int, Bool-cases,
}
use cpp_socket_library.Errors.{
  Exception, socket_exception, binding_exception, timeout_exception, is_socket_exception,
  get_invalid_socket_value, is_invalid_socket,
}
use cpp_socket_library.Protocol.{af_unix}
use cpp_socket_library.System.{Os, M, pure, raise, call, throw, ◌>>=◌, ◌>>◌}
use cpp_socket_library.System.Laws.{IsLedger, IsFiles}
use cpp_socket_library.System.Table.{
  SameTable, Opens, Opens-same, same-Opens, socket-Opens, socket-same, close-Opens,
}
use cpp_socket_library.System.Ends
use cpp_socket_library.System.Ends.{Ends, returned, threw}
use cpp_socket_library.Address.{sock_stream}
use cpp_socket_library.Socket
use cpp_socket_library.TcpServer.{Operation, run_operation}
use cpp_socket_library.TcpServer.Open.{IsGentle}
use cpp_socket_library.Ipc.SocketPath.{fit_path, unix_address, sockaddr_un_size, remove_socket_path}
use cpp_socket_library.Ipc.Channel.{StreamIpcSocket, from_descriptor}

pub record IpcServer : Type 0 where
  pub socket : ℤ
  pub socket_path : Bytes

abbrev pub get_socket : IpcServer → ℤ
get_socket s = s.socket

abbrev pub get_socket_path : IpcServer → Bytes
get_socket_path s = s.socket_path

unfoldable pub copy : IpcServer → IpcServer
copy socket = record { socket = socket.socket; socket_path = socket.socket_path }

-- `target = socket`
unfoldable pub assign_from : (target socket : IpcServer) → IpcServer
assign_from target socket = record target {
  socket = socket.socket;
  socket_path = socket.socket_path;
}

module _ {W : Type 0} (os : Os W) where
  -- Closes the descriptor and removes the file of the path.
  unfoldable pub close : IpcServer → M W IpcServer
  unfolding remove_socket_path
  close s = do
    Socket.close os s.socket
    remove_socket_path os s.socket_path
    pure (record s { socket = get_invalid_socket_value })

  -- `constructSocket` from the call of `bind` on.
  unfoldable pub bind_and_listen : IpcServer → (backlog : ℕ) → M W IpcServer
  unfolding close
  bind_and_listen s backlog = do
    bound ← call (os.bind s.socket (unix_address s.socket_path) sockaddr_un_size)
    if eq_ℤ bound minus_one then (do close s; raise binding_exception) else do
      listened ← call (os.listen s.socket (to_int backlog))
      if eq_ℤ listened minus_one then (do close s; raise socket_exception) else pure s

  -- The removal of an old file, if it is asked for; its result is not looked at.
  abbrev remove_old : Bool → Bytes → M W (Unit {0})
  remove_old false path = pure tt
  remove_old true path = do remove_socket_path os path; pure tt

  -- The constructor, with `constructSocket`.
  unfoldable pub create :
      (socket_path : Bytes) (override : Bool) (backlog : ℕ) → Option (Operation W) → M W IpcServer
  unfolding bind_and_listen remove_socket_path
  create socket_path override backlog pre_bind = do
    remove_old override (fit_path socket_path)
    descriptor ← call (os.socket (pos af_unix) sock_stream 0)
    if is_invalid_socket descriptor then raise socket_exception else do
      descriptor' ← run_operation pre_bind descriptor
      bind_and_listen (record { socket = descriptor'; socket_path = fit_path socket_path }) backlog

  -- The wait before `accept`, if there is a timeout.
  unfoldable pub await_connection : IpcServer → (timeout : ℤ) → M W (Unit {0})
  await_connection s timeout =
      if is_positive timeout
      then (do
        res ← Socket.poll_socket os s.socket timeout none
        if eq_ℤ res minus_one
            then raise socket_exception
            else if eq_ℤ res (pos 0)
            then raise timeout_exception
            else pure tt)
      else pure tt

  unfoldable pub accept : IpcServer → (timeout : ℤ) → M W StreamIpcSocket
  unfolding await_connection
  accept s timeout = do
    await_connection s timeout
    (temp, accepted_address) ← call (os.accept s.socket)
    if is_invalid_socket temp
        then raise socket_exception
        else pure (from_descriptor temp (until_nul accepted_address.sa_data))

  module _ (is_open : W → ℤ → Bool) (law : IsLedger os is_open) where
    -- Nothing is left open, and a handler for `SocketException` catches what is thrown.
    abbrev pub Failed : W → Exception → W → Type 0
    Failed w e w' = (is_socket_exception e ≡ true) × SameTable is_open w w'

    close-same :
        (fd : ℤ) (path : Bytes) (w w₁ : W)
        → Opens is_open fd w w₁
        → SameTable is_open w (os.remove path (os.close fd w₁).1).1
    close-same fd path w w₁ opens d =
        law.remove_keeps path (os.close fd w₁).1 d ∙ close-Opens is_open os law fd opens d

    -- A constructor that gets a descriptor and whose `bind` is refused, as it is where a server
    -- uses the path already, throws a `BindingException` and gives the table of descriptors back;
    -- and if the system answers the removal of the path with 0, there is no file at the path then.
    -- It is called without override and without an operation before binding. `remove` removes a
    -- file where it answers 0.
    pub create-removes :
        (exists_at : W → Bytes → Bool)
        → IsFiles os exists_at
        → (path : Bytes) (backlog : ℕ) (w : W)
        → let r = os.socket (pos af_unix) sock_stream 0 w in
          let b = os.bind r.0 (unix_address (fit_path path)) sockaddr_un_size r.1 in
          let name = until_nul (fit_path path) in
          is_invalid_socket r.0 ≡ false
          → b.0 ≡ minus_one
          → (w' : W) × (create path false backlog none w ≡ throw binding_exception w')
            × SameTable is_open w w'
            × ((os.remove name (os.close r.0 b.1).1).0 ≡ pos 0 → exists_at w' name ≡ false)
    unfolding create bind_and_listen close Socket.close remove_socket_path
    create-removes exists_at files path backlog w good used =
        let r = os.socket (pos af_unix) sock_stream 0 w in
        let a = unix_address (fit_path path) in
        let b = os.bind r.0 a sockaddr_un_size r.1 in
        let name = until_nul (fit_path path) in
        let opens = socket-Opens is_open os law (pos af_unix) sock_stream 0 w good in
        (
          (os.remove name (os.close r.0 b.1).1).1,
          rw (good, used) refl,
          close-same r.0 name w b.1
              (Opens-same is_open opens (law.bind_keeps r.0 a sockaddr_un_size r.1)),
          files.gone name (os.close r.0 b.1).1,
        )

    bind_and_listen-Ends :
        (s : IpcServer) (backlog : ℕ) (w w₁ : W)
        → Opens is_open s.socket w w₁
        → Ends
            (λ s' w'. (s' ≡ s) × Opens is_open s.socket w w')
            (Failed w)
            (bind_and_listen s backlog w₁)
    unfolding bind_and_listen close Socket.close remove_socket_path is_socket_exception
    bind_and_listen-Ends s backlog w w₁ opens =
        let a = unix_address s.socket_path in
        let name = until_nul s.socket_path in
        let b = os.bind s.socket a sockaddr_un_size w₁ in
        let l = os.listen s.socket (to_int backlog) b.1 in
        let bound = Opens-same is_open opens (law.bind_keeps s.socket a sockaddr_un_size w₁) in
        let listening = Opens-same is_open bound (law.listen_keeps s.socket (to_int backlog) b.1) in
        elim (Bool-cases (eq_ℤ b.0 minus_one)) [
          | inl used ↦ rw used (threw (refl, close-same s.socket name w b.1 bound))
          | inr free ↦ rw free (elim (Bool-cases (eq_ℤ l.0 minus_one)) [
            | inl deaf ↦ rw deaf (threw (refl, close-same s.socket name w l.1 listening))
            | inr good ↦ rw good (returned (refl, listening))
          ])
        ]

    remove_old-same :
        (override : Bool) (path : Bytes) (w : W)
        → Ends (λ _ w'. SameTable is_open w w') (Failed w) (remove_old override path w)
    unfolding remove_socket_path
    remove_old-same false path w = returned (λ d. refl)
    remove_old-same true path w = returned (law.remove_keeps (until_nul path) w)

    -- The operation before binding threw the exception, and the one descriptor that was opened is
    -- left open.
    abbrev pub Stranded : Option (Operation W) → W → Exception → W → Type 0
    Stranded pre_bind w e w' =
        (fd : ℤ) × Opens is_open fd w w' × ((w₁ : W) × (run_operation pre_bind fd w₁ ≡ throw e w'))

    -- The constructor of the server on a path ends, with any operation before binding that ends,
    -- opens and closes no descriptor, and keeps its descriptor where it returns: with a server for
    -- the path, cut to the size of an address, that holds the one descriptor that was opened; or
    -- with an exception that a handler for `SocketException` catches, and nothing left open; or
    -- with what the operation before binding threw, and the one descriptor that was opened left
    -- open.
    pub create_on_path-Ends :
        (path : Bytes) (override : Bool) (backlog : ℕ) (pre_bind : Option (Operation W)) (w : W)
        → IsGentle os is_open law pre_bind
        → Ends
            (λ s w'. (s.socket_path ≡ fit_path path) × Opens is_open s.socket w w')
            (λ e w'. Failed w e w' ⊎ Stranded pre_bind w e w')
            (create path override backlog pre_bind w)
    unfolding create is_socket_exception
    create_on_path-Ends path override backlog pre_bind w gentle =
        Ends.bind
          (Ends.mono (remove_old-same override (fit_path path) w) (λ x w₁ same. same)
            (λ e w₁ f. inl f))
          λ x w₁ same.
            let r = os.socket (pos af_unix) sock_stream 0 w₁ in
            elim (Bool-cases (is_invalid_socket r.0)) [
              | inl bad ↦
                  let shut = socket-same is_open os law (pos af_unix) sock_stream 0 w₁ bad in
                  rw bad (threw (inl (refl, λ d. shut d ∙ same d)))
              | inr good ↦
                  let opens =
                    same-Opens is_open same
                      (socket-Opens is_open os law (pos af_unix) sock_stream 0 w₁ good) in
                  rw good (
                    Ends.bind
                      (Ends.mono (Ends.remember (gentle r.0 r.1)) (λ d w₂ p. p.0)
                        (λ e w₂ (kept, thrown).
                          inr (r.0, Opens-same is_open opens kept, (r.1, thrown))))
                      λ d w₂ p.
                        Ends.mono
                          (bind_and_listen-Ends (record { socket = d; socket_path = fit_path path })
                            backlog w w₂ (rw p.0 (Opens-same is_open opens p.1)))
                          (λ s w₃ (e, o). (rw e refl, rw e o)) (λ e w₃ f. inl f))
            ]
