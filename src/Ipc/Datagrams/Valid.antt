-- ===== src/Ipc/Datagrams/Valid.antt =====
-- What holds of a datagram socket on a path between calls, and what `bind` and `receiveFrom` do.
use cpp_socket_library.Prelude.{
  ℕ, ◌%◌, ◌^◌, ◌<◌, ◌≤◌, ◌≡◌, refl, sym, ◌∙◌, ◌⊎◌, ap, inl, inr, Bool, true, false, not, Option,
  none, some, [], ◌==◌, length, replicate, Bytes, write_at, ℤ, pos, minus_one, eq_ℤ, Bool-cases,
  arith,
}
use cpp_socket_library.Errors.{Exception, get_invalid_socket_value, is_invalid_socket}
use cpp_socket_library.Protocol.{af_unix}
use cpp_socket_library.System.{Os, Run, ok, lift, this, assign, ◌>>=◌, ◌>>◌}
use cpp_socket_library.System.Laws.{IsDatagramReceiver}
use cpp_socket_library.System.Ends
use cpp_socket_library.System.Ends.{Ends, returned, threw}
use cpp_socket_library.Address.{sock_dgram}
use cpp_socket_library.Socket
use cpp_socket_library.ConnectionLess.{EndsAlways, is_some, none_of_not_some}
use cpp_socket_library.TcpServer.{Operation, run_operation}
use cpp_socket_library.Datagram.{cut_to, non_empty, cut_to-write_at}
use cpp_socket_library.Ipc.SocketPath.{fit_path, unix_address, sockaddr_un_size, remove_socket_path}
use cpp_socket_library.Ipc.Datagrams.{
  DatagramIpcSocket, Answer, close, remove_bound, remove_old, bind_receive_socket, bind_override,
  receive_buffer_from, receive_from,
}

pub some_of_is_some : (o : Option Bytes) → is_some o ≡ true → (p : Bytes) × (o ≡ some p)
some_of_is_some none h = cc
some_of_is_some (some p) h = (p, refl)

module _ {W : Type 0} (os : Os W) where
  -- A socket has a path exactly when it is bound.
  abbrev pub IsValid : DatagramIpcSocket W → Type 0
  IsValid u = u.bound ≡ is_some u.socket_path

  -- The answer of `bind` for a path, and the socket after it.
  pub record Answered (operation : Option (Operation W)) (path : Bytes) (r : Answer)
      (s : DatagramIpcSocket W × W) : Type 0 where
    pub valid : IsValid s.0
    pub kept : s.0.pre_send_socket_operation ≡ operation
    pub code : s.0.bound ≡ not (eq_ℤ r.0 minus_one)
    pub unbound : s.0.bound ≡ false → r.1 ≡ []
    pub named : s.0.bound ≡ true → (r.1 ≡ fit_path path) × (s.0.socket_path ≡ some (fit_path path))

  bind_receive_socket-Answered :
      (path : Bytes) (u : DatagramIpcSocket W) (w : W)
      → u.socket_path ≡ none
      → Ends
          (Answered u.pre_send_socket_operation path)
          (λ e s. ⊥)
          (bind_receive_socket os (fit_path path) (u, w))
  unfolding bind_receive_socket
  bind_receive_socket-Answered path u w free =
      let r = os.bind u.receive_socket (unix_address (fit_path path)) sockaddr_un_size w in
      elim (Bool-cases (eq_ℤ r.0 minus_one)) [
        | inl bad ↦ rw bad (
            returned (record {
              valid = rw free;
              kept = refl;
              code = rw bad refl;
              unbound = λ _. refl;
              named = λ b. cc;
            }))
        | inr good ↦ rw good (
            returned (record {
              valid = refl;
              kept = refl;
              code = rw good refl;
              unbound = λ b. cc;
              named = λ _. (refl, refl);
            }))
      ]

  -- An exception has left a valid socket with no path.
  abbrev Silent : Option (Operation W) → Exception → DatagramIpcSocket W × W → Type 0
  Silent operation e s =
      IsValid s.0 × (s.0.socket_path ≡ none) × (s.0.pre_send_socket_operation ≡ operation)

  -- An exception has left a valid socket with its path, or with none.
  abbrev pub Thrown : DatagramIpcSocket W → Exception → DatagramIpcSocket W × W → Type 0
  Thrown u e s =
      IsValid s.0
      × ((s.0.socket_path ≡ u.socket_path) ⊎ (s.0.socket_path ≡ none))
      × (s.0.pre_send_socket_operation ≡ u.pre_send_socket_operation)

  operation-Answered :
      (path : Bytes) (pre_bind : Option (Operation W))
      → EndsAlways pre_bind
      → (u : DatagramIpcSocket W) (w : W) → u.bound ≡ false
      → u.socket_path ≡ none
      → Ends (Answered u.pre_send_socket_operation path) (Silent u.pre_send_socket_operation) (
          ((lift (run_operation pre_bind u.receive_socket)) >>= λ descriptor. this >>= λ u₃.
          assign (record u₃ { receive_socket = descriptor })
          >> bind_receive_socket os (fit_path path))
            (u, w))
  operation-Answered path pre_bind ends u w unbound free =
      Ends.bind
        (Ends.mono (Ends.lift-Ends u (ends u.receive_socket w)) (λ d s p. p)
          (λ e s p. (rw (p.0, unbound, free), rw (p.0, free), rw p.0 refl)))
        λ d (u', w') (e, _). rw e (
          Ends.mono (bind_receive_socket-Answered path (record u { receive_socket = d }) w' free)
            (λ r s a. a) (λ x s h. absurd h))

  remove_old-Ends :
      (override : Bool) (path : Bytes) (w : W)
      → Ends (λ _ _. Unit {0}) (λ e _. ⊥) (remove_old os override path w)
  unfolding remove_socket_path
  remove_old-Ends false path w = returned tt
  remove_old-Ends true path w = returned tt

  remove_bound-Ends :
      (path : Option Bytes) (w : W)
      → Ends (λ _ _. Unit {0}) (λ e _. ⊥) (remove_bound os true path w)
  unfolding remove_socket_path
  remove_bound-Ends none w = returned tt
  remove_bound-Ends (some path) w = returned tt

  -- `bind` of a valid datagram socket to a path ends and leaves a valid socket, whether it returns
  -- or throws, if the operation before binding ends. If it throws, the socket has the path that it
  -- had, or none. It keeps its operation before sending. If it returns, the socket is bound exactly
  -- when the code is not -1; then the answer and the socket have the path, cut to the size of an
  -- address, and otherwise the path in the answer is empty.
  pub bind_override-Answered :
      (override : Bool) (path : Bytes) (pre_bind : Option (Operation W))
      → EndsAlways pre_bind
      → (u : DatagramIpcSocket W) (w : W) → IsValid u
      → Ends
          (Answered u.pre_send_socket_operation path)
          (Thrown u)
          (bind_override os override (some path) pre_bind (u, w))
  unfolding bind_override close Socket.close
  bind_override-Answered override path pre_bind ends u w v =
      Ends.bind
        (Ends.mono (Ends.lift-Ends u (remove_old-Ends override (fit_path path) w)) (λ x s p. p)
          (λ e s p. absurd p.1))
        λ x (u', w₁) (e, _).
          let r = os.socket (pos af_unix) sock_dgram 0 w₁ in
          rw e (elim (Bool-cases (is_invalid_socket r.0)) [
            | inl bad ↦ rw bad (threw (v, inl refl, refl))
            | inr good ↦ rw good (elim (Bool-cases u.bound) [
              | inl old ↦ rw old (
                  let c : DatagramIpcSocket W = record u {
                    bound = false;
                    socket_path = none;
                    receive_socket = get_invalid_socket_value;
                  } in
                  Ends.bind
                    (Ends.bind {Q = λ _ s. s.0 ≡ c}
                      (Ends.mono
                        (Ends.lift-Ends
                          (record u { bound = true; receive_socket = get_invalid_socket_value })
                          (remove_bound-Ends u.socket_path (os.close r.0 r.1).1))
                        (λ y s p. p) (λ e s p. absurd p.1))
                      λ y s p. returned refl)
                    λ y (u₂, w₃) e₂.
                      rw e₂ (silent (operation-Answered path pre_bind ends c w₃ refl refl)))
              | inr new ↦ rw new (
                  silent (
                    operation-Answered path pre_bind ends
                      (record u { receive_socket = r.0; bound = false }) r.1 refl
                      (none_of_not_some u.socket_path (sym v ∙ new))))
            ])
          ])
    where
      silent :
          {r : Run (DatagramIpcSocket W × W) Answer}
          → Ends (Answered u.pre_send_socket_operation path) (Silent u.pre_send_socket_operation) r
          → Ends (Answered u.pre_send_socket_operation path) (Thrown u) r
      silent h = Ends.mono h (λ r s a. a) (λ e s p. (p.0, inr p.1, p.2))

  pub receive_from-cut :
      (u : DatagramIpcSocket W) (path : Bytes) (n k : ℕ) (flags : ℤ) (w : W)
      → u.bound ≡ true
      → u.socket_path ≡ some path
      → 0 < n
      → n < 2 ^ 64
      → let r = os.recvfrom u.receive_socket n flags w in
        r.0.0 ≡ pos k
        → length r.0.1 ≡ k
        → k ≤ n
        → receive_from os u (pos n) flags w ≡ ok (non_empty r.0.1, (pos k, path)) r.1
  unfolding receive_from receive_buffer_from
  receive_from-cut u path n k flags w bound held positive small code counted within =
      let asked : (n == 0) ≡ false = ground arith in
      let size : n % 2 ^ 64 ≡ n = omega arith in
      let r = os.recvfrom u.receive_socket n flags w in
      let cut : cut_to (pos k) (pos n) (write_at (replicate n 0) 0 r.0.1) ≡ r.0.1 =
        rw (sym counted) (cut_to-write_at n r.0.1 (omega arith)) in
      rw (bound, asked, size, held, code)
        (ap (λ (t : Bytes). ok (non_empty t, (pos k, path)) r.1) cut)

  -- A bound valid socket on a path returns just the bytes of the datagram that the system wrote,
  -- with its code and the path that the socket itself is bound to, and does not throw. The length
  -- asked for is positive, and the call succeeds.
  pub receive_from-own_path :
      (u : DatagramIpcSocket W) (n k : ℕ) (flags : ℤ) (w : W)
      → IsDatagramReceiver os u.receive_socket flags
      → IsValid u
      → u.bound ≡ true
      → 0 < n
      → n < 2 ^ 64
      → let r = os.recvfrom u.receive_socket n flags w in
        r.0.0 ≡ pos k
        → (path : Bytes) × (u.socket_path ≡ some path)
          × (receive_from os u (pos n) flags w ≡ ok (non_empty r.0.1, (pos k, path)) r.1)
  receive_from-own_path u n k flags w law v bound positive small code =
      let (path, e) = some_of_is_some u.socket_path (sym v ∙ bound) in
      (
        path,
        e,
        receive_from-cut u path n k flags w bound e positive small code (law.counted n k w code)
            (law.within n k w code),
      )
