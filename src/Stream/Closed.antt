-- ===== src/Stream/Closed.antt =====
-- Reading after the peer has closed the connection.
use cpp_socket_library.Prelude.{
  ℕ, zero, suc, ◌≡◌, ◌≢◌, ◌==◌, refl, ap, true, false, none, [], Bytes, arith, ℤ, pos, is_positive,
  to_long,
}
use mathlib.Core.List.{append-nil}
use cpp_socket_library.System.{Os, out_of_fuel}
use cpp_socket_library.System.Laws.{IsClosed}
use cpp_socket_library.System.Returns
use cpp_socket_library.System.Returns.{Returns, returns}
use cpp_socket_library.Socket.{poll_socket, poll_time}
use cpp_socket_library.Stream.{
  default_timeout, ready, connected, get, receive_loop, receive_buffer, receive_amount,
  delimiter_loop, receive_to_delimiter, all_loop, receive_all,
}

module _ {W : Type 0} (os : Os W) (closed : W → Type 0) (descriptor flags : ℤ)
    (law : IsClosed os closed descriptor flags) where
  poll_socket-closed :
      (t : ℤ) (w : W)
      → closed w
      → Returns (λ polled w'. (polled ≡ pos 1) × closed w') (poll_socket os descriptor t none w)
  unfolding poll_socket
  poll_socket-closed t w h =
      rw law.valid
        (returns (law.select_ready (poll_time t none) w h, law.select_stays (poll_time t none) w h))

  ready-closed :
      (t : ℕ) (w : W)
      → closed w
      → Returns (λ more w'. (more ≡ true) × closed w') (ready os descriptor t w)
  unfolding ready
  ready-closed t w h =
      Returns.bind (poll_socket-closed (to_long t) w h)
        λ polled w' p. returns (ap is_positive p.0, p.1)

  receive_amount-closed :
      (w : W)
      → closed w
      → Returns (λ text w'. (text ≡ []) × closed w') (receive_amount os descriptor 1 flags w)
  unfolding receive_amount receive_buffer receive_loop
  receive_amount-closed w h = rw (law.recv_nothing _ w h) (returns (refl, law.recv_stays _ w h))

  all_loop-closed :
      (fuel : ℕ) (result : Bytes) (timeout : ℕ) (w : W)
      → closed w
      → all_loop os descriptor fuel result false timeout flags w ≡ out_of_fuel
  unfolding all_loop
  all_loop-closed zero result timeout w h = refl
  all_loop-closed (suc fuel) result timeout w h =
      Returns.bind-eq (ready-closed timeout w h) λ more w₁ p. rw p.0 (
        Returns.bind-eq (poll_socket-closed (to_long timeout) w₁ p.1) λ polled w₂ q. rw q.0 (
          Returns.bind-eq (receive_amount-closed w₂ q.1)
            λ text w₃ t. rw (t.0, append-nil result) (all_loop-closed fuel result timeout w₃ t.1)))

  -- Once the peer has closed the connection and its bytes are received, `receiveAll` never ends:
  -- it needs more rounds than it is given, however many these are.
  pub receive_all-closed :
      (fuel timeout : ℕ) (w : W)
      → closed w
      → receive_all os descriptor fuel timeout flags w ≡ out_of_fuel
  unfolding receive_all
  receive_all-closed fuel timeout w = all_loop-closed fuel [] timeout w

  get-closed :
      (w : W) → closed w → Returns (λ c w'. (c ≡ none) × closed w') (get os descriptor flags w)
  unfolding get
  get-closed w h =
      Returns.bind (receive_amount-closed w h) λ text w' t. rw t.0 (returns (refl, t.1))

  -- Once the peer has closed the connection and its bytes are received, `receiveToDelimiter` ends
  -- in its first round and returns nothing, for every delimiter but NUL, while `connected` still
  -- answers true.
  pub receive_to_delimiter-closed :
      (fuel delimiter : ℕ) (w : W)
      → closed w
      → delimiter ≢ 0
      → Returns
          (λ text w'. (text ≡ []) × closed w')
          (receive_to_delimiter os descriptor (suc fuel) delimiter flags w)
        × ((t : ℕ) → Returns (λ up w'. (up ≡ true) × closed w') (connected os descriptor t w))
  unfolding receive_to_delimiter delimiter_loop connected
  receive_to_delimiter-closed fuel delimiter w h ne =
      let given : (delimiter == 0) ≡ false = ground arith in
      (
        rw given (
            Returns.bind (ready-closed default_timeout w h) λ more w₁ p.
              rw p.0 (Returns.bind (get-closed w₁ p.1) λ c w₂ q. rw q.0 (returns (refl, q.1)))),
        λ t.
            Returns.bind (poll_socket-closed (to_long t) w h)
              λ polled w₁ p. rw p.0 (returns (refl, p.1)),
      )
