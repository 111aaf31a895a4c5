-- ===== src/ConnectionOriented/Closed.antt =====
-- Any calls on a connection that was closed.
use cpp_socket_library.Prelude.{
  ℕ, zero, suc, ◌≡◌, refl, ap, ◌∙◌, Bool, false, inl, inr, none, List, [], ◌∷◌, ◌++◌, ◌==◌,
  if◌then◌else◌, Bytes, write_at, replicate, length, to_int, to_size, ℤ, eq_ℤ→≡, minus_one, arith,
  Bool-cases,
}
use cpp_socket_library.Errors.{get_invalid_socket_value, is_socket_exception}
use cpp_socket_library.System.{Os, Run}
use cpp_socket_library.System.Laws.{RefusesInvalid}
use cpp_socket_library.System.Table.{SameTable}
use cpp_socket_library.System.Returns
use cpp_socket_library.System.Returns.{Returns, returns}
use cpp_socket_library.ServerSocket.{Closes, IsClosable, recover}
use cpp_socket_library.Socket.{poll_socket}
use cpp_socket_library.Stream.{
  ready, connected, send, send_string, get, receive_amount, receive_to_delimiter, receive_buffer,
  receive_loop, receive_all, all_loop, recv_length,
}
use cpp_socket_library.ConnectionOriented.{
  ConnectionOrientedSocket, Call, check_ready, check_connected, send_bytes, send_text, get_char,
  receive, receive_line, receive_into, receive_rest, close_it, Answer, truth, code, character, text,
  buffered, closed, caught, perform, perform_each,
}

-- The answers of a connection that is closed.
abbrev pub refusal : Call → Answer
refusal (check_ready t) = truth false
refusal (check_connected t) = truth false
refusal (send_bytes m n g) = code minus_one
refusal (send_text m g) = code minus_one
refusal (get_char g) = character none
refusal (receive n g) = text []
refusal (receive_line d g) = if d == 0 then caught else text []
refusal (receive_into b n g) = buffered b 0
refusal (receive_rest t g) = text []
refusal close_it = closed

abbrev pub refusals : List Call → List Answer
refusals [] = []
refusals (q ∷ qs) = refusal q ∷ refusals qs

write_at-nil : (b : Bytes) (i : ℕ) → write_at b i [] ≡ b
write_at-nil [] i = refl
write_at-nil (x ∷ b) zero = refl
write_at-nil (x ∷ b) (suc i) = ap (◌∷◌ x) (write_at-nil b i)

recover-returned :
    {W A : Type 0} {P : A → W → Type 0} (a : A) {r : Run W A}
    → Returns P r
    → Returns P (recover a r)
recover-returned a (returns p) = returns p

module _ {W : Type 0} (os : Os W) (is_open : W → ℤ → Bool) (law : RefusesInvalid os is_open) where
  -- The buffer keeps its bytes, and none is received.
  receive_buffer-refused :
      (b : Bytes) (n : ℕ) (g : ℤ) (w : W)
      → Returns
          (λ r w'. (r ≡ (b, 0)) × SameTable is_open w w')
          (receive_buffer os get_invalid_socket_value b n g w)
  unfolding receive_buffer receive_loop
  receive_buffer-refused b zero g w = returns (refl, λ d. refl)
  receive_buffer-refused b (suc n) g w =
      let asked = recv_length (suc n) 0 in
      let positive : (suc n == 0) ≡ false = ground arith in
      rw (positive, law.recv_refused asked g w, law.recv_empty asked g w, write_at-nil b 0)
        (returns (refl, law.recv_keeps asked g w))

  receive_amount-refused :
      (n : ℕ) (g : ℤ) (w : W)
      → Returns
          (λ s w'. (s ≡ []) × SameTable is_open w w')
          (receive_amount os get_invalid_socket_value n g w)
  unfolding receive_amount
  receive_amount-refused n g w =
      Returns.bind (receive_buffer-refused (replicate n 0) n g w)
        λ r w' p. rw p.0 (returns (refl, p.1))

  get-refused :
      (g : ℤ) (w : W)
      → Returns (λ r w'. (r ≡ none) × SameTable is_open w w') (get os get_invalid_socket_value g w)
  unfolding get
  get-refused g w = Returns.bind (receive_amount-refused 1 g w) λ s w' p. returns (rw p.0 refl, p.1)

  module _ {O : Type 0} (c : ConnectionOrientedSocket W O)
      (closes : IsClosable is_open c.get_socket c.base) (fuel : ℕ) where
    -- The object stays without a descriptor, and the table as it is.
    abbrev Refused : Answer → W → O × Answer → W → Type 0
    Refused a w r w' =
        (r.1 ≡ a) × (c.get_socket r.0 ≡ get_invalid_socket_value) × SameTable is_open w w'

    -- Closing the invalid descriptor closes nothing.
    Closes-nothing :
        {fd : ℤ} {w w' : W}
        → fd ≡ get_invalid_socket_value
        → Closes is_open fd w w'
        → SameTable is_open w w'
    Closes-nothing {fd} {w} shut h d =
        ground (arith, h d, shut, law.not_open w, eq_ℤ→≡ d get_invalid_socket_value)

    close-Closes :
        (o : O) (w : W)
        → Returns
            (λ r w'.
              (r.1 ≡ closed)
              × (c.get_socket r.0 ≡ get_invalid_socket_value)
              × Closes is_open (c.get_socket o) w w')
            (recover (o, caught) (perform os c (suc fuel) close_it o w))
    unfolding perform
    close-Closes o w =
        recover-returned (o, caught) (Returns.bind (closes o w) λ o' w' p. returns (refl, p.0, p.1))

    perform-Refused :
        (q : Call) (o : O) (w : W)
        → c.get_socket o ≡ get_invalid_socket_value
        → Returns (Refused (refusal q) w) (recover (o, caught) (perform os c (suc fuel) q o w))
    unfolding perform ready connected poll_socket send send_string receive_to_delimiter receive_all
        all_loop is_socket_exception
    perform-Refused (check_ready t) o w shut = rw shut (returns (refl, shut, λ d. refl))
    perform-Refused (check_connected t) o w shut = rw shut (returns (refl, shut, λ d. refl))
    perform-Refused (send_bytes m n g) o w shut = rw shut (
        returns
          (ap code (law.send_refused m (to_size n) g w), shut, law.send_keeps m (to_size n) g w))
    perform-Refused (send_text m g) o w shut =
        let n = to_size (to_int (length m)) in
        rw shut (
          returns (
            ap code (law.send_refused (m ++ 0 ∷ []) n g w),
            shut,
            law.send_keeps (m ++ 0 ∷ []) n g w,
          ))
    perform-Refused (get_char g) o w shut = rw shut (
        recover-returned (o, caught)
          (Returns.bind (get-refused g w) λ r w' p. returns (ap character p.0, shut, p.1)))
    perform-Refused (receive n g) o w shut = rw shut (
        recover-returned (o, caught)
          (Returns.bind (receive_amount-refused n g w) λ s w' p. returns (ap text p.0, shut, p.1)))
    perform-Refused (receive_line d g) o w shut = rw shut (elim (Bool-cases (d == 0)) [
      | inl nul ↦ rw nul (returns (refl, shut, λ e. refl))
      | inr fine ↦ rw fine (returns (refl, shut, λ e. refl))
    ])
    perform-Refused (receive_into b n g) o w shut = rw shut (
        recover-returned (o, caught)
          (Returns.bind (receive_buffer-refused b n g w)
            λ r w' p. returns (rw p.0 refl, shut, p.1)))
    perform-Refused (receive_rest t g) o w shut = rw shut (returns (refl, shut, λ d. refl))
    perform-Refused close_it o w shut =
        Returns.mono (close-Closes o w)
          λ r w' (told, shut', h). (told, shut', λ d. Closes-nothing shut h d)

    perform_each-Refused :
        (calls : List Call) (o : O) (w : W)
        → c.get_socket o ≡ get_invalid_socket_value
        → Returns
            (λ r w'.
              (c.get_socket r.0 ≡ get_invalid_socket_value)
              × (r.1 ≡ refusals calls)
              × SameTable is_open w w')
            (perform_each os c (suc fuel) calls o w)
    unfolding perform_each
    perform_each-Refused [] o w shut = returns (shut, refl, λ d. refl)
    perform_each-Refused (q ∷ qs) o w shut =
        Returns.bind (perform-Refused q o w shut) λ (o', a) w₁ (told, shut', same).
          Returns.bind (perform_each-Refused qs o' w₁ shut')
            λ (o'', rest) w₂ (shut'', answers, same').
              returns (shut'', cc (told, answers), λ d. same' d ∙ same d)

    -- Any calls on a connection after its `close`, by a caller that catches `SocketException`,
    -- return, with one round of the loops. The object has the invalid descriptor to the end.
    -- `ready` and `connected` say no, `send` answers -1, `get` finds no character, the methods that
    -- receive give an empty text or leave the buffer as it is, `receiveToDelimiter` refuses NUL,
    -- and another `close` does nothing. Of the table of descriptors, all calls together close the
    -- descriptor that the object had, and no other. The class closes as it promises, and the system
    -- refuses the invalid descriptor.
    pub perform_each-closed :
        (calls : List Call) (o : O) (w : W)
        → Returns
            (λ r w'.
              (c.get_socket r.0 ≡ get_invalid_socket_value)
              × (r.1 ≡ closed ∷ refusals calls)
              × Closes is_open (c.get_socket o) w w')
            (perform_each os c (suc fuel) (close_it ∷ calls) o w)
    unfolding perform_each perform
    perform_each-closed calls o w =
        Returns.bind (close-Closes o w) λ (o', a) w₁ (told, shut, closed_it).
          Returns.bind (perform_each-Refused calls o' w₁ shut)
            λ (o'', rest) w₂ (shut', answers, same).
              returns (shut', cc (told, answers), λ d. same d ∙ closed_it d)
