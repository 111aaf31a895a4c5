-- ===== src/ConnectionLess/History.antt =====
-- Any sequence of calls on one datagram socket, against a socket that only knows its place.
use cpp_socket_library.Prelude.{
  ℕ, ◌≡◌, refl, Bool, false, Bytes, minus_one, inl, inr, Option, none, some, List, [], ◌∷◌, All, ℤ,
}
use cpp_socket_library.System.{Run}
use cpp_socket_library.System.Returns
use cpp_socket_library.System.Returns.{Returns, returns}
use cpp_socket_library.System.Ends
use cpp_socket_library.System.Ends.{Ends, returned, threw}
use cpp_socket_library.TcpServer.{Operation}
use cpp_socket_library.ConnectionLess.{
  ConnectionLessSocket, IsConnectionLess, Tells, IsProper, Call, bind_to, close_it, check, send,
  receive, Seen, answered, caught, checked, received, Allowed, binds, refuses, fails_before,
  fails_after, closes, checks, checks_nothing, sends, receives, receives_nothing, too_long, Trace,
  start, step, catch, perform, perform_each,
}

module _ {W O T K : Type 0} (is_open : W → ℤ → Bool) (valid : O → Type 0) (place : O → Option K)
    (nowhere : T) (shown : T → K) (proper : T → Type 0) (c : ConnectionLessSocket W O T)
    (contract : IsConnectionLess is_open valid place nowhere shown proper c) where
  -- One call is allowed, and leaves a valid object.
  abbrev Follows : Call W T → Option K → Seen T → O × W → Type 0
  Follows q p r s = valid s.0 × Allowed nowhere shown q p r (place s.0)

  catch-Ends :
      (q : Call W T) (p : Option K) {r : Run (O × W) (Seen T)}
      → Ends (Follows q p) (λ e s. Follows q p (caught e) s) r
      → Returns (Follows q p) (catch c r)
  catch-Ends q p (returned h) = returns h
  catch-Ends q p (threw h) = returns h

  bind-Allowed :
      (a : T) (f : Option (Operation W)) (p : Option K) (r : ℤ × T) (o : O)
      → Tells nowhere shown r (place o)
      → Allowed nowhere shown (bind_to (some a) f) p (answered r) (place o)
  bind-Allowed a f p (code, address) o (inl (e, n, free)) = rw (e, n, free) refuses
  bind-Allowed a f p (code, address) o (inr (good, e)) = rw e (binds code address good)

  ready-Allowed :
      (t : ℕ) (b : Bool) (p : Option K)
      → (p ≡ none → b ≡ false)
      → let q : Call W T = check t in Allowed nowhere shown q p (checked b) p
  ready-Allowed t b none h = rw (h refl) checks_nothing
  ready-Allowed t b (some k) h = checks b

  receive-Allowed :
      (n g : ℤ) (r : Option Bytes × (ℤ × T)) (p : Option K)
      → (p ≡ none → r.1 ≡ (minus_one, nowhere))
      → let q : Call W T = receive n g in Allowed nowhere shown q p (received r.0 r.1) p
  receive-Allowed n g r none h = rw (h refl) (receives_nothing r.0)
  receive-Allowed n g r (some k) h = receives r.0 r.1

  perform-Follows :
      (q : Call W T) (u : O) (w : W)
      → IsProper proper q
      → valid u
      → Ends (Follows q (place u)) (λ e s. Follows q (place u) (caught e) s) (perform c q (u, w))
  unfolding perform
  perform-Follows (bind_to none f) u w ok_call v =
      Ends.bind
        (Ends.mono (contract.bind_nowhere f u w) (λ r s x. x)
          (λ e s same. (rw same v, rw same (fails_before e))))
        λ r s x. absurd x
  perform-Follows (bind_to (some a) f) u w (ok_address, ends) v =
      Ends.bind
        (Ends.mono (contract.bind_tells a f u w ok_address ends v) (λ r s t. t)
          λ e s t. (
            t.0,
            elim t.1 [ inl same ↦ rw same (fails_before e) | inr free ↦ rw free (fails_after e) ],
          ))
        λ r (u', w') t. returned (t.0, bind-Allowed a f (place u) r u' t.1)
  perform-Follows close_it u w ok_call v =
      Ends.bind (Ends.of_Returns (contract.close_frees u w v))
        λ r (u', w') t. returned (t.0, rw t.1 closes)
  perform-Follows (check t) u w ok_call v =
      Ends.bind
        (Ends.mono
          (Ends.lift-Ends u (Ends.of_Returns {E = λ e w'. ⊥} (contract.ready_bound u t w v)))
          (λ b s h. h) (λ e s h. absurd h.1))
        λ b (u', w') (same, h). returned (rw same v, rw same (ready-Allowed t b (place u) h))
  perform-Follows (send a b n g) u w ok_call v =
      Ends.bind
        (Ends.mono
          (Ends.lift-Ends u (Ends.of_Returns {E = λ e w'. ⊥} (contract.send_same u a b n g w v)))
          (λ r s h. h) (λ e s h. absurd h.1))
        λ r (u', w') (same, h). returned (rw same v, rw same (sends r))
  perform-Follows (receive n g) u w ok_call v =
      Ends.bind
        (Ends.mono (Ends.lift-Ends u (contract.receive_bound u n g w v)) (λ r s h. h)
          (λ e s h. (rw h.0 v, rw (h.0, h.1.0) (too_long h.1.1))))
        λ r (u', w') (same, h). returned (rw same v, rw same (receive-Allowed n g r (place u) h))

  -- Any calls of `bind`, `close`, `ready`, `sendTo` and `receiveFrom` on one valid object that
  -- keeps the promise of the interface, by a caller that catches what they throw, end and leave a
  -- valid object; and what the caller sees is a trace of a socket that knows nothing but the place
  -- that it is bound to. So the object is bound by `bind` alone, and to the place in its answer; a
  -- `bind` that throws leaves the place or none; an unbound object is never ready and receives only
  -- the code -1; only a negative length makes `receiveFrom` throw, and neither it nor `ready` nor
  -- `sendTo` changes the place. The addresses to bind to are proper, and the operations before
  -- binding end.
  pub perform_each-Trace :
      (calls : List (Call W T)) (u : O) (w : W)
      → All (IsProper proper) calls
      → valid u
      → Returns
          (λ seen s. valid s.0 × Trace nowhere shown calls (place u) seen (place s.0))
          (perform_each c calls (u, w))
  unfolding perform_each
  perform_each-Trace [] u w ok_calls v = returns (v, start)
  perform_each-Trace (q ∷ qs) u w ok_calls v =
      Returns.bind (catch-Ends q (place u) (perform-Follows q u w ok_calls.0 v)) λ seen (u', w') f.
        Returns.bind (perform_each-Trace qs u' w' ok_calls.1 f.0)
          λ rest s h. returns (h.0, step f.1 h.1)
