-- ===== src/ConnectionLess/Orderly.antt =====
-- Programs that bind a datagram socket only where it holds no descriptor: none is leaked.
use cpp_socket_library.Prelude.{
  ◌≡◌, ◌∙◌, ◌⊎◌, inl, inr, Bool, true, false, Option, List, [], ◌∷◌, ℤ, ℕ, Bytes, eq_ℤ→≡, arith,
}
use cpp_socket_library.Errors.{get_invalid_socket_value, is_invalid_socket}
use cpp_socket_library.System.{Run, on_world}
use cpp_socket_library.System.Table.{SameTable, Opens, Opens-same, same-Opens}
use cpp_socket_library.System.Returns
use cpp_socket_library.System.Returns.{Returns, returns}
use cpp_socket_library.System.Ends
use cpp_socket_library.System.Ends.{Ends, returned, threw}
use cpp_socket_library.TcpServer.{Operation}
use cpp_socket_library.ServerSocket.{Closes}
use cpp_socket_library.ConnectionLess.{
  ConnectionLessSocket, SendsGently, Call, bind_to, close_it, check, send, receive, Seen, catch,
  perform, perform_each,
}

module _ {W : Type 0} (is_open : W → ℤ → Bool) where
  -- Since the start `w` the one descriptor `fd` was opened; or it is invalid, and none was.
  abbrev pub Held : ℤ → W → W → Type 0
  Held fd w w' = ((is_invalid_socket fd ≡ true) × SameTable is_open w w') ⊎ Opens is_open fd w w'

  pub Held-same : {fd : ℤ} {w w₁ w' : W} → Held fd w w₁ → SameTable is_open w₁ w' → Held fd w w'
  Held-same (inl (none, same)) later = inl (none, λ d. later d ∙ same d)
  Held-same (inr opens) later = inr (Opens-same is_open opens later)

  pub same-Held : {fd : ℤ} {w w₁ w' : W} → SameTable is_open w w₁ → Held fd w₁ w' → Held fd w w'
  same-Held same (inl (none, later)) = inl (none, λ d. later d ∙ same d)
  same-Held same (inr opens) = inr (same-Opens is_open same opens)

  Held-free :
      {fd : ℤ} {w w' : W} → is_invalid_socket fd ≡ true → Held fd w w' → SameTable is_open w w'
  Held-free bad (inl (none, same)) = same
  Held-free bad (inr opens) = cc (bad, opens.valid)

  -- Closing gives the table back.
  pub Held-Closes :
      {fd : ℤ} {w w₁ w' : W}
      → is_open w get_invalid_socket_value ≡ false
      → Held fd w w₁
      → Closes is_open fd w₁ w'
      → SameTable is_open w w'
  Held-Closes {fd} {w} {w₁} nothing (inl (bad, same)) h d =
      ground (arith, h d, same d, eq_ℤ→≡ fd get_invalid_socket_value, eq_ℤ→≡ d fd)
  Held-Closes {fd} {w} nothing (inr opens) h d =
      ground (arith, h d, opens.opened d, opens.fresh, eq_ℤ→≡ d fd)

  module _ {O : Type 0} (safe : O → Type 0) (descriptor : O → ℤ) where
    -- The object is safe, and holds what was opened since the start.
    abbrev pub Holds : W → O × W → Type 0
    Holds w s = safe s.0 × Held (descriptor s.0) w s.1

    -- What the operations of a class do to the table of descriptors.
    pub record HoldsDescriptor {T : Type 0} (c : ConnectionLessSocket W O T) : Type 0 where
      pub bind_holds :
          (a : Option T) (f : Option (Operation W)) (u : O) (w : W)
          → SendsGently is_open f
          → safe u
          → is_invalid_socket (descriptor u) ≡ true
          → Ends (λ r s. Holds w s) (λ e s. Holds w s) (c.bind a f (u, w))
      pub close_closes :
          (u : O) (w : W)
          → safe u
          → Returns
              (λ x s.
                safe s.0
                × (is_invalid_socket (descriptor s.0) ≡ true)
                × Closes is_open (descriptor u) w s.1)
              (c.close (u, w))
      pub ready_same :
          (u : O) (t : ℕ) (w : W) → Returns (λ b w'. SameTable is_open w w') (c.ready u t w)
      pub send_same :
          (u : O) (a : T) (b : Bytes) (n g : ℤ) (w : W)
          → safe u
          → Returns (λ r w'. SameTable is_open w w') (c.send_to u a b n g w)
      pub receive_same :
          (u : O) (n g : ℤ) (w : W)
          → Ends
              (λ r w'. SameTable is_open w w')
              (λ e w'. SameTable is_open w w')
              (c.receive_from u n g w)

  -- A `bind` needs an object that is free, which holds no descriptor, and an operation before
  -- binding that ends, opens and closes no descriptor, and keeps its descriptor where it returns.
  abbrev pub Suits : {T : Type 0} → (free : Bool) → Call W T → Type 0
  Suits free (bind_to a f) = (free ≡ true) × SendsGently is_open f
  Suits free close_it = Unit {0}
  Suits free (check t) = Unit {0}
  Suits free (send a b n g) = Unit {0}
  Suits free (receive n g) = Unit {0}

  -- Only after `close` is the object sure to be free again.
  abbrev pub is_free_after : {T : Type 0} → Bool → Call W T → Bool
  is_free_after free (bind_to a f) = false
  is_free_after free close_it = true
  is_free_after free (check t) = free
  is_free_after free (send a b n g) = free
  is_free_after free (receive n g) = free

  abbrev pub IsOrderly : {T : Type 0} → (free : Bool) → List (Call W T) → Type 0
  IsOrderly free [] = Unit {0}
  IsOrderly free (q ∷ qs) = Suits free q × IsOrderly (is_free_after free q) qs

  module _ {O T : Type 0} (safe : O → Type 0) (descriptor : O → ℤ) (c : ConnectionLessSocket W O T)
      (holds : HoldsDescriptor safe descriptor c) (start : W)
      (nothing : is_open start get_invalid_socket_value ≡ false) where
    catch-Returns :
        {P : O × W → Type 0} {r : Run (O × W) (Seen T)}
        → Ends (λ a s. P s) (λ e s. P s) r
        → Returns (λ a s. P s) (catch c r)
    catch-Returns (returned p) = returns p
    catch-Returns (threw p) = returns p

    -- The object holds what was opened since the start, nothing where it is free.
    abbrev Keeps : Bool → O × W → Type 0
    Keeps free s =
        Holds safe descriptor start s × (free ≡ true → is_invalid_socket (descriptor s.0) ≡ true)

    free-same :
        {free : Bool} {u : O} {w w' : W}
        → Keeps free (u, w)
        → SameTable is_open w w'
        → Keeps free (u, w')
    free-same k same = ((k.0.0, Held-same k.0.1 same), k.1)

    -- A call that does not assign keeps all.
    lift-Keeps :
        {A : Type 0} {r : Run W A} {free : Bool} {u : O} {w : W}
        → Keeps free (u, w)
        → Ends (λ a w'. SameTable is_open w w') (λ e w'. SameTable is_open w w') r
        → Ends (λ a s. Keeps free s) (λ e s. Keeps free s) (on_world u r)
    lift-Keeps k (returned same) = returned (free-same k same)
    lift-Keeps k (threw same) = threw (free-same k same)

    perform-Keeps :
        (q : Call W T) (free : Bool) (u : O) (w : W)
        → Suits free q
        → Keeps free (u, w)
        → Ends
            (λ a s. Keeps (is_free_after free q) s)
            (λ e s. Keeps (is_free_after free q) s)
            (perform c q (u, w))
    unfolding perform
    perform-Keeps (bind_to a f) free u w (is_free, gentle) k =
        let same = Held-free (k.1 is_free) k.0.1 in
        Ends.bind
          (Ends.mono (holds.bind_holds a f u w gentle k.0.0 (k.1 is_free)) (λ r s h. h)
            (λ e s h. ((h.0, same-Held same h.1), λ x. cc)))
          λ r s h. returned ((h.0, same-Held same h.1), λ x. cc)
    perform-Keeps close_it free u w suits k =
        Ends.bind (Ends.of_Returns (holds.close_closes u w k.0.0))
          λ x s (good, bad, h). returned ((good, inl (bad, Held-Closes nothing k.0.1 h)), λ _. bad)
    perform-Keeps (check t) free u w suits k =
        Ends.bind (lift-Keeps k (Ends.of_Returns (holds.ready_same u t w))) λ b s h. returned h
    perform-Keeps (send a b n g) free u w suits k =
        Ends.bind (lift-Keeps k (Ends.of_Returns (holds.send_same u a b n g w k.0.0)))
          λ r s h. returned h
    perform-Keeps (receive n g) free u w suits k =
        Ends.bind (lift-Keeps k (holds.receive_same u n g w)) λ r s h. returned h

    pub perform_each-Holds :
        (calls : List (Call W T)) (free : Bool) (u : O) (w : W)
        → IsOrderly free calls
        → Keeps free (u, w)
        → Returns
            (λ seen s.
              Holds safe descriptor start s
              × Returns
                  (λ x s'.
                    (is_invalid_socket (descriptor s'.0) ≡ true) × SameTable is_open start s'.1)
                  (c.close s))
            (perform_each c calls (u, w))
    unfolding perform_each
    perform_each-Holds [] free u w orderly k = returns (
      k.0,
      Returns.mono (holds.close_closes u w k.0.0)
          λ x s (good, bad, h). (bad, Held-Closes nothing k.0.1 h),
    )
    perform_each-Holds (q ∷ qs) free u w orderly k =
        Returns.bind (catch-Returns (perform-Keeps q free u w orderly.0 k)) λ seen (u', w') k'.
          Returns.bind (perform_each-Holds qs (is_free_after free q) u' w' orderly.1 k')
            λ rest s h. returns h
