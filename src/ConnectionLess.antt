-- ===== src/ConnectionLess.antt =====
-- src/socket/ConnectionLessSocket.h: the interface that the datagram sockets implement, what it
-- promises, and what a caller can see of a socket that keeps the promise.
pub mod History
pub mod Exchange
pub mod Sending
pub mod Orderly
use cpp_socket_library.Prelude.{
  ℕ, ◌≡◌, ◌≢◌, ◌⊎◌, refl, sym, ap, ◌∙◌, inl, inr, Bool, true, false, not, eq_ℤ, eq_ℤ→≡, Bool-cases,
  Option, none, some, List, [], ◌∷◌, Bytes, ℤ, minus_one, is_nonneg,
}
use cpp_socket_library.Errors.{Exception, length_error}
use cpp_socket_library.System.{Run, M, ok, throw, out_of_fuel, pure, this, lift, ◌>>=◌, ◌>>◌}
use cpp_socket_library.System.Returns.{Returns}
use cpp_socket_library.System.Ends.{Ends}
use cpp_socket_library.System.Table.{SameTable}
use cpp_socket_library.TcpServer.{Operation, run_operation}

-- The abstract class, for objects `O` with addresses `T`: a method that is not `const` and assigns
-- runs over the object and the outside.
pub record ConnectionLessSocket (W O T : Type 0) : Type 0 where
  pub bind : Option T → Option (Operation W) → M (O × W) (ℤ × T)
  pub is_bound : O → Bool
  pub ready : O → (timeout : ℕ) → M W Bool
  pub send_string_to : O → T → (message : Bytes) (flags : ℤ) → M W ℤ
  pub send_to : O → T → (buffer : Bytes) (buffer_length flags : ℤ) → M W ℤ
  pub receive_from : O → (receive_length flags : ℤ) → M W (Option Bytes × (ℤ × T))
  pub receive_buffer_from : O → (buffer : Bytes) (receive_length flags : ℤ) → M W (Bytes × (ℤ × T))
  pub close : M (O × W) (Unit {0})

-- The operation before binding ends: it returns or throws.
abbrev pub EndsAlways : {W : Type 0} → Option (Operation W) → Type 0
EndsAlways {W} f = (d : ℤ) (w : W) → Ends (λ _ _. Unit {0}) (λ _ _. Unit {0}) (run_operation f d w)

-- The operation before sending returns, keeps the descriptor, and opens and closes none.
abbrev pub SendsSafely : {W : Type 0} → (W → ℤ → Bool) → Option (Operation W) → Type 0
SendsSafely {W} is_open f =
    (d : ℤ) (w : W) → Returns (λ d' w'. (d' ≡ d) × SameTable is_open w w') (run_operation f d w)

-- The operation before sending ends, opens and closes no descriptor, and keeps its descriptor where
-- it returns.
abbrev pub SendsGently : {W : Type 0} → (W → ℤ → Bool) → Option (Operation W) → Type 0
SendsGently {W} is_open f =
    (d : ℤ) (w : W)
    → Ends (λ d' w'. (d' ≡ d) × SameTable is_open w w') (λ e w'. SameTable is_open w w')
        (run_operation f d w)

-- The operation before sending returns, keeps the descriptor usable, and leaves a queue of messages
-- as it is.
abbrev pub SendsQuietly :
    {W : Type 0} → (W → List Bytes) → (W → ℤ → Type 0) → Option (Operation W) → Type 0
SendsQuietly {W} queue usable f =
    (d : ℤ) (w : W)
    → usable w d
    → Returns (λ d' w'. (d' ≡ d) × (queue w' ≡ queue w) × usable w' d) (run_operation f d w)

abbrev pub is_some : {K : Type 0} → Option K → Bool
is_some none = false
is_some (some p) = true

pub none_of_not_some : {K : Type 0} (o : Option K) → is_some o ≡ false → o ≡ none
none_of_not_some none h = refl
none_of_not_some (some p) h = cc

-- What `bind` answers tells whether the object is bound, and where.
abbrev pub Tells : {T K : Type 0} (nowhere : T) (shown : T → K) → ℤ × T → Option K → Type 0
Tells nowhere shown r p =
    ((r.0 ≡ minus_one) × (r.1 ≡ nowhere) × (p ≡ none))
    ⊎ ((r.0 ≢ minus_one) × (p ≡ some (shown r.1)))

-- The answer of a `bind` that sets the object to bound exactly when the code is not -1.
pub Tells-of_code :
    {T K : Type 0} (nowhere : T) (shown : T → K) (bound : Bool) (r : ℤ × T) (p : Option K)
    → bound ≡ is_some p
    → bound ≡ not (eq_ℤ r.0 minus_one)
    → (bound ≡ false → r.1 ≡ nowhere)
    → (bound ≡ true → p ≡ some (shown r.1))
    → Tells nowhere shown r p
Tells-of_code nowhere shown bound r p v code unbound held = elim (Bool-cases (eq_ℤ r.0 minus_one)) [
  | inl refused ↦
      let b : bound ≡ false = code ∙ ap not refused in
      inl (eq_ℤ→≡ r.0 minus_one refused, unbound b, none_of_not_some p (sym v ∙ b))
  | inr good ↦ inr (λ e. cc (good, ap (λ d. eq_ℤ d minus_one) e), held (code ∙ ap not good))
]

-- An object is bound to a place, `place`, or to none; the answer of `bind` shows it, `shown`, and
-- is `nowhere` when the object is not bound.
module _ {W O T K : Type 0} (is_open : W → ℤ → Bool) (valid : O → Type 0) (place : O → Option K)
    (nowhere : T) (shown : T → K) where
  -- What an implementation promises for addresses that are `proper`.
  pub record IsConnectionLess (proper : T → Type 0) (c : ConnectionLessSocket W O T) : Type 0 where
    pub bound_somewhere : (u : O) → valid u → c.is_bound u ≡ is_some (place u)
    pub bind_tells :
        (address : T) (f : Option (Operation W)) (u : O) (w : W)
        → proper address
        → EndsAlways f
        → valid u
        → Ends
            (λ r s. valid s.0 × Tells nowhere shown r (place s.0))
            (λ e s. valid s.0 × ((place s.0 ≡ place u) ⊎ (place s.0 ≡ none)))
            (c.bind (some address) f (u, w))
    pub bind_nowhere :
        (f : Option (Operation W)) (u : O) (w : W)
        → Ends (λ r s. ⊥) (λ e s. s.0 ≡ u) (c.bind none f (u, w))
    pub close_frees :
        (u : O) (w : W) → valid u → Returns (λ _ s. valid s.0 × (place s.0 ≡ none)) (c.close (u, w))
    pub ready_bound :
        (u : O) (t : ℕ) (w : W)
        → valid u
        → Returns (λ b w'. place u ≡ none → b ≡ false) (c.ready u t w)
    pub send_same :
        (u : O) (address : T) (buffer : Bytes) (n g : ℤ) (w : W)
        → valid u
        → Returns (λ r w'. SameTable is_open w w') (c.send_to u address buffer n g w)
    pub receive_bound :
        (u : O) (n g : ℤ) (w : W)
        → valid u
        → Ends
            (λ r w'. place u ≡ none → r.1 ≡ (minus_one, nowhere))
            (λ e w'. (e ≡ length_error) × (is_nonneg n ≡ false))
            (c.receive_from u n g w)

pub data Call (W T : Type 0) : Type 0 where
  bind_to : Option T → Option (Operation W) → Call W T
  close_it : Call W T
  check : ℕ → Call W T
  send : T → (buffer : Bytes) (buffer_length flags : ℤ) → Call W T
  receive : (receive_length flags : ℤ) → Call W T

-- Addresses to bind to are proper, and the operation before binding ends.
abbrev pub IsProper : {W T : Type 0} → (T → Type 0) → Call W T → Type 0
IsProper proper (bind_to none f) = Unit {0}
IsProper proper (bind_to (some a) f) = proper a × EndsAlways f
IsProper proper close_it = Unit {0}
IsProper proper (check t) = Unit {0}
IsProper proper (send a b n g) = Unit {0}
IsProper proper (receive n g) = Unit {0}

-- What a caller sees, exceptions included.
pub data Seen (T : Type 0) : Type 0 where
  answered : ℤ × T → Seen T
  finished : Seen T
  checked : Bool → Seen T
  sent : ℤ → Seen T
  received : Option Bytes → ℤ × T → Seen T
  caught : Exception → Seen T

-- A socket that knows nothing but the place that it is bound to, if any: what it lets a caller see,
-- and the place afterwards.
module _ {W T K : Type 0} (nowhere : T) (shown : T → K) where
  pub data Allowed : Call W T → Option K → Seen T → Option K → Type 0 where
    binds :
        {a : Option T} {f : Option (Operation W)} {p : Option K} (code : ℤ) (address : T)
        → code ≢ minus_one
        → Allowed (bind_to a f) p (answered (code, address)) (some (shown address))
    refuses :
        {a : Option T} {f : Option (Operation W)} {p : Option K}
        → Allowed (bind_to a f) p (answered (minus_one, nowhere)) none
    fails_before :
        {a : Option T} {f : Option (Operation W)} {p : Option K} (e : Exception)
        → Allowed (bind_to a f) p (caught e) p
    fails_after :
        {a : T} {f : Option (Operation W)} {p : Option K} (e : Exception)
        → Allowed (bind_to (some a) f) p (caught e) none
    closes : {p : Option K} → Allowed close_it p finished none
    checks : {t : ℕ} {k : K} (b : Bool) → Allowed (check t) (some k) (checked b) (some k)
    checks_nothing : {t : ℕ} → Allowed (check t) none (checked false) none
    sends :
        {a : T} {b : Bytes} {n g : ℤ} {p : Option K} (code : ℤ)
        → Allowed (send a b n g) p (sent code) p
    receives :
        {n g : ℤ} {k : K} (text : Option Bytes) (r : ℤ × T)
        → Allowed (receive n g) (some k) (received text r) (some k)
    receives_nothing :
        {n g : ℤ} (text : Option Bytes)
        → Allowed (receive n g) none (received text (minus_one, nowhere)) none
    too_long :
        {n g : ℤ} {p : Option K}
        → is_nonneg n ≡ false
        → Allowed (receive n g) p (caught length_error) p

  -- A sequence of calls that such a socket allows, with what is seen and the last place.
  pub data Trace : List (Call W T) → Option K → List (Seen T) → Option K → Type 0 where
    start : {p : Option K} → Trace [] p [] p
    step :
        {c : Call W T} {cs : List (Call W T)} {p q r : Option K} {s : Seen T} {ss : List (Seen T)}
        → Allowed c p s q
        → Trace cs q ss r
        → Trace (c ∷ cs) p (s ∷ ss) r

module _ {W O T : Type 0} (c : ConnectionLessSocket W O T) where
  -- A caller that catches what is thrown.
  abbrev pub catch : Run (O × W) (Seen T) → Run (O × W) (Seen T)
  catch (ok r s) = ok r s
  catch (throw e s) = ok (caught e) s
  catch out_of_fuel = out_of_fuel

  unfoldable pub perform : Call W T → M (O × W) (Seen T)
  perform (bind_to address pre_bind) = do r ← c.bind address pre_bind; pure (answered r)
  perform close_it = do c.close; pure finished
  perform (check timeout) = do u ← this; b ← lift (c.ready u timeout); pure (checked b)
  perform (send address buffer buffer_length flags) = do
    u ← this
    code ← lift (c.send_to u address buffer buffer_length flags)
    pure (sent code)
  perform (receive receive_length flags) = do
    u ← this
    (text, answer) ← lift (c.receive_from u receive_length flags)
    pure (received text answer)

  unfoldable pub perform_each : List (Call W T) → M (O × W) (List (Seen T))
  unfolding perform
  perform_each [] = pure []
  perform_each (q ∷ qs) = do s ← λ w. catch (perform q w); ss ← perform_each qs; pure (s ∷ ss)
