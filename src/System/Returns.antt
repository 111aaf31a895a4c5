-- ===== src/System/Returns.antt =====
-- Total correctness of a run: it returns, and its result meets a postcondition.
use cpp_socket_library.Prelude.{◌≡◌, refl}
use cpp_socket_library.System.Defs.{Run, ok, M, and_then}

pub data Returns {S A : Type 0} (P : A → S → Type 0) : Run S A → Type 0 where
  returns : {a : A} {s : S} → P a s → Returns P (ok a s)

module _ {S A : Type 0} {P : A → S → Type 0} where
  pub bind :
      {B : Type 0} {Q : B → S → Type 0} {r : Run S A} {k : A → M S B}
      → Returns P r
      → ((a : A) (s : S) → P a s → Returns Q (k a s))
      → Returns Q (and_then r k)
  bind (returns p) next = next _ _ p

  pub mono :
      {Q : A → S → Type 0} {r : Run S A}
      → Returns P r
      → ((a : A) (s : S) → P a s → Q a s)
      → Returns Q r
  mono (returns p) weaken = returns (weaken _ _ p)

  -- The result and the state, with their equation.
  pub result : {r : Run S A} → Returns P r → (a : A) × (s : S) × (r ≡ ok a s) × P a s
  result (returns {a} {s} p) = (a, s, refl, p)

  -- What all continuations of a run come to, the whole comes to.
  pub bind-eq :
      {B : Type 0} {r : Run S A} {k : A → M S B} {x : Run S B}
      → Returns P r
      → ((a : A) (s : S) → P a s → k a s ≡ x)
      → and_then r k ≡ x
  bind-eq (returns p) next = next _ _ p
