-- ===== src/System/Ends.antt =====
-- How a run ends, exceptions included: it returns with one postcondition or throws with another.
use cpp_socket_library.Errors.{Exception}
use cpp_socket_library.Prelude.{◌≡◌, ◌≢◌, refl}
use cpp_socket_library.System.Defs.{Run, ok, throw, M, and_then, on_world}
use cpp_socket_library.System.Returns.{Returns, returns}

pub data Ends {S A : Type 0} (P : A → S → Type 0) (E : Exception → S → Type 0)
    : Run S A → Type 0 where
  returned : {a : A} {s : S} → P a s → Ends P E (ok a s)
  threw : {e : Exception} {s : S} → E e s → Ends P E (throw e s)

module _ {S A : Type 0} {P : A → S → Type 0} {E : Exception → S → Type 0} where
  pub bind :
      {B : Type 0} {Q : B → S → Type 0} {r : Run S A} {k : A → M S B}
      → Ends P E r
      → ((a : A) (s : S) → P a s → Ends Q E (k a s))
      → Ends Q E (and_then r k)
  bind (returned p) next = next _ _ p
  bind (threw e) next = threw e

  pub of_Returns : {r : Run S A} → Returns P r → Ends P E r
  of_Returns (returns p) = returned p

  pub mono :
      {Q : A → S → Type 0} {F : Exception → S → Type 0} {r : Run S A}
      → Ends P E r
      → ((a : A) (s : S) → P a s → Q a s)
      → ((e : Exception) (s : S) → E e s → F e s)
      → Ends Q F r
  mono (returned p) f g = returned (f _ _ p)
  mono (threw e) f g = threw (g _ _ e)

  -- The equation of the run is kept beside each postcondition.
  pub remember :
      {r : Run S A}
      → Ends P E r
      → Ends (λ a s. P a s × (r ≡ ok a s)) (λ e s. E e s × (r ≡ throw e s)) r
  remember (returned p) = returned (p, refl)
  remember (threw e) = threw (e, refl)

-- A run of the outside leaves the object as it is.
pub lift-Ends :
    {O W A : Type 0} {P : A → W → Type 0} {E : Exception → W → Type 0} (o : O) {r : Run W A}
    → Ends P E r
    → Ends (λ a s. (s.0 ≡ o) × P a s.1) (λ e s. (s.0 ≡ o) × E e s.1) (on_world o r)
lift-Ends o (returned p) = returned (refl, p)
lift-Ends o (threw e) = threw (refl, e)

-- A run that throws nothing returns.
pub to_Returns :
    {S A : Type 0} {P : A → S → Type 0} {r : Run S A} → Ends P (λ e s. ⊥) r → Returns P r
to_Returns (returned p) = returns p
to_Returns (threw e) = absurd e

pub Returns-throw :
    {S A : Type 0} {P : A → S → Type 0} {r : Run S A} {e : Exception} {s : S}
    → Returns P r
    → r ≢ throw e s
Returns-throw (returns p) h = cc
