-- ===== src/System/Always.antt =====
-- What holds of the state after a run, however it ends.
use cpp_socket_library.Errors.{Exception}
use cpp_socket_library.System.Defs.{Run, ok, throw, out_of_fuel, M, and_then}
use cpp_socket_library.System.Returns.{Returns, returns}

pub data Always {S A : Type 0} (P : S → Type 0) : Run S A → Type 0 where
  returned : {a : A} {s : S} → P s → Always P (ok a s)
  threw : {e : Exception} {s : S} → P s → Always P (throw e s)
  never : Always P out_of_fuel

module _ {S A : Type 0} {P : S → Type 0} where
  pub bind :
      {B : Type 0} {r : Run S A} {k : A → M S B}
      → Always P r
      → ((a : A) (s : S) → P s → Always P (k a s))
      → Always P (and_then r k)
  bind (returned p) next = next _ _ p
  bind (threw p) next = threw p
  bind never next = never

  pub with_Returns :
      {Q : A → S → Type 0} {r : Run S A} → Always P r → Returns Q r → Returns (λ a s. Q a s × P s) r
  with_Returns (returned p) (returns q) = returns (q, p)
  with_Returns (threw p) q = elim q [ ]
  with_Returns never q = elim q [ ]
