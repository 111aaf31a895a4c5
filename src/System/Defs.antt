-- ===== src/System/Defs.antt =====
-- The operating system below the library, as an interface, and the runs of code that calls it.
use cpp_socket_library.Prelude.{ℕ, Option, List, ℤ, Bytes}
use cpp_socket_library.Errors.{Exception}

-- A `sockaddr` of any family: `sa_family` and the bytes behind it.
pub record SockAddr : Type 0 where
  pub sa_family : ℕ
  pub sa_data : Bytes

-- The fields of an `addrinfo` that the library fills in as hints.
pub record AddrInfo : Type 0 where
  pub ai_flags : ℕ
  pub ai_family : ℤ
  pub ai_socktype : ℕ
  pub ai_protocol : ℕ

pub record TimeVal : Type 0 where
  pub tv_sec : ℤ
  pub tv_usec : ℤ

-- The calls that the library makes, over a state `W` of everything outside it. An `int` result
-- comes first; a call that fills a buffer returns the bytes it wrote, one that fills an address
-- the address as it is afterwards. Lengths are of type `size_t` or `socklen_t`.
pub record Os (W : Type 0) : Type 0 where
  pub socket : (family : ℤ) (type protocol : ℕ) → W → ℤ × W
  pub setsockopt : (descriptor : ℤ) (level name : ℕ) (value : ℤ) → W → ℤ × W
  pub bind : (descriptor : ℤ) → SockAddr → (length : ℕ) → W → ℤ × W
  pub connect : (descriptor : ℤ) → SockAddr → (length : ℕ) → W → ℤ × W
  pub listen : (descriptor backlog : ℤ) → W → ℤ × W
  pub accept : (descriptor : ℤ) → W → (ℤ × SockAddr) × W
  pub send : (descriptor : ℤ) → Bytes → (length : ℕ) (flags : ℤ) → W → ℤ × W
  pub recv : (descriptor : ℤ) (length : ℕ) (flags : ℤ) → W → (ℤ × Bytes) × W
  pub sendto :
      (descriptor : ℤ) → Bytes → (length : ℕ) (flags : ℤ) → SockAddr → (size : ℕ) → W → ℤ × W
  pub recvfrom : (descriptor : ℤ) (length : ℕ) (flags : ℤ) → W → (ℤ × Bytes × SockAddr) × W
  pub select : (descriptor : ℤ) → TimeVal → W → ℤ × W
  pub close : (descriptor : ℤ) → W → ℤ × W
  pub getsockname : (descriptor : ℤ) → W → (ℤ × SockAddr) × W
  pub getaddrinfo : (hostname port : Bytes) → AddrInfo → W → (ℤ × Option (List SockAddr)) × W
  pub freeaddrinfo : List SockAddr → W → W
  pub remove : (path : Bytes) → W → ℤ × W
  pub inet_ntop : (family : ℤ) (address : Bytes) (size : ℕ) → Option Bytes

-- A run over a state `S` returns, throws, or needs more rounds of a loop than it was given.
pub data Run (S A : Type 0) : Type 0 where
  ok : A → S → Run S A
  throw : Exception → S → Run S A
  out_of_fuel : Run S A

abbrev pub M : Type 0 → Type 0 → Type 0
M S A = S → Run S A

module _ {S : Type 0} where
  abbrev pub pure : {A : Type 0} → A → M S A
  pure a s = ok a s

  abbrev pub raise : {A : Type 0} → Exception → M S A
  raise e s = throw e s

  -- One call of the operating system.
  abbrev pub call : {A : Type 0} → (S → A × S) → M S A
  call f s = ok (f s).0 (f s).1

  abbrev pub and_then : {A B : Type 0} → Run S A → (A → M S B) → Run S B
  and_then (ok a s) k = k a s
  and_then (throw e s) k = throw e s
  and_then out_of_fuel k = out_of_fuel

  infixl 5 ◌>>=◌ ◌>>◌
  abbrev pub ◌>>=◌ : {A B : Type 0} → M S A → (A → M S B) → M S B
  m >>= k = λ s. and_then (m s) k

  abbrev pub ◌>>◌ : {A B : Type 0} → M S A → M S B → M S B
  m >> n = m >>= λ _. n

-- Methods of an object `O` that can throw run over the object and the outside.
module _ {O W : Type 0} where
  abbrev pub on_world : {A : Type 0} → O → Run W A → Run (O × W) A
  on_world o (ok a w) = ok a (o, w)
  on_world o (throw e w) = throw e (o, w)
  on_world o out_of_fuel = out_of_fuel

  abbrev pub lift : {A : Type 0} → M W A → M (O × W) A
  lift m s = on_world s.0 (m s.1)

  abbrev pub this : M (O × W) O
  this s = ok s.0 s

  abbrev pub assign : O → M (O × W) (Unit {0})
  assign o s = ok tt (o, s.1)
