-- ===== src/Address/Resolve.antt =====
-- What `resolveToAddresses` makes of the answer of `getaddrinfo`.
use cpp_socket_library.Prelude.{
  ℕ, zero, suc, ◌-◌, ◌++◌, ◌≤◌, ◌≡◌, ◌≢◌, ◌∙◌, refl, ap, Bool, Option, none, some, List, [], ◌∷◌,
  length, replicate, All, Bytes, write_at, length-write_at, arith, ℤ, pos, eq_ℤ, eq_ℤ→≡, Bool-cases,
  inl, inr, until_nul,
}
use cpp_socket_library.System.{SockAddr, AddrInfo, Os}
use cpp_socket_library.System.Laws.{IsLedger}
use cpp_socket_library.System.Table.{SameTable}
use cpp_socket_library.System.Returns
use cpp_socket_library.System.Returns.{Returns, returns}
use cpp_socket_library.Address.{
  SocketAddress, data_size, copy_address, copy_addresses, collect_addresses, resolve_to_addresses,
  to_string,
}

-- The union holds all of its 28 bytes.
abbrev pub IsFull : SocketAddress → Type 0
IsFull a = length a.sa_data ≡ data_size

pub copy_address-IsFull : (a : SockAddr) → IsFull (copy_address a)
unfolding copy_address
copy_address-IsFull a = length-write_at (replicate data_size 0) 0 a.sa_data

copy_addresses-IsFull : (l : List SockAddr) → All IsFull (copy_addresses l)
unfolding copy_addresses
copy_addresses-IsFull [] = tt
copy_addresses-IsFull (a ∷ l) = (copy_address-IsFull a, copy_addresses-IsFull l)

length-copy_addresses : (l : List SockAddr) → length (copy_addresses l) ≡ length l
unfolding copy_addresses
length-copy_addresses [] = refl
length-copy_addresses (a ∷ l) = ap suc (length-copy_addresses l)

write_at-nil : (d : Bytes) → write_at d 0 [] ≡ d
write_at-nil [] = refl
write_at-nil (a ∷ d) = refl

write_at-replicate :
    (n : ℕ) (s : Bytes)
    → length s ≤ n
    → write_at (replicate n 0) 0 s ≡ s ++ replicate (n - length s) 0
write_at-replicate n [] h =
    let all : n - 0 ≡ n = omega arith in rw all (write_at-nil (replicate n 0))
write_at-replicate zero (c ∷ s) h = absurd (omega arith)
write_at-replicate (suc n) (c ∷ s) h =
    let less : suc n - suc (length s) ≡ n - length s = omega arith in
    rw less (ap (◌∷◌ c) (write_at-replicate n s (omega arith)))

-- The bytes of an address, with zeros up to the size of the union.
abbrev pub padded : SockAddr → SocketAddress
padded a = record a { sa_data = a.sa_data ++ replicate (data_size - length a.sa_data) 0 }

copy_address-padded : (a : SockAddr) → length a.sa_data ≤ data_size → copy_address a ≡ padded a
unfolding copy_address
copy_address-padded a h = rw (write_at-replicate data_size a.sa_data h) refl

-- The same addresses in the same order, where they fit.
abbrev pub Copies : List SockAddr → List SocketAddress → Type 0
Copies [] [] = Unit {0}
Copies [] (b ∷ m) = ⊥
Copies (a ∷ l) [] = ⊥
Copies (a ∷ l) (b ∷ m) = (length a.sa_data ≤ data_size → b ≡ padded a) × Copies l m

copy_addresses-Copies : (l : List SockAddr) → Copies l (copy_addresses l)
unfolding copy_addresses
copy_addresses-Copies [] = tt
copy_addresses-Copies (a ∷ l) = (copy_address-padded a, copy_addresses-Copies l)

-- What a caller of `resolveToAddresses` relies on, for an answer of `getaddrinfo`.
pub record Resolved (code : ℤ) (answer : Option (List SockAddr)) (r : List SocketAddress × ℤ)
    : Type 0 where
  pub same_code : r.1 ≡ code
  pub none_on_error : code ≢ pos 0 → r.0 ≡ []
  pub full : All IsFull r.0
  pub in_order : (l : List SockAddr) → code ≡ pos 0 → answer ≡ some l → Copies l r.0

module _ {W : Type 0} (os : Os W) where
  collect_addresses-Resolved :
      (code : ℤ) (answer : Option (List SockAddr)) (w : W)
      → Returns (λ r _. Resolved code answer r) (collect_addresses os code answer w)
  unfolding collect_addresses
  collect_addresses-Resolved code none w =
      returns
        (record { same_code = refl; none_on_error = λ _. refl; full = tt; in_order = λ l _ e. cc })
  collect_addresses-Resolved code (some l) w = elim (Bool-cases (eq_ℤ code (pos 0))) [
    | inl good ↦ rw good (
        returns (record {
          same_code = refl;
          none_on_error = λ n. absurd (n (eq_ℤ→≡ code (pos 0) good));
          full = copy_addresses-IsFull l;
          in_order = λ m _ e. let p : l ≡ m = ground arith in rw (← p) (copy_addresses-Copies l);
        }))
    | inr bad ↦ rw bad (
        returns (record {
          same_code = refl;
          none_on_error = λ _. refl;
          full = tt;
          in_order = λ m e _. absurd (ground arith);
        }))
  ]

  -- Whatever `getaddrinfo` answers, `resolveToAddresses` returns its code; with an error code it
  -- returns no address; every address that it returns is a full union, and with code 0 these are
  -- the resolved addresses in their order: each that fits into the union has the family and all
  -- bytes of the resolved one, and zeros behind them.
  pub resolve_to_addresses-Resolved :
      (hostname : Bytes) (port : ℕ) (hints : AddrInfo) (w : W)
      → let answer = (os.getaddrinfo (until_nul hostname) (to_string port) hints w).0 in
        Returns
          (λ r _. Resolved answer.0 answer.1 r)
          (resolve_to_addresses os hostname port hints w)
  unfolding resolve_to_addresses
  resolve_to_addresses-Resolved hostname port hints w = collect_addresses-Resolved _ _ _

-- Resolving a name opens and closes no descriptor.
module _ {W : Type 0} (os : Os W) (is_open : W → ℤ → Bool) (law : IsLedger os is_open) where
  collect_addresses-same :
      (code : ℤ) (answer : Option (List SockAddr)) (w : W)
      → Returns
          (λ r w'. SameTable is_open w w' × All IsFull r.0)
          (collect_addresses os code answer w)
  unfolding collect_addresses
  collect_addresses-same code none w = returns (λ d. refl, tt)
  collect_addresses-same code (some l) w = elim (Bool-cases (eq_ℤ code (pos 0))) [
    | inl good ↦ rw good (returns (law.freeaddrinfo_keeps l w, copy_addresses-IsFull l))
    | inr bad ↦ rw bad (returns (law.freeaddrinfo_keeps l w, tt))
  ]

  pub resolve_to_addresses-same :
      (hostname : Bytes) (port : ℕ) (hints : AddrInfo) (w : W)
      → Returns
          (λ r w'. SameTable is_open w w' × All IsFull r.0)
          (resolve_to_addresses os hostname port hints w)
  unfolding resolve_to_addresses
  resolve_to_addresses-same hostname port hints w =
      let answer = os.getaddrinfo (until_nul hostname) (to_string port) hints w in
      Returns.mono (collect_addresses-same answer.0.0 answer.0.1 answer.1) λ r w' p.
        (λ d. p.0 d ∙ law.getaddrinfo_keeps (until_nul hostname) (to_string port) hints w d, p.1)
