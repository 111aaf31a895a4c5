-- ===== src/Address/Ports.antt =====
-- Ports in the union: what is written through `ipv4` is read through `ipv6` too.
use cpp_socket_library.Prelude.{
  ℕ, ◌+◌, ◌*◌, ◌/◌, ◌%◌, ◌^◌, ◌≤◌, ◌<◌, ◌≡◌, refl, [], ◌∷◌, length, get_or, take, drop, Bytes,
  write_at, ap, arith,
}
use cpp_socket_library.Address.{
  SocketAddress, data_size, htons, sin_port, sin6_port, set_sin_port, sin_addr, sin6_addr,
  get_internet_protocol_version, get_port_number, get_address_length,
}

pub htons_involutive : (n : ℕ) → n < 2 ^ 16 → htons (htons n) ≡ n
unfolding htons
htons_involutive n h = omega arith

pub htons-lt : (n : ℕ) → htons n < 2 ^ 16
unfolding htons
htons-lt n = omega arith

get_or-write_at-zero :
    (d : Bytes) (x y : ℕ) → 2 ≤ length d → get_or (write_at d 0 (x ∷ y ∷ [])) 0 0 ≡ x
get_or-write_at-zero [] x y h = absurd (omega arith)
get_or-write_at-zero (a ∷ d) x y h = refl

get_or-write_at-one :
    (d : Bytes) (x y : ℕ) → 2 ≤ length d → get_or (write_at d 0 (x ∷ y ∷ [])) 1 0 ≡ y
get_or-write_at-one [] x y h = absurd (omega arith)
get_or-write_at-one (a ∷ []) x y h = absurd (omega arith)
get_or-write_at-one (a ∷ b ∷ d) x y h = refl

write_at-nil : (d : Bytes) → write_at d 0 [] ≡ d
write_at-nil [] = refl
write_at-nil (a ∷ d) = refl

drop-write_at :
    (d : Bytes) (x y : ℕ)
    → (drop 2 (write_at d 0 (x ∷ y ∷ [])) ≡ drop 2 d)
      × (drop 6 (write_at d 0 (x ∷ y ∷ [])) ≡ drop 6 d)
drop-write_at [] x y = (refl, refl)
drop-write_at (a ∷ []) x y = (refl, refl)
drop-write_at (a ∷ b ∷ d) x y = (write_at-nil d, ap (drop 4) (write_at-nil d))

htons-swap : (p : ℕ) → p < 2 ^ 16 → htons (htons p % 256 + htons p / 256 % 256 * 256) ≡ p
unfolding htons
htons-swap p h = omega arith

module _ (a : SocketAddress) (p : ℕ) where
  pub get_internet_protocol_version-set_sin_port :
      get_internet_protocol_version (set_sin_port a p) ≡ get_internet_protocol_version a
  unfolding get_internet_protocol_version set_sin_port
  get_internet_protocol_version-set_sin_port = refl

  get_port_number-htons :
      2 ≤ length a.sa_data → p < 2 ^ 16 → get_port_number (set_sin_port a (htons p)) ≡ p
  unfolding get_port_number set_sin_port sin_port sin6_port
  get_port_number-htons size h =
      let lo = get_or-write_at-zero a.sa_data (htons p % 256) (htons p / 256 % 256) size in
      let hi = get_or-write_at-one a.sa_data (htons p % 256) (htons p / 256 % 256) size in
      ground (arith, lo, hi, htons-swap p h)

  -- Writing a port through the IPv4 view of an address of any family, as the server and the
  -- datagram socket do after binding, is read back by `getPortNumber`, and changes neither the
  -- version, nor the IPv4 or IPv6 address, nor the length that the address is passed with.
  pub get_port_number-set_sin_port :
      data_size ≤ length a.sa_data
      → p < 2 ^ 16
      → (get_port_number (set_sin_port a (htons p)) ≡ p)
        × (get_internet_protocol_version (set_sin_port a (htons p))
            ≡ get_internet_protocol_version a)
        × (sin_addr (set_sin_port a (htons p)) ≡ sin_addr a)
        × (sin6_addr (set_sin_port a (htons p)) ≡ sin6_addr a)
        × (get_address_length (set_sin_port a (htons p)) ≡ get_address_length a)
  unfolding set_sin_port sin_addr sin6_addr get_address_length
  get_port_number-set_sin_port size h =
      let kept = drop-write_at a.sa_data (htons p % 256) (htons p / 256 % 256) in
      (get_port_number-htons (omega arith) h, refl, ap (take 4) kept.0, ap (take 16) kept.1, refl)
