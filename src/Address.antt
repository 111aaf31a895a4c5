-- ===== src/Address.antt =====
-- src/address/SocketAddress.h and SocketAddress.cpp. The union `SocketAddress` is 28 bytes: the
-- family and 26 more, in which `sockaddr_in` and `sockaddr_in6` both begin with the port; the IPv4
-- address follows at byte 2 and the IPv6 address at byte 6 of those (the layout of Linux).
pub mod Ports
pub mod Text
pub mod Resolve
use cpp_socket_library.Prelude.{
  ℕ, zero, suc, ◌+◌, ◌*◌, ◌/◌, ◌%◌, Bool, true, false, not, ◌&&◌, ◌||◌, Option, none, some, List,
  [], ◌∷◌, ◌++◌, ltb, if◌then◌else◌, get_or, take, drop, replicate, Bytes, codes, bytes_eq,
  until_nul, write_at, ℤ, pos, minus_one, eq_ℤ,
}
use cpp_socket_library.Protocol.{
  InternetProtocolVersion, any, ipv4, ipv6, family_int, from_family, same_version,
}
use cpp_socket_library.System.{SockAddr, AddrInfo, Os, M, pure, call, ◌>>=◌, ◌>>◌}

abbrev pub SocketAddress : Type 0
SocketAddress = SockAddr

abbrev pub data_size : ℕ
data_size = 26

-- `SocketAddress{}`
abbrev pub zero_address : SocketAddress
zero_address = record { sa_family = 0; sa_data = replicate data_size 0 }

-- The swap of the two bytes of a port, on a little-endian machine.
unfoldable pub htons : ℕ → ℕ
htons n = n % 256 * 256 + n / 256 % 256

-- The 16-bit number at the start of `sa_data`, as the machine reads it.
unfoldable pub sin_port : SocketAddress → ℕ
sin_port a = get_or a.sa_data 0 0 + get_or a.sa_data 1 0 * 256

unfoldable pub sin6_port : SocketAddress → ℕ
sin6_port a = get_or a.sa_data 0 0 + get_or a.sa_data 1 0 * 256

-- The assignment `a.ipv4.sin_port = p`.
unfoldable pub set_sin_port : SocketAddress → ℕ → SocketAddress
set_sin_port a p = record a { sa_data = write_at a.sa_data 0 (p % 256 ∷ p / 256 % 256 ∷ []) }

unfoldable pub sin_addr : SocketAddress → Bytes
sin_addr a = take 4 (drop 2 a.sa_data)

unfoldable pub sin6_addr : SocketAddress → Bytes
sin6_addr a = take 16 (drop 6 a.sa_data)

unfoldable pub get_internet_protocol_version : SocketAddress → InternetProtocolVersion
unfolding from_family
get_internet_protocol_version a =
    let resolved_version = from_family a.sa_family in
    if same_version resolved_version ipv4 || same_version resolved_version ipv6
    then resolved_version
    else any

unfoldable pub get_port_number : SocketAddress → ℕ
unfolding get_internet_protocol_version htons sin_port sin6_port
get_port_number a =
    if same_version (get_internet_protocol_version a) ipv6
    then htons (sin6_port a)
    else htons (sin_port a)

unfoldable pub get_empty_address : InternetProtocolVersion → Option Bytes
get_empty_address v =
    if same_version v ipv4
    then some (codes "0.0.0.0")
    else if same_version v ipv6
    then some (codes "::")
    else none

unfoldable pub get_local_address : InternetProtocolVersion → Bytes
get_local_address v =
    if same_version v ipv4
    then codes "127.0.0.1"
    else if same_version v ipv6
    then codes "::1"
    else codes "localhost"

-- `sizeof(sockaddr_in)` and `sizeof(sockaddr_in6)`
unfoldable pub get_address_length : SocketAddress → ℕ
unfolding get_internet_protocol_version
get_address_length a = if same_version (get_internet_protocol_version a) ipv4 then 16 else 28

-- `sizeof(SocketAddress)`
abbrev pub address_size : ℕ
address_size = 28

abbrev pub sock_stream : ℕ
sock_stream = 1

abbrev pub sock_dgram : ℕ
sock_dgram = 2

abbrev pub ipproto_tcp : ℕ
ipproto_tcp = 6

abbrev pub ipproto_udp : ℕ
ipproto_udp = 17

abbrev pub ai_passive : ℕ
ai_passive = 1

unfoldable pub create_udp_hints : InternetProtocolVersion → ℕ → AddrInfo
create_udp_hints v flags = record {
  ai_flags = flags;
  ai_family = family_int v;
  ai_socktype = sock_dgram;
  ai_protocol = ipproto_udp;
}

unfoldable pub create_tcp_hints : InternetProtocolVersion → ℕ → AddrInfo
create_tcp_hints v flags = record {
  ai_flags = flags;
  ai_family = family_int v;
  ai_socktype = sock_stream;
  ai_protocol = ipproto_tcp;
}

-- `asString != getEmptyAddress(version)`: a string differs from an absent one.
unfoldable pub differs : Bytes → Option Bytes → Bool
differs text none = true
differs text (some other) = not (bytes_eq text other)

abbrev pub is_empty : Bytes → Bool
is_empty [] = true
is_empty (c ∷ s) = false

-- The buffer of `size` NUL bytes after `inet_ntop`: on success the text with its terminator.
abbrev pub ntop_buffer : ℕ → Option Bytes → Bytes
ntop_buffer size none = replicate size 0
ntop_buffer size (some text) = write_at (replicate size 0) 0 (text ++ 0 ∷ [])

-- `std::memcpy` of a resolved address over a zeroed union.
unfoldable pub copy_address : SockAddr → SocketAddress
copy_address a = record a { sa_data = write_at (replicate data_size 0) 0 a.sa_data }

unfoldable pub copy_addresses : List SockAddr → List SocketAddress
unfolding copy_address
copy_addresses [] = []
copy_addresses (a ∷ rest) = copy_address a ∷ copy_addresses rest

-- `std::to_string`, with more rounds than a number of 64 bits has digits.
unfoldable pub to_string_loop : ℕ → ℕ → Bytes → Bytes
to_string_loop zero n acc = acc
to_string_loop (suc fuel) n acc =
    let rest = to_string_loop fuel (n / 10) ((48 + n % 10) ∷ acc) in
    if ltb n 10 then (48 + n) ∷ acc else rest

unfoldable pub to_string : ℕ → Bytes
unfolding to_string_loop
to_string n = to_string_loop 20 n []

module _ {W : Type 0} (os : Os W) where
  unfoldable pub get_address : SocketAddress → Option Bytes
  unfolding get_internet_protocol_version get_empty_address sin_addr sin6_addr differs
  get_address a =
      let protocol_version = get_internet_protocol_version a in
      let address_length : ℕ = if same_version protocol_version ipv6 then 46 else 16 in
      let text = until_nul (
        ntop_buffer address_length (
          os.inet_ntop (family_int protocol_version)
            (if same_version protocol_version ipv6 then sin6_addr a else sin_addr a)
            address_length)) in
      if not (is_empty text) && differs text (get_empty_address protocol_version)
      then some text
      else none

  unfoldable pub socket_to_address : ℤ → M W (Option SocketAddress × ℤ)
  socket_to_address descriptor = do
    (result, address) ← call (os.getsockname descriptor)
    pure (if eq_ℤ result minus_one then none else some address, result)

  -- Once `getaddrinfo` has answered.
  unfoldable pub collect_addresses : ℤ → Option (List SockAddr) → M W (List SocketAddress × ℤ)
  unfolding copy_addresses
  collect_addresses result none = pure ([], result)
  collect_addresses result (some resolved) =
      if eq_ℤ result (pos 0)
      then (do call (λ w. (tt, os.freeaddrinfo resolved w)); pure (copy_addresses resolved, result))
      else (do call (λ w. (tt, os.freeaddrinfo resolved w)); pure ([], result))

  unfoldable pub resolve_to_addresses : Bytes → ℕ → AddrInfo → M W (List SocketAddress × ℤ)
  unfolding collect_addresses to_string
  resolve_to_addresses hostname port hints = do
    (result, resolved) ← call (os.getaddrinfo (until_nul hostname) (to_string port) hints)
    collect_addresses result resolved
