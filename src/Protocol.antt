-- ===== src/Protocol.antt =====
-- The protocol versions of src/enums/InternetProtocolVersion.h, an enum over `int`.
use cpp_socket_library.Prelude.{ℕ, ◌≡◌, Bool, ◌==◌, if◌then◌else◌, arith, ℤ, pos}

abbrev pub af_unspec : ℕ
af_unspec = 0

abbrev pub af_unix : ℕ
af_unix = 1

abbrev pub af_inet : ℕ
af_inet = 2

abbrev pub af_inet6 : ℕ
af_inet6 = 10

-- `unnamed` holds a value that no enumerator has, which a `static_cast` can make.
pub data InternetProtocolVersion : Type 0 where
  any : InternetProtocolVersion
  ipv4 : InternetProtocolVersion
  ipv6 : InternetProtocolVersion
  unnamed : ℕ → InternetProtocolVersion

abbrev pub family : InternetProtocolVersion → ℕ
family any = af_unspec
family ipv4 = af_inet
family ipv6 = af_inet6
family (unnamed n) = n

-- `static_cast<int>(version)`
abbrev pub family_int : InternetProtocolVersion → ℤ
family_int v = pos (family v)

-- `static_cast<kt::InternetProtocolVersion>(n)`
unfoldable pub from_family : ℕ → InternetProtocolVersion
from_family n =
    if n == af_unspec
    then any
    else if n == af_inet
    then ipv4
    else if n == af_inet6
    then ipv6
    else unnamed n

abbrev pub same_version : InternetProtocolVersion → InternetProtocolVersion → Bool
same_version v w = family v == family w

pub family-from_family : (n : ℕ) → family (from_family n) ≡ n
unfolding from_family
family-from_family n = ground arith
