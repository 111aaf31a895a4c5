-- ===== src/Tests/Addresses.antt =====
-- The theorems on addresses at concrete inputs.
use cpp_socket_library.Prelude.{◌≡◌, ◌≢◌, ◌↔◌, ◌∷◌, arith, [], codes, pos, some}
use cpp_socket_library.Protocol.{ipv4}
use cpp_socket_library.System.Returns.{Returns}
use cpp_socket_library.Address.{
  get_port_number, set_sin_port, htons, get_internet_protocol_version, sin_addr, sin6_addr,
  get_address_length, get_address, get_empty_address, resolve_to_addresses, create_tcp_hints,
}
use cpp_socket_library.Address.Ports.{get_port_number-set_sin_port}
use cpp_socket_library.Address.Text.{ntop_answer, get_address_iff}
use cpp_socket_library.Address.Resolve.{Resolved, resolve_to_addresses-Resolved}
use cpp_socket_library.Tests.Machine.{system, friendly, start, peer, system-NtopFits}

get_port_number-set_sin_port_example :
    (get_port_number (set_sin_port peer (htons 443)) ≡ 443)
    × (get_internet_protocol_version (set_sin_port peer (htons 443))
        ≡ get_internet_protocol_version peer)
    × (sin_addr (set_sin_port peer (htons 443)) ≡ sin_addr peer)
    × (sin6_addr (set_sin_port peer (htons 443)) ≡ sin6_addr peer)
    × (get_address_length (set_sin_port peer (htons 443)) ≡ get_address_length peer)
get_port_number-set_sin_port_example =
    get_port_number-set_sin_port peer 443 (omega arith) (omega arith)

get_address_iff_example : (get_address (system friendly) peer ≡ some (codes "10.0.0.1")) ↔ (
    (ntop_answer (system friendly) peer ≡ some (codes "10.0.0.1"))
    × (codes "10.0.0.1" ≢ [])
    × (get_empty_address (get_internet_protocol_version peer) ≢ some (codes "10.0.0.1")))
get_address_iff_example = get_address_iff (system friendly) system-NtopFits peer (codes "10.0.0.1")

resolve_to_addresses-Resolved_example :
    Returns
      (λ r m. Resolved (pos 0) (some (peer ∷ [])) r)
      (resolve_to_addresses
        (system friendly)
        (codes "localhost")
        8080
        (create_tcp_hints ipv4 0)
        start)
resolve_to_addresses-Resolved_example =
    resolve_to_addresses-Resolved (system friendly) (codes "localhost") 8080
      (create_tcp_hints ipv4 0) start
