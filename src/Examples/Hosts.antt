-- ===== src/Examples/Hosts.antt =====
-- Concrete addresses, and a server at a registry.
use xzmjx_rpc.Prelude.{
  ℕ, true, false, ◌+◌, ◌-◌, ◌^◌, ◌≡◌, ◌↔◌, refl, arith, List, [], ◌∷◌, ◌++◌, none, some, ok,
  crashed, ◌>>=◌, if◌then◌else◌, ltb,
}
use xzmjx_rpc.ByteArray.Defs.{little}
use xzmjx_rpc.Codec.Endian.{object_bytes, le_bytes}
use xzmjx_rpc.Net.Address.Defs.{
  Address, Ipv4, Ipv6, unix, network_address, broadcast_address, subnet_mask, network_address6,
  broadcast_address6, subnet_mask6,
}
use xzmjx_rpc.Net.Address.Any.{less, equal, get_addr, get_addr_len}
use xzmjx_rpc.Net.Address.Subnet.{
  Block, host_address, network_of, broadcast_of, subnet_of, subnet_lem, subnet_branches,
}
use xzmjx_rpc.Net.Address.Number.{number}
use xzmjx_rpc.Net.Address.Subnet6.{network_bytes, broadcast_bytes, subnet6_lem, subnet6_outside}
use xzmjx_rpc.Net.Address.Order.{key, IsWhole, Below, comparisons, prefix_unordered}
use xzmjx_rpc.Net.Address.Print.{ipv4_text}
use xzmjx_rpc.Net.Address.Lookup.{node_and_service, colons_lem, printed_lem}
use xzmjx_rpc.Net.Address.UnixPath.{unix_of_path, get_path, escaped_zero, path_lem}
use xzmjx_rpc.Rpc.Text.{text}
use xzmjx_rpc.Rpc.Registry.Defs.{Registry}

-- 192.168.1.77, port 80, as a little-endian host holds it.
abbrev host_77 : Ipv4
host_77 = record { sin_family = 2; sin_port = 0x5000; s_addr = 0x4d01a8c0; sin_zero = [] }

subnet_example :
    (network_address little 24 host_77 ≡ ok (some (network_of little 24 host_77)))
    × (broadcast_address little 24 host_77 ≡ ok (some (broadcast_of little 24 host_77)))
    × (subnet_mask little 24 ≡ ok (subnet_of little 24))
    × Block
        (2 ^ (32 - 24))
        (host_address little host_77)
        (host_address little (network_of little 24 host_77))
        (host_address little (broadcast_of little 24 host_77))
    × (host_address little (subnet_of little 24) + 2 ^ (32 - 24) ≡ 2 ^ 32)
subnet_example = subnet_lem little 24 host_77 (omega arith) (omega arith) (omega arith)

subnet_branches_example :
    (network_address little 1 host_77 ≡ (
      if ltb 32 1
      then ok none
      else if ltb 1 2
      then crashed
      else ok (some (network_of little 1 host_77))))
    × (broadcast_address little 1 host_77 ≡ (
        if ltb 32 1
        then ok none
        else if ltb 1 2
        then crashed
        else ok (some (broadcast_of little 1 host_77))))
    × (subnet_mask little 1
        ≡ (if ltb 32 1 then crashed else if ltb 1 2 then crashed else ok (subnet_of little 1)))
subnet_branches_example = subnet_branches little 1 host_77 (omega arith)

-- 2001:db8::1:2
abbrev host_6 : Ipv6
host_6 = record {
  sin6_family = 10;
  sin6_port = 0;
  sin6_flowinfo = 0;
  s6_addr = 0x20 ∷ 0x01 ∷ 0x0d ∷ 0xb8 ∷ 0 ∷ 0 ∷ 0 ∷ 0 ∷ 0 ∷ 0 ∷ 0 ∷ 0 ∷ 0 ∷ 1 ∷ 0 ∷ 2 ∷ [];
  sin6_scope_id = 0;
}

subnet6_example :
    (network_address6 61 host_6 ≡ ok (record host_6 { s6_addr = network_bytes 61 host_6.s6_addr }))
    × (broadcast_address6 61 host_6
        ≡ ok (record host_6 { s6_addr = broadcast_bytes 61 host_6.s6_addr }))
    × Block
        (2 ^ (128 - 61))
        (number host_6.s6_addr)
        (number (network_bytes 61 host_6.s6_addr))
        (number (broadcast_bytes 61 host_6.s6_addr))
    × (m : Ipv6) × (subnet_mask6 61 ≡ ok m)
    × (number m.s6_addr + 2 ^ (128 - 61) ≡ 2 ^ 128)
subnet6_example = subnet6_lem 61 (omega arith) host_6 refl (omega arith)

subnet6_outside_example :
    (network_address6 128 host_6 ≡ crashed)
    × (broadcast_address6 128 host_6 ≡ crashed)
    × (subnet_mask6 128 ≡ crashed)
subnet6_outside_example = subnet6_outside 128 host_6 (omega arith) refl

-- Two addresses of Unix paths, "a" and "ab", without the zero byte behind the path.
abbrev short : Address
short = unix (record { sun_family = 1; sun_path = b'a' ∷ []; addr_len = 3 })

abbrev long : Address
long = unix (record { sun_family = 1; sun_path = b'a' ∷ b'b' ∷ []; addr_len = 4 })

short-IsWhole : IsWhole little short
unfolding get_addr get_addr_len object_bytes le_bytes
short-IsWhole = omega arith

long-IsWhole : IsWhole little long
unfolding get_addr get_addr_len object_bytes le_bytes
long-IsWhole = omega arith

comparisons_example :
    ((less little short long ≡ ok true) ↔ Below (key little short) (key little long))
    × ((equal little short long ≡ ok true) ↔ (key little short ≡ key little long))
comparisons_example = comparisons little short long short-IsWhole long-IsWhole

long-key : key little long ≡ key little short ++ (b'b' ∷ [])
unfolding get_addr get_addr_len object_bytes le_bytes
long-key = refl

prefix_unordered_example :
    (less little short long ≡ ok false)
    × (less little long short ≡ ok false)
    × (equal little short long ≡ ok false)
prefix_unordered_example =
    prefix_unordered little short long b'b' [] short-IsWhole long-IsWhole long-key

colons_example :
    (node_and_service (b'h' ∷ (text "ost" ++ (b':' ∷ text "80")))
      ≡ (b'h' ∷ text "ost", some (text "80")))
    × (node_and_service (b'h' ∷ (text "ost" ++ (b':' ∷ (text "80" ++ (b':' ∷ text "81"))))) ≡ (
      b'h' ∷ (text "ost" ++ (b':' ∷ (text "80" ++ (b':' ∷ text "81")))),
      some (b':' ∷ (text "80" ++ (b':' ∷ text "81"))),
    ))
colons_example =
    colons_lem b'h' (text "ost") (omega arith) (omega arith) (text "80") (text "81") (omega arith)

printed_example :
    (rest : List ℕ) × (node_and_service (ipv4_text little host_77)
      ≡ (ipv4_text little host_77, some (b':' ∷ rest)))
printed_example = printed_lem little host_77

path_example :
    ((unix_of_path (b'/' ∷ text "tmp") >>= get_path) ≡ ok (b'/' ∷ text "tmp"))
    × ((unix_of_path (0 ∷ b'/' ∷ text "tmp") >>= get_path)
        ≡ ok (escaped_zero ++ (b'/' ∷ text "tmp")))
path_example = path_lem b'/' (text "tmp") (omega arith) (omega arith)

abbrev memory_0 : ℕ → ℕ
memory_0 x = 0

abbrev at_port : ℕ → List ℕ
at_port port = text "10:0:0:1:" ++ (port ∷ [])

abbrev no_services : Registry
no_services = record { services_provider = []; address_to_service = [] }
