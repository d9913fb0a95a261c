-- ===== src/Net/Address/Defs.antt =====
-- The addresses of net/address.h and net/address.cpp: the system's structures field by field, a
-- number as the host reads it there, and the operations on them. The byte order of the host is a
-- parameter, `native`; `AF_UNIX`, `AF_INET` and `AF_INET6` are those of Linux.
use xzmjx_rpc.Prelude.{
  ℕ, zero, suc, ◌+◌, ◌-◌, ◌/◌, ◌%◌, ◌^◌, List, [], ◌∷◌, ◌++◌, Option, none, some, if◌then◌else◌,
  ltb, length, take, drop, bit_and, bit_or, Outcome, ok, crashed, ◌>>=◌,
}
use xzmjx_rpc.ByteArray.Defs.{Endian, big}
use xzmjx_rpc.Codec.Endian.{endian_cast}

abbrev pub af_unix : ℕ
af_unix = 1

abbrev pub af_inet : ℕ
af_inet = 2

abbrev pub af_inet6 : ℕ
af_inet6 = 10

pub record Ipv4 : Type 0 where
  pub sin_family : ℕ
  pub sin_port : ℕ
  pub s_addr : ℕ
  pub sin_zero : List ℕ

pub record Ipv6 : Type 0 where
  pub sin6_family : ℕ
  pub sin6_port : ℕ
  pub sin6_flowinfo : ℕ
  pub s6_addr : List ℕ
  pub sin6_scope_id : ℕ

-- `m_length` counts the family as well.
pub record Unix : Type 0 where
  pub sun_family : ℕ
  pub sun_path : List ℕ
  pub addr_len : ℕ

pub record Unknown : Type 0 where
  pub sa_family : ℕ
  pub sa_data : List ℕ

-- The classes that derive from `Address`.
pub data Address : Type 0 where
  ipv4 : Ipv4 → Address
  ipv6 : Ipv6 → Address
  unix : Unix → Address
  unknown : Unknown → Address

abbrev pub replicate : ℕ → ℕ → List ℕ
replicate zero b = []
replicate (suc n) b = b ∷ replicate n b

-- A byte changed in an array; out of the array is undefined behaviour.
unfoldable pub change : ℕ → (ℕ → ℕ) → List ℕ → Outcome (List ℕ)
change i f [] = crashed
change zero f (b ∷ bs) = ok (f b ∷ bs)
change (suc i) f (b ∷ bs) = change i f bs >>= λ r. ok (b ∷ r)

-- `CreateMask<T>(bits)` for an unsigned `T` of `w` bits: the shift of the `int` 1 and the
-- subtraction are defined for shifts of up to 30 bits.
unfoldable pub create_mask : ℕ → ℕ → Outcome ℕ
create_mask w bits =
    let k = (w + 2 ^ 64 - bits) % 2 ^ 64 in if ltb k 31 then ok ((2 ^ k - 1) % 2 ^ w) else crashed

-- `~x` of an unsigned number of `w` bits.
unfoldable pub complement : ℕ → ℕ → ℕ
complement w x = 2 ^ w - 1 - x

-- The constructors of the addresses. `IPv4Address(address, port)` leaves `sin_zero` as it is in
-- memory, `IPv6Address(address, port)` the flow and the scope.
module _ (native : Endian) where
  unfoldable pub new_ipv4 : List ℕ → ℕ → ℕ → Ipv4
  unfolding endian_cast
  new_ipv4 stale address port = record {
    sin_family = af_inet;
    sin_port = endian_cast native 2 port big;
    s_addr = endian_cast native 4 address big;
    sin_zero = stale;
  }

  unfoldable pub new_ipv6 : ℕ → ℕ → List ℕ → ℕ → Ipv6
  unfolding endian_cast
  new_ipv6 flow scope address port = record {
    sin6_family = af_inet6;
    sin6_port = endian_cast native 2 port big;
    sin6_flowinfo = flow;
    s6_addr = take 16 address;
    sin6_scope_id = scope;
  }

  -- `IPv4Address::Create` and `IPv6Address::Create`, by what `inet_pton` makes of the text.
  unfoldable pub ipv4_create : (List ℕ → Option ℕ) → List ℕ → List ℕ → ℕ → Option Ipv4
  unfolding new_ipv4
  ipv4_create pton stale address port = elim (pton address) [
    | none ↦ none
    | some s ↦
        some (record (new_ipv4 stale 0 0) { sin_port = endian_cast native 2 port big; s_addr = s })
  ]

  unfoldable pub ipv6_create : (List ℕ → Option (List ℕ)) → List ℕ → ℕ → Option Ipv6
  ipv6_create pton address port = elim (pton address) [
    | none ↦ none
    | some s ↦ some (record {
      sin6_family = af_inet6;
      sin6_port = endian_cast native 2 port big;
      sin6_flowinfo = 0;
      s6_addr = s;
      sin6_scope_id = 0;
    })
  ]

  unfoldable pub ipv4_port : Ipv4 → ℕ
  unfolding endian_cast
  ipv4_port a = endian_cast native 2 a.sin_port big

  unfoldable pub set_ipv4_port : ℕ → Ipv4 → Ipv4
  unfolding endian_cast
  set_ipv4_port port a = record a { sin_port = endian_cast native 2 port big }

  unfoldable pub ipv6_port : Ipv6 → ℕ
  unfolding endian_cast
  ipv6_port a = endian_cast native 2 a.sin6_port big

  unfoldable pub set_ipv6_port : ℕ → Ipv6 → Ipv6
  unfolding endian_cast
  set_ipv6_port port a = record a { sin6_port = endian_cast native 2 port big }

  -- `IPv4Address::broadcastAddress`, `networkAddress`, `subnetMask`; none is a null pointer.
  unfoldable pub broadcast_address : ℕ → Ipv4 → Outcome (Option Ipv4)
  unfolding create_mask
  broadcast_address prefix_len a =
      if ltb 32 prefix_len
      then ok none
      else (create_mask 32 prefix_len >>= λ mask.
          ok (some (record a { s_addr = bit_or a.s_addr (endian_cast native 4 mask big) })))

  unfoldable pub network_address : ℕ → Ipv4 → Outcome (Option Ipv4)
  unfolding create_mask complement
  network_address prefix_len a =
      if ltb 32 prefix_len
      then ok none
      else (create_mask 32 prefix_len >>= λ mask. ok (
          some (record a {
            s_addr = bit_and a.s_addr (complement 32 (endian_cast native 4 mask big));
          })))

  unfoldable pub subnet_mask : ℕ → Outcome Ipv4
  unfolding create_mask complement
  subnet_mask prefix_len = create_mask 32 prefix_len >>= λ mask. ok (record {
    sin_family = af_inet;
    sin_port = 0;
    s_addr = complement 32 (endian_cast native 4 mask big);
    sin_zero = replicate 8 0;
  })

-- The bytes behind an index set to one value: `for (i = prefix_len / 8 + 1; i < 16; i++)`.
unfoldable pub fill_from : ℕ → ℕ → List ℕ → List ℕ
fill_from i b bytes = take i bytes ++ replicate (length bytes - i) b

-- `IPv6Address::broadcastAddress`, `networkAddress`, `subnetMask`.
unfoldable pub broadcast_address6 : ℕ → Ipv6 → Outcome Ipv6
unfolding create_mask change fill_from
broadcast_address6 prefix_len a = create_mask 8 (prefix_len % 8) >>= λ mask.
    change (prefix_len / 8) (λ b. bit_or b mask) a.s6_addr >>= λ bytes.
    ok (record a { s6_addr = fill_from (prefix_len / 8 + 1) 0xff bytes })

unfoldable pub network_address6 : ℕ → Ipv6 → Outcome Ipv6
unfolding create_mask change fill_from complement
network_address6 prefix_len a = create_mask 8 (prefix_len % 8) >>= λ mask.
    change (prefix_len / 8) (λ b. bit_and b (complement 8 mask)) a.s6_addr >>= λ bytes.
    ok (record a { s6_addr = fill_from (prefix_len / 8 + 1) 0 bytes })

unfoldable pub subnet_mask6 : ℕ → Outcome Ipv6
unfolding create_mask change complement
subnet_mask6 prefix_len = create_mask 8 (prefix_len % 8) >>= λ mask.
    change (prefix_len / 8) (λ b. complement 8 mask) (replicate 16 0) >>= λ bytes. ok (record {
      sin6_family = af_inet6;
      sin6_port = 0;
      sin6_flowinfo = 0;
      s6_addr = replicate (prefix_len / 8) 0xff ++ drop (prefix_len / 8) bytes;
      sin6_scope_id = 0;
    })
