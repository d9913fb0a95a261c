-- ===== src/Net/Address/Any.antt =====
-- What `Address` (net/address.h, net/address.cpp) does with any of its classes: the bytes of the
-- system's structure, the length, `Create` and the comparisons.
use xzmjx_rpc.Prelude.{
  ℕ, zero, suc, min, List, [], ◌∷◌, ◌++◌, Option, none, some, Bool, true, false, not, if◌then◌else◌,
  ◌==◌, ltb, take, drop, Outcome, ok, crashed, ◌>>=◌,
}
use xzmjx_rpc.ByteArray.Defs.{Endian}
use xzmjx_rpc.Codec.Endian.{object_bytes, object_value}
use xzmjx_rpc.Net.Address.Defs.{
  Address, Ipv4, Ipv6, Unknown, ipv4, ipv6, unix, unknown, af_inet, af_inet6,
}

-- The sign of what `memcmp` returns.
pub data Sign : Type 0 where
  negative null positive : Sign

-- `memcmp` of `n` bytes; to read behind an object is undefined.
unfoldable pub memcmp : ℕ → List ℕ → List ℕ → Outcome Sign
memcmp zero xs ys = ok null
memcmp (suc n) [] ys = crashed
memcmp (suc n) (x ∷ xs) [] = crashed
memcmp (suc n) (x ∷ xs) (y ∷ ys) =
    let rest = memcmp n xs ys in
    if ltb x y then ok negative else if ltb y x then ok positive else rest

-- What the comparisons make of the sign; `tail` decides where it is zero.
abbrev pub less_of : Sign → Bool → Bool
less_of negative tail = true
less_of positive tail = false
less_of null tail = tail

abbrev pub equal_of : Sign → Bool
equal_of null = true
equal_of negative = false
equal_of positive = false

-- `getAddrLen`
unfoldable pub get_addr_len : Address → ℕ
get_addr_len (ipv4 a) = 16
get_addr_len (ipv6 a) = 28
get_addr_len (unix a) = a.addr_len
get_addr_len (unknown a) = 16

-- `getFamily`
unfoldable pub get_family : Address → ℕ
get_family (ipv4 a) = a.sin_family
get_family (ipv6 a) = a.sin6_family
get_family (unix a) = a.sun_family
get_family (unknown a) = a.sa_family

module _ (native : Endian) where
  -- The bytes from `getAddr()` on.
  unfoldable pub get_addr : Address → List ℕ
  get_addr (ipv4 a) =
      object_bytes native 2 a.sin_family
      ++ (object_bytes native 2 a.sin_port ++ (object_bytes native 4 a.s_addr ++ a.sin_zero))
  get_addr (ipv6 a) =
      object_bytes native 2 a.sin6_family
      ++ (object_bytes native 2 a.sin6_port
          ++ (object_bytes native 4 a.sin6_flowinfo
              ++ (a.s6_addr ++ object_bytes native 4 a.sin6_scope_id)))
  get_addr (unix a) = object_bytes native 2 a.sun_family ++ a.sun_path
  get_addr (unknown a) = object_bytes native 2 a.sa_family ++ a.sa_data

  -- The structures that a `sockaddr*` is cast to.
  unfoldable pub read_ipv4 : List ℕ → Ipv4
  read_ipv4 b = record {
    sin_family = object_value native (take 2 b);
    sin_port = object_value native (take 2 (drop 2 b));
    s_addr = object_value native (take 4 (drop 4 b));
    sin_zero = take 8 (drop 8 b);
  }

  unfoldable pub read_ipv6 : List ℕ → Ipv6
  read_ipv6 b = record {
    sin6_family = object_value native (take 2 b);
    sin6_port = object_value native (take 2 (drop 2 b));
    sin6_flowinfo = object_value native (take 4 (drop 4 b));
    s6_addr = take 16 (drop 8 b);
    sin6_scope_id = object_value native (take 4 (drop 24 b));
  }

  unfoldable pub read_unknown : List ℕ → Unknown
  read_unknown b = record {
    sa_family = object_value native (take 2 b);
    sa_data = take 14 (drop 2 b);
  }

  -- `Address::Create`, from the memory behind the pointer; none is a null pointer.
  unfoldable pub create : Option (List ℕ) → Option Address
  unfolding read_ipv4 read_ipv6 read_unknown
  create none = none
  create (some b) =
      let family = object_value native (take 2 b) in
      if family == af_inet
      then some (ipv4 (read_ipv4 b))
      else if family == af_inet6
      then some (ipv6 (read_ipv6 b))
      else some (unknown (read_unknown b))

  -- `operator<`; its last test is `getAddrLen() < getAddrLen()`.
  unfoldable pub less : Address → Address → Outcome Bool
  unfolding memcmp get_addr get_addr_len
  less a b = memcmp (min (get_addr_len a) (get_addr_len b)) (get_addr a) (get_addr b) >>= λ s.
      ok (less_of s (ltb (get_addr_len a) (get_addr_len a)))

  -- `operator==`, `operator!=`
  unfoldable pub equal : Address → Address → Outcome Bool
  unfolding memcmp get_addr get_addr_len
  equal a b =
      if get_addr_len a == get_addr_len b
      then (memcmp (get_addr_len a) (get_addr a) (get_addr b) >>= λ s.
          ok (elim s [ null ↦ true | other ↦ false ]))
      else ok false

  unfoldable pub differs : Address → Address → Outcome Bool
  unfolding equal
  differs a b = equal a b >>= λ e. ok (not e)
