-- ===== src/Net/Address/Subnet.antt =====
-- The network, the broadcast address and the mask of a subnet (net/address.cpp).
use xzmjx_rpc.Prelude.{
  ℕ, zero, suc, ◌+◌, ◌-◌, ◌*◌, ◌/◌, ◌%◌, ◌^◌, ◌<◌, ◌≤◌, ◌≡◌, refl, ap, ap₂, sym, ◌∙◌, arith,
  bit_and, bit_or, some, none, ok, crashed, inl, inr, ◌⊎◌, lt→ltb, ltb→lt, ltb→ge, Bool-cases, ltb,
  ge→ltb, if◌then◌else◌,
}
use native.Mathlib.Nat.{pow-suc, pow-le-pow_right}
use xzmjx_rpc.Prelude.Masks.{or_mask, and_mask}
use xzmjx_rpc.ByteArray.Defs.{Endian}
use xzmjx_rpc.Net.Address.Defs.{
  Ipv4, af_inet, replicate, create_mask, complement, broadcast_address, network_address,
  subnet_mask,
}
use xzmjx_rpc.Net.Address.Swap.{host, host-host, host-lt, host-complement, host-or, host-and}

-- The block of `size` addresses, at a multiple of `size`, that `address` lies in.
pub record Block (size address first last : ℕ) : Type 0 where
  pub index : ℕ
  pub offset : ℕ
  pub offset_lt : offset < size
  pub first_at : first ≡ index * size
  pub inside : address ≡ first + offset
  pub last_at : last ≡ first + (size - 1)

-- The address of a structure, in the host's byte order.
abbrev pub host_address : Endian → Ipv4 → ℕ
host_address native a = host native a.s_addr

pub pow_add : (k m : ℕ) → 2 ^ (k + m) ≡ 2 ^ k * 2 ^ m
pow_add zero m =
    let e : 0 + m ≡ m = omega arith in
    ap (λ n. 2 ^ n) e ∙ (let q : 2 ^ m ≡ 1 * 2 ^ m = omega arith in q)
pow_add (suc k) m =
    let e : suc k + m ≡ suc (k + m) = omega arith in
    ap (λ n. 2 ^ n) e
    ∙ pow-suc 2 (k + m)
    ∙ ap (λ x. x * 2) (pow_add k m)
    ∙ (let r : 2 ^ k * 2 ^ m * 2 ≡ 2 ^ k * 2 * 2 ^ m = grind arith in r)
    ∙ ap (λ x. x * 2 ^ m) (sym (pow-suc 2 k))

pub pow_pos : (k : ℕ) → 0 < 2 ^ k
pow_pos zero = omega arith
pow_pos (suc k) = omega (arith, pow-suc 2 k, pow_pos k)

-- A number of `k + m` bits is cut behind its low `k` bits.
pub cut :
    (k m x : ℕ) → x < 2 ^ k * 2 ^ m → (o i : ℕ) × (x ≡ o + i * 2 ^ k) × (o < 2 ^ k) × (i < 2 ^ m)
cut zero m x h = (0, x, omega arith, omega arith, omega arith)
cut (suc k) m x h =
    let p : 2 ^ suc k * 2 ^ m ≡ 2 * (2 ^ k * 2 ^ m) =
      ap (λ y. y * 2 ^ m) (pow-suc 2 k)
      ∙ (let r : 2 ^ k * 2 * 2 ^ m ≡ 2 * (2 ^ k * 2 ^ m) = grind arith in r) in
    let (o, i, e, l, u) = cut k m (x / 2) (omega (arith, p)) in
    let w : i * 2 ^ suc k ≡ 2 * (i * 2 ^ k) =
      ap (λ y. i * y) (pow-suc 2 k)
      ∙ (let r : i * (2 ^ k * 2) ≡ 2 * (i * 2 ^ k) = grind arith in r) in
    (2 * o + x % 2, i, omega (arith, e, w), omega (arith, l, pow-suc 2 k), u)

mask_bound : (p : ℕ) → 2 ^ (32 - p) - 1 < 2 ^ 32
mask_bound p =
    let shorter : 32 - p ≤ 32 = omega arith in
    let positive : 0 < 2 = omega arith in
    omega (arith, pow-le-pow_right positive shorter, pow_pos (32 - p))

create_mask_lem : (p : ℕ) → 2 ≤ p → p ≤ 32 → create_mask 32 p ≡ ok (2 ^ (32 - p) - 1)
unfolding create_mask
create_mask_lem p l h =
    let e : (32 + 2 ^ 64 - p) % 2 ^ 64 ≡ 32 - p = omega arith in
    let q : (2 ^ (32 - p) - 1) % 2 ^ 32 ≡ 2 ^ (32 - p) - 1 = omega (arith, mask_bound p) in
    rw (e, lt→ltb (32 - p) 31 (omega arith)) (ap ok q)

create_mask_crashes : (p : ℕ) → p < 2 ^ 32 → (p < 2) ⊎ (32 < p) → create_mask 32 p ≡ crashed
unfolding create_mask
create_mask_crashes p w (inl h) =
    let e : (32 + 2 ^ 64 - p) % 2 ^ 64 ≡ 32 - p = omega arith in
    rw (e, ge→ltb (32 - p) 31 (omega arith)) refl
create_mask_crashes p w (inr h) =
    let e : 31 ≤ (32 + 2 ^ 64 - p) % 2 ^ 64 = omega arith in
    rw (ge→ltb ((32 + 2 ^ 64 - p) % 2 ^ 64) 31 e) refl

spread_out : (x y : ℕ) → 0 < x → (x - 1) * y + y ≡ y * x
spread_out zero y q = absurd (omega arith)
spread_out (suc x) y q = grind arith

-- A mask of `k + m` ones without its `k` low ones.
pub cleared : (k m w : ℕ) → w ≡ 2 ^ k * 2 ^ m → w - 1 - (2 ^ k - 1) ≡ 0 + (2 ^ m - 1) * 2 ^ k
cleared k m w e = omega (arith, e, spread_out (2 ^ m) (2 ^ k) (pow_pos m), pow_pos k)

-- The structures that the three operations return for a prefix of 2 to 32 bits.
abbrev mask_of : Endian → ℕ → ℕ
mask_of native p = host native (2 ^ (32 - p) - 1)

abbrev pub network_of : Endian → ℕ → Ipv4 → Ipv4
network_of native p a = record a { s_addr = bit_and a.s_addr (complement 32 (mask_of native p)) }

abbrev pub broadcast_of : Endian → ℕ → Ipv4 → Ipv4
broadcast_of native p a = record a { s_addr = bit_or a.s_addr (mask_of native p) }

abbrev pub subnet_of : Endian → ℕ → Ipv4
subnet_of native p = record {
  sin_family = af_inet;
  sin_port = 0;
  s_addr = complement 32 (mask_of native p);
  sin_zero = replicate 8 0;
}

module _ (native : Endian) (p : ℕ) (a : Ipv4) (l : 2 ≤ p) (h : p ≤ 32) where
  network_returns : network_address native p a ≡ ok (some (network_of native p a))
  unfolding network_address host
  network_returns = rw (ge→ltb 32 p h, create_mask_lem p l h) refl

  broadcast_returns : broadcast_address native p a ≡ ok (some (broadcast_of native p a))
  unfolding broadcast_address host
  broadcast_returns = rw (ge→ltb 32 p h, create_mask_lem p l h) refl

  subnet_returns : subnet_mask native p ≡ ok (subnet_of native p)
  unfolding subnet_mask host
  subnet_returns = rw (create_mask_lem p l h) refl

  whole : 2 ^ 32 ≡ 2 ^ (32 - p) * 2 ^ p
  whole = let e : 32 ≡ 32 - p + p = omega arith in ap (λ n. 2 ^ n) e ∙ pow_add (32 - p) p

  host_mask : host native (mask_of native p) ≡ 2 ^ (32 - p) - 1
  host_mask = host-host native _ (mask_bound p)

  flipped-lt : (x : ℕ) → complement 32 x < 2 ^ 32
  unfolding complement
  flipped-lt x = omega arith

  host_subnet : host native (complement 32 (mask_of native p)) ≡ 0 + (2 ^ p - 1) * 2 ^ (32 - p)
  unfolding complement
  host_subnet =
      host-complement native _ (host-lt native _ (mask_bound p))
      ∙ ap (λ x. 2 ^ 32 - 1 - x) host_mask
      ∙ cleared (32 - p) p (2 ^ 32) whole

  module _ (fits : a.s_addr < 2 ^ 32) where
    block :
        Block
          (2 ^ (32 - p))
          (host_address native a)
          (host_address native (network_of native p a))
          (host_address native (broadcast_of native p a))
    block =
        let masked = host-lt native _ (mask_bound p) in
        let bounded : host native a.s_addr < 2 ^ (32 - p) * 2 ^ p =
          omega (arith, whole, host-lt native a.s_addr fits) in
        let (o, i, e, lo, hi) = cut (32 - p) p (host native a.s_addr) bounded in
        let first : host native (bit_and a.s_addr (complement 32 (mask_of native p)))
            ≡ i * 2 ^ (32 - p) =
          host-and native a.s_addr _ fits (flipped-lt (mask_of native p))
          ∙ ap₂ bit_and e host_subnet
          ∙ and_mask (32 - p) p o i lo hi in
        let last : host native (bit_or a.s_addr (mask_of native p))
            ≡ 2 ^ (32 - p) - 1 + i * 2 ^ (32 - p) =
          host-or native a.s_addr _ fits masked
          ∙ ap₂ bit_or e host_mask
          ∙ or_mask (32 - p) o i lo in
        record {
          index = i;
          offset = o;
          offset_lt = lo;
          first_at = first;
          inside = omega (arith, e, first);
          last_at = omega (arith, first, last);
        }

    -- For a prefix of 2 to 32 bits, on a host of either byte order: the network address and the
    -- broadcast address are the first and the last of the block of 2 ^ (32 - prefix) addresses
    -- that the address lies in, with the address's port and family; and the mask is 2 ^ 32 less
    -- that number.
    pub subnet_lem :
        (network_address native p a ≡ ok (some (network_of native p a)))
        × (broadcast_address native p a ≡ ok (some (broadcast_of native p a)))
        × (subnet_mask native p ≡ ok (subnet_of native p))
        × Block
            (2 ^ (32 - p))
            (host_address native a)
            (host_address native (network_of native p a))
            (host_address native (broadcast_of native p a))
        × (host_address native (subnet_of native p) + 2 ^ (32 - p) ≡ 2 ^ 32)
    subnet_lem = (
      network_returns,
      broadcast_returns,
      subnet_returns,
      block,
      omega (arith, host_subnet, whole, spread_out (2 ^ p) (2 ^ (32 - p)) (pow_pos p)),
    )

-- On every prefix: with less than 2 bits all three operations shift an `int` out of its range,
-- which is undefined; beyond 32 bits the network and broadcast addresses are null, and the mask,
-- which is not guarded, is undefined; between them they return.
pub subnet_branches :
    (native : Endian) (p : ℕ) (a : Ipv4)
    → p < 2 ^ 32
    → (network_address native p a ≡ (
        if ltb 32 p
        then ok none
        else if ltb p 2
        then crashed
        else ok (some (network_of native p a))))
      × (broadcast_address native p a ≡ (
          if ltb 32 p
          then ok none
          else if ltb p 2
          then crashed
          else ok (some (broadcast_of native p a))))
      × (subnet_mask native p
          ≡ (if ltb 32 p then crashed else if ltb p 2 then crashed else ok (subnet_of native p)))
unfolding network_address broadcast_address subnet_mask host
subnet_branches native p a w = elim (Bool-cases (ltb 32 p)) [
  | inl far ↦
      let e = create_mask_crashes p w (inr (ltb→lt 32 p far)) in
      (rw far refl, rw far refl, rw (far, e) refl)
  | inr near ↦ elim (Bool-cases (ltb p 2)) [
    | inl low ↦
        let e = create_mask_crashes p w (inl (ltb→lt p 2 low)) in
        (rw (near, low, e) refl, rw (near, low, e) refl, rw (near, low, e) refl)
    | inr high ↦
        let e = create_mask_lem p (ltb→ge p 2 high) (ltb→ge 32 p near) in
        (rw (near, high, e) refl, rw (near, high, e) refl, rw (near, high, e) refl)
  ]
]
