-- ===== src/Net/Address/Subnet6.antt =====
-- The network, the broadcast address and the mask of an IPv6 subnet (net/address.cpp), whose address
-- is an array of sixteen bytes, the highest first.
use xzmjx_rpc.Prelude.{
  ℕ, zero, suc, ◌+◌, ◌-◌, ◌*◌, ◌/◌, ◌%◌, ◌^◌, ◌<◌, ◌≤◌, ◌≡◌, refl, ap, ap₂, sym, subst, ◌∙◌, arith,
  bit_and, bit_or, List, ◌∷◌, ◌++◌, length, All, Outcome, ok, threw, crashed, stuck, ◌>>=◌, lt→ltb,
  drop, length-append,
}
use native.Mathlib.Nat.{pow-suc, pow-le-pow_right}
use xzmjx_rpc.Net.Address.Defs.{
  Ipv6, af_inet6, replicate, change, create_mask, complement, broadcast_address6, network_address6,
  subnet_mask6,
}
use xzmjx_rpc.Net.Address.Subnet.{Block, pow_add, pow_pos}
use xzmjx_rpc.Net.Address.Number.{
  number, edited, edit_then, change_outside, number_zeros, length-replicate, blocks, down, up,
}

pow_bytes : (n : ℕ) → 2 ^ (8 * n) ≡ 256 ^ n
pow_bytes zero = refl
pow_bytes (suc n) =
    let e : 8 * suc n ≡ 8 + 8 * n = omega arith in
    ap (λ x. 2 ^ x) e
    ∙ pow_add 8 (8 * n)
    ∙ (let q : 2 ^ 8 * 2 ^ (8 * n) ≡ 256 ^ n * 256 = omega (arith, pow_bytes n) in q)
    ∙ sym (pow-suc 256 n)

-- The mask's bytes.
mask_bytes : (i n c : ℕ) → List ℕ
mask_bytes i n c = replicate i 255 ++ (c ∷ replicate n 0)

mask_change :
    (i n c : ℕ)
    → (change i (λ b. c) (replicate (suc (i + n)) 0) >>= λ r. ok (replicate i 255 ++ drop i r))
      ≡ ok (mask_bytes i n c)
unfolding change mask_bytes
mask_change zero n c = let e : 0 + n ≡ n = omega arith in ap (λ m. ok (c ∷ replicate m 0)) e
mask_change (suc i) n c =
    let e : suc i + n ≡ suc (i + n) = omega arith in
    ap
      (λ m. change (suc i) (λ b. c) (replicate (suc m) 0) >>= λ r.
        ok (replicate (suc i) 255 ++ drop (suc i) r))
      e
    ∙ extend (change i (λ b. c) (replicate (suc (i + n)) 0)) (mask_change i n c)
  where
    extend :
        (o : Outcome (List ℕ))
        → (o >>= λ r. ok (replicate i 255 ++ drop i r)) ≡ ok (mask_bytes i n c)
        → ((o >>= λ r. ok (0 ∷ r)) >>= λ r. ok (255 ∷ (replicate i 255 ++ drop (suc i) r)))
          ≡ ok (255 ∷ mask_bytes i n c)
    extend (ok r) e = ap (λ (o : Outcome (List ℕ)). o >>= λ l. ok (255 ∷ l)) e
    extend (threw x) e = cc
    extend crashed e = cc
    extend stuck e = cc

number_mask :
    (i n c k : ℕ)
    → c + 2 ^ k ≡ 256
    → number (mask_bytes i n c) + 2 ^ k * 256 ^ n ≡ 256 ^ suc (i + n)
unfolding mask_bytes
number_mask zero n c k e =
    let z : 0 + n ≡ n = omega arith in
    ap₂ (λ l x. c * 256 ^ l + x + 2 ^ k * 256 ^ n) (length-replicate n 0) (number_zeros n)
    ∙ whole_byte c (2 ^ k) (256 ^ n) (256 ^ suc n) e (pow-suc 256 n)
    ∙ ap (λ m. 256 ^ suc m) (sym z)
  where
    whole_byte : (c x y z : ℕ) → c + x ≡ 256 → z ≡ y * 256 → c * y + 0 + x * y ≡ z
    whole_byte c x y z e h =
        let q : c * y + x * y ≡ (c + x) * y = grind arith in omega (arith, h, q, ap (λ t. t * y) e)
number_mask (suc i) n c k e =
    let len : length (mask_bytes i n c) ≡ suc (i + n) = omega (
      arith,
      length-append (replicate i 255) (c ∷ replicate n 0),
      length-replicate i 255,
      length-replicate n 0,
    ) in
    let z : suc i + n ≡ suc (i + n) = omega arith in
    omega (
      arith,
      ap (λ l. 255 * 256 ^ l) len,
      number_mask i n c k e,
      pow-suc 256 (suc (i + n)),
      ap (λ m. 256 ^ suc m) z,
    )

-- The bytes that the operations give.
abbrev pub network_bytes : ℕ → List ℕ → List ℕ
network_bytes p = edited (p / 8) (down (8 - p % 8)) 0

abbrev pub broadcast_bytes : ℕ → List ℕ → List ℕ
broadcast_bytes p = edited (p / 8) (up (8 - p % 8)) 255

module _ (p : ℕ) (h : p < 128) where
  size6 : 2 ^ (8 - p % 8) * 256 ^ (15 - p / 8) ≡ 2 ^ (128 - p)
  size6 =
      let e : 8 - p % 8 + 8 * (15 - p / 8) ≡ 128 - p = omega arith in
      ap (λ x. 2 ^ (8 - p % 8) * x) (sym (pow_bytes (15 - p / 8)))
      ∙ sym (pow_add (8 - p % 8) (8 * (15 - p / 8)))
      ∙ ap (λ x. 2 ^ x) e

  byte_mask : create_mask 8 (p % 8) ≡ ok (2 ^ (8 - p % 8) - 1)
  unfolding create_mask
  byte_mask =
      let e : (8 + 2 ^ 64 - p % 8) % 2 ^ 64 ≡ 8 - p % 8 = omega arith in
      let shorter : 8 - p % 8 ≤ 8 = omega arith in
      let positive : 0 < 2 = omega arith in
      let q : (2 ^ (8 - p % 8) - 1) % 2 ^ 8 ≡ 2 ^ (8 - p % 8) - 1 =
        omega (arith, pow-le-pow_right positive shorter, pow_pos (8 - p % 8)) in
      rw (e, lt→ltb (8 - p % 8) 31 (omega arith)) (ap ok q)

  network_returns :
      (a : Ipv6)
      → p / 8 < length a.s6_addr
      → network_address6 p a ≡ ok (record a { s6_addr = network_bytes p a.s6_addr })
  unfolding network_address6
  network_returns a inside =
      let k = 8 - p % 8 in
      rw byte_mask (edit_then (λ l. record a { s6_addr = l }) (p / 8) (down k) 0 a.s6_addr inside)

  broadcast_returns :
      (a : Ipv6)
      → p / 8 < length a.s6_addr
      → broadcast_address6 p a ≡ ok (record a { s6_addr = broadcast_bytes p a.s6_addr })
  unfolding broadcast_address6
  broadcast_returns a inside =
      let k = 8 - p % 8 in
      rw byte_mask (edit_then (λ l. record a { s6_addr = l }) (p / 8) (up k) 255 a.s6_addr inside)

  mask_of : Ipv6
  mask_of = record {
    sin6_family = af_inet6;
    sin6_port = 0;
    sin6_flowinfo = 0;
    s6_addr = mask_bytes (p / 8) (15 - p / 8) (complement 8 (2 ^ (8 - p % 8) - 1));
    sin6_scope_id = 0;
  }

  mask_returns : subnet_mask6 p ≡ ok mask_of
  unfolding subnet_mask6 mask_of
  mask_returns =
      let e : suc (p / 8 + (15 - p / 8)) ≡ 16 = omega arith in
      let c = complement 8 (2 ^ (8 - p % 8) - 1) in
      let change_all =
        subst
          (λ s.
            (change (p / 8) (λ b. c) (replicate s 0) >>= λ r.
            ok (replicate (p / 8) 255 ++ drop (p / 8) r))
            ≡ ok (mask_bytes (p / 8) (15 - p / 8) c))
          e (mask_change (p / 8) (15 - p / 8) c) in
      rw byte_mask (made (change (p / 8) (λ b. c) (replicate 16 0)) change_all)
    where
      made :
          (o : Outcome (List ℕ))
          → (o >>= λ r. ok (replicate (p / 8) 255 ++ drop (p / 8) r)) ≡ ok mask_of.s6_addr
          → (o >>= λ r. ok (record mask_of { s6_addr = replicate (p / 8) 255 ++ drop (p / 8) r }))
            ≡ ok mask_of
      made (ok r) e =
          ap (λ (o : Outcome (List ℕ)). o >>= λ l. ok (record mask_of { s6_addr = l })) e
      made (threw x) e = cc
      made crashed e = cc
      made stuck e = cc

  mask_byte : complement 8 (2 ^ (8 - p % 8) - 1) + 2 ^ (8 - p % 8) ≡ 256
  unfolding complement
  mask_byte =
      let shorter : 8 - p % 8 ≤ 8 = omega arith in
      let positive : 0 < 2 = omega arith in
      omega (arith, pow-le-pow_right positive shorter, pow_pos (8 - p % 8))

  -- For a prefix of less than 128 bits and an address of sixteen bytes: the network address and
  -- the broadcast address are the first and the last of the block of 2 ^ (128 - prefix) addresses
  -- that the address lies in, with nothing but the bytes changed; and the mask is 2 ^ 128 less that
  -- number.
  pub subnet6_lem :
      (a : Ipv6)
      → length a.s6_addr ≡ 16
      → All (λ b. b < 256) a.s6_addr
      → (network_address6 p a ≡ ok (record a { s6_addr = network_bytes p a.s6_addr }))
        × (broadcast_address6 p a ≡ ok (record a { s6_addr = broadcast_bytes p a.s6_addr }))
        × Block
            (2 ^ (128 - p))
            (number a.s6_addr)
            (number (network_bytes p a.s6_addr))
            (number (broadcast_bytes p a.s6_addr))
        × (m : Ipv6) × (subnet_mask6 p ≡ ok m)
        × (number m.s6_addr + 2 ^ (128 - p) ≡ 2 ^ 128)
  unfolding mask_of
  subnet6_lem a len bytes =
      let k = 8 - p % 8 in
      let i = p / 8 in
      let n = 15 - p / 8 in
      let inside : i < length a.s6_addr = omega (arith, len) in
      let (q, total, block) = blocks k (omega arith) i n a.s6_addr (omega (arith, len)) bytes in
      (
        network_returns a inside,
        broadcast_returns a inside,
        subst
            (λ s.
              Block s (number a.s6_addr) (number (network_bytes p a.s6_addr))
                (number (broadcast_bytes p a.s6_addr)))
            size6 block,
        mask_of,
        mask_returns,
        let at_end : suc (p / 8 + (15 - p / 8)) ≡ 16 = omega arith in
            ap (λ x. number mask_of.s6_addr + x) (sym size6)
            ∙ number_mask i n (complement 8 (2 ^ k - 1)) k mask_byte
            ∙ ap (λ l. 256 ^ l) at_end,
      )

byte_mask_any : (p : ℕ) → (m : ℕ) × (create_mask 8 (p % 8) ≡ ok m)
unfolding create_mask
byte_mask_any p =
    let e : (8 + 2 ^ 64 - p % 8) % 2 ^ 64 ≡ 8 - p % 8 = omega arith in
    ((2 ^ (8 - p % 8) - 1) % 2 ^ 8, rw (e, lt→ltb (8 - p % 8) 31 (omega arith)) refl)

-- For a prefix of 128 bits, a single host, and any longer one, all three operations store a byte
-- behind the sixteen of the address, which is undefined.
pub subnet6_outside :
    (p : ℕ) (a : Ipv6)
    → 128 ≤ p
    → length a.s6_addr ≡ 16
    → (network_address6 p a ≡ crashed)
      × (broadcast_address6 p a ≡ crashed)
      × (subnet_mask6 p ≡ crashed)
unfolding network_address6 broadcast_address6 subnet_mask6
subnet6_outside p a h len =
    let (m, e) = byte_mask_any p in
    let far : length a.s6_addr ≤ p / 8 = omega (arith, len) in
    let beyond : 16 ≤ p / 8 = omega arith in
    (
      rw (e, change_outside (p / 8) (λ b. bit_and b (complement 8 m)) a.s6_addr far) refl,
      rw (e, change_outside (p / 8) (λ b. bit_or b m) a.s6_addr far) refl,
      rw (e, change_outside (p / 8) (λ b. complement 8 m) (replicate 16 0) beyond) refl,
    )
