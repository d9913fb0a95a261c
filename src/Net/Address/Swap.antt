-- ===== src/Net/Address/Swap.antt =====
-- The cast between the host's and the network's byte order, on 32-bit numbers: it is undone by
-- itself, and works on each bit (net/address.cpp applies `|`, `&` and `~` to casted numbers).
use xzmjx_rpc.Prelude.{
  ℕ, ◌+◌, ◌-◌, ◌*◌, ◌/◌, ◌%◌, ◌^◌, ◌<◌, ◌≡◌, refl, ap, ap₂, sym, ◌∙◌, arith, bit_and, bit_or,
}
use xzmjx_rpc.Prelude.Masks.{bit_or-lt, bit_or-join, bit_and-lt, bit_and-join}
use xzmjx_rpc.ByteArray.Defs.{Endian, little, big}
use xzmjx_rpc.Codec.Endian.{endian_cast, byte_swap, le_bytes, of_le}
use xzmjx_rpc.Net.Address.Defs.{complement}

-- A number of four bytes, the lowest first.
abbrev pub of_bytes : ℕ → ℕ → ℕ → ℕ → ℕ
of_bytes a b c d = a + (b + (c + d * 2 ^ 8) * 2 ^ 8) * 2 ^ 8

swap_bytes :
    (a b c d : ℕ)
    → a < 256
    → b < 256
    → c < 256
    → d < 256
    → byte_swap 4 (of_bytes a b c d) ≡ of_bytes d c b a
unfolding byte_swap le_bytes of_le
swap_bytes a b c d p q r s = omega arith

-- The four bytes of a number.
pub to_bytes :
    (x : ℕ) → x < 2 ^ 32 → x ≡ of_bytes (x % 256) (x / 256 % 256) (x / 65536 % 256) (x / 16777216)
to_bytes x h = omega arith

unfoldable pub host : Endian → ℕ → ℕ
unfolding endian_cast
host native x = endian_cast native 4 x big

swap_swap : (x : ℕ) → x < 2 ^ 32 → byte_swap 4 (byte_swap 4 x) ≡ x
swap_swap x h =
    let a = x % 256 in
    let b = x / 256 % 256 in
    let c = x / 65536 % 256 in
    let d = x / 16777216 in
    ap (λ y. byte_swap 4 (byte_swap 4 y)) (to_bytes x h)
    ∙ ap (byte_swap 4) (swap_bytes a b c d (omega arith) (omega arith) (omega arith) (omega arith))
    ∙ swap_bytes d c b a (omega arith) (omega arith) (omega arith) (omega arith)
    ∙ sym (to_bytes x h)

swap-lt : (x : ℕ) → x < 2 ^ 32 → byte_swap 4 x < 2 ^ 32
swap-lt x h =
    let a = x % 256 in
    let b = x / 256 % 256 in
    let c = x / 65536 % 256 in
    let d = x / 16777216 in
    omega (
      arith,
      ap (byte_swap 4) (to_bytes x h),
      swap_bytes a b c d (omega arith) (omega arith) (omega arith) (omega arith),
    )

swap-complement :
    (x : ℕ) → x < 2 ^ 32 → byte_swap 4 (complement 32 x) ≡ complement 32 (byte_swap 4 x)
unfolding complement
swap-complement x h =
    let a = x % 256 in
    let b = x / 256 % 256 in
    let c = x / 65536 % 256 in
    let d = x / 16777216 in
    let flipped : complement 32 x ≡ of_bytes (255 - a) (255 - b) (255 - c) (255 - d) =
      omega (arith, to_bytes x h) in
    omega (
      arith,
      ap (byte_swap 4) flipped,
      swap_bytes (255 - a) (255 - b) (255 - c) (255 - d) (omega arith) (omega arith) (omega arith)
          (omega arith),
      ap (byte_swap 4) (to_bytes x h),
      swap_bytes a b c d (omega arith) (omega arith) (omega arith) (omega arith),
    )

module _ (op : ℕ → ℕ → ℕ) (op-lt : (i a b : ℕ) → a < 2 ^ i → b < 2 ^ i → op a b < 2 ^ i)
    (op-join : (i a b c d : ℕ)
      → a < 2 ^ i
      → c < 2 ^ i
      → op (a + b * 2 ^ i) (c + d * 2 ^ i) ≡ op a c + op b d * 2 ^ i) where
  op-bytes :
      (a b c d a' b' c' d' : ℕ)
      → a < 256
      → b < 256
      → c < 256
      → a' < 256
      → b' < 256
      → c' < 256
      → op (of_bytes a b c d) (of_bytes a' b' c' d')
        ≡ of_bytes (op a a') (op b b') (op c c') (op d d')
  op-bytes a b c d a' b' c' d' p q r p' q' r' =
      op-join 8 a (b + (c + d * 2 ^ 8) * 2 ^ 8) a' (b' + (c' + d' * 2 ^ 8) * 2 ^ 8) p p'
      ∙ ap (λ x. op a a' + x * 2 ^ 8) (op-join 8 b (c + d * 2 ^ 8) b' (c' + d' * 2 ^ 8) q q')
      ∙ ap (λ x. op a a' + (op b b' + x * 2 ^ 8) * 2 ^ 8) (op-join 8 c d c' d' r r')

  swap-op :
      (x y : ℕ)
      → x < 2 ^ 32
      → y < 2 ^ 32
      → byte_swap 4 (op x y) ≡ op (byte_swap 4 x) (byte_swap 4 y)
  swap-op x y h k =
      let a = x % 256 in
      let b = x / 256 % 256 in
      let c = x / 65536 % 256 in
      let d = x / 16777216 in
      let a' = y % 256 in
      let b' = y / 256 % 256 in
      let c' = y / 65536 % 256 in
      let d' = y / 16777216 in
      let pa : a < 2 ^ 8 = omega arith in
      let pb : b < 2 ^ 8 = omega arith in
      let pc : c < 2 ^ 8 = omega arith in
      let pd : d < 2 ^ 8 = omega arith in
      let qa : a' < 2 ^ 8 = omega arith in
      let qb : b' < 2 ^ 8 = omega arith in
      let qc : c' < 2 ^ 8 = omega arith in
      let qd : d' < 2 ^ 8 = omega arith in
      let left : byte_swap 4 (op x y) ≡ of_bytes (op d d') (op c c') (op b b') (op a a') =
        ap (byte_swap 4)
          (ap₂ op (to_bytes x h) (to_bytes y k) ∙ op-bytes a b c d a' b' c' d' pa pb pc qa qb qc)
        ∙ swap_bytes (op a a') (op b b') (op c c') (op d d') (op-lt 8 a a' pa qa)
            (op-lt 8 b b' pb qb) (op-lt 8 c c' pc qc) (op-lt 8 d d' pd qd) in
      let right : op (byte_swap 4 x) (byte_swap 4 y)
          ≡ of_bytes (op d d') (op c c') (op b b') (op a a') =
        ap₂ (λ u v. op (byte_swap 4 u) (byte_swap 4 v)) (to_bytes x h) (to_bytes y k)
        ∙ ap₂ op (swap_bytes a b c d pa pb pc pd) (swap_bytes a' b' c' d' qa qb qc qd)
        ∙ op-bytes d c b a d' c' b' a' pd pc pb qd qc qb in
      left ∙ sym right

module _ (native : Endian) where
  pub host-host : (x : ℕ) → x < 2 ^ 32 → host native (host native x) ≡ x
  unfolding host endian_cast
  host-host x h = elim native as (λ e. endian_cast e 4 (endian_cast e 4 x big) big ≡ x) [
    | little ↦ swap_swap x h
    | big ↦ refl
  ]

  pub host-lt : (x : ℕ) → x < 2 ^ 32 → host native x < 2 ^ 32
  unfolding host endian_cast
  host-lt x h = elim native as (λ e. endian_cast e 4 x big < 2 ^ 32) [
    | little ↦ swap-lt x h
    | big ↦ h
  ]

  pub host-complement :
      (x : ℕ) → x < 2 ^ 32 → host native (complement 32 x) ≡ complement 32 (host native x)
  unfolding host endian_cast
  host-complement x h =
      elim native
        as (λ e. endian_cast e 4 (complement 32 x) big ≡ complement 32 (endian_cast e 4 x big)) [
          | little ↦ swap-complement x h
          | big ↦ refl
        ]

  pub host-or :
      (x y : ℕ)
      → x < 2 ^ 32
      → y < 2 ^ 32
      → host native (bit_or x y) ≡ bit_or (host native x) (host native y)
  unfolding host endian_cast
  host-or x y h k =
      elim native
        as (λ e.
          endian_cast e 4 (bit_or x y) big
          ≡ bit_or (endian_cast e 4 x big) (endian_cast e 4 y big)) [
            | little ↦ swap-op bit_or bit_or-lt bit_or-join x y h k
            | big ↦ refl
          ]

  pub host-and :
      (x y : ℕ)
      → x < 2 ^ 32
      → y < 2 ^ 32
      → host native (bit_and x y) ≡ bit_and (host native x) (host native y)
  unfolding host endian_cast
  host-and x y h k =
      elim native
        as (λ e.
          endian_cast e 4 (bit_and x y) big
          ≡ bit_and (endian_cast e 4 x big) (endian_cast e 4 y big)) [
            | little ↦ swap-op bit_and bit_and-lt bit_and-join x y h k
            | big ↦ refl
          ]
