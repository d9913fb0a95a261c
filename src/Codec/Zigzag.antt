-- ===== src/Codec/Zigzag.antt =====
-- The zigzag coding of utils/byte_array.cpp. An `int32_t` or `int64_t` is its bit pattern. `-v` of
-- the least value and `v * 2` of a large one overflow a signed integer, which is undefined.
use xzmjx_rpc.Prelude.{
  ℕ, ◌+◌, ◌-◌, ◌*◌, ◌/◌, ◌%◌, ◌^◌, ◌≤◌, ◌<◌, ◌≡◌, refl, ap, ◌∙◌, arith, if◌then◌else◌, leb, ◌==◌,
  bit_and, bit_xor, inl, inr, le→leb, gt→leb, ne→==, ==_self, ◌⊎◌, Outcome, ok, crashed,
}
use xzmjx_rpc.Prelude.Bits.{bit_and_one, bit_xor-zero, bit_xor_ones}
use native.Mathlib.Decide.{dec_lt}

unfoldable pub encode_zigzag32 : ℕ → Outcome ℕ
encode_zigzag32 v =
    if leb (2 ^ 31) v
    then (if v == 2 ^ 31 then crashed else ok (((2 ^ 32 - v) * 2 + 2 ^ 32 - 1) % 2 ^ 32))
    else if leb (2 ^ 30) v
    then crashed
    else ok (v * 2)

unfoldable pub encode_zigzag64 : ℕ → Outcome ℕ
encode_zigzag64 v =
    if leb (2 ^ 63) v
    then (if v == 2 ^ 63 then crashed else ok (((2 ^ 64 - v) * 2 + 2 ^ 64 - 1) % 2 ^ 64))
    else if leb (2 ^ 62) v
    then crashed
    else ok (v * 2)

unfoldable pub decode_zigzag32 : ℕ → ℕ
decode_zigzag32 v = bit_xor (v / 2) ((2 ^ 32 - bit_and v 1) % 2 ^ 32)

unfoldable pub decode_zigzag64 : ℕ → ℕ
decode_zigzag64 v = bit_xor (v / 2) ((2 ^ 64 - bit_and v 1) % 2 ^ 64)

decode32_even : (v : ℕ) → v % 2 ≡ 0 → decode_zigzag32 v ≡ v / 2
unfolding decode_zigzag32
decode32_even v e =
    ap (λ b. bit_xor (v / 2) ((2 ^ 32 - b) % 2 ^ 32)) (bit_and_one v ∙ e) ∙ bit_xor-zero (v / 2)

decode32_odd : (v : ℕ) → v < 2 ^ 32 → v % 2 ≡ 1 → decode_zigzag32 v ≡ 2 ^ 32 - 1 - v / 2
unfolding decode_zigzag32
decode32_odd v h e =
    ap (λ b. bit_xor (v / 2) ((2 ^ 32 - b) % 2 ^ 32)) (bit_and_one v ∙ e)
    ∙ bit_xor_ones 32 (v / 2) (omega arith)

decode64_even : (v : ℕ) → v % 2 ≡ 0 → decode_zigzag64 v ≡ v / 2
unfolding decode_zigzag64
decode64_even v e =
    ap (λ b. bit_xor (v / 2) ((2 ^ 64 - b) % 2 ^ 64)) (bit_and_one v ∙ e) ∙ bit_xor-zero (v / 2)

decode64_odd : (v : ℕ) → v < 2 ^ 64 → v % 2 ≡ 1 → decode_zigzag64 v ≡ 2 ^ 64 - 1 - v / 2
unfolding decode_zigzag64
decode64_odd v h e =
    ap (λ b. bit_xor (v / 2) ((2 ^ 64 - b) % 2 ^ 64)) (bit_and_one v ∙ e)
    ∙ bit_xor_ones 64 (v / 2) (omega arith)

-- The integers that are coded: the negative ones but the least, and those whose double is an
-- integer of the type.
abbrev pub IsCoded32 : ℕ → Type 0
IsCoded32 v = (v < 2 ^ 30) ⊎ ((2 ^ 31 < v) × (v < 2 ^ 32))

abbrev pub IsCoded64 : ℕ → Type 0
IsCoded64 v = (v < 2 ^ 62) ⊎ ((2 ^ 63 < v) × (v < 2 ^ 64))

-- The words that code them.
abbrev pub zigzag32 : ℕ → ℕ
zigzag32 v = if leb (2 ^ 31) v then (2 ^ 32 - v) * 2 - 1 else v * 2

abbrev pub zigzag64 : ℕ → ℕ
zigzag64 v = if leb (2 ^ 63) v then (2 ^ 64 - v) * 2 - 1 else v * 2

-- A word is the code of an integer, and is decoded to it.
pub record Codes32 (v u : ℕ) : Type 0 where
  pub coded : encode_zigzag32 v ≡ ok u
  pub word_lt : u < 2 ^ 32
  pub decoded : decode_zigzag32 u ≡ v

pub record Codes64 (v u : ℕ) : Type 0 where
  pub coded : encode_zigzag64 v ≡ ok u
  pub word_lt : u < 2 ^ 64
  pub decoded : decode_zigzag64 u ≡ v

pub zigzag32-Codes : (v : ℕ) → IsCoded32 v → Codes32 v (zigzag32 v)
unfolding encode_zigzag32
zigzag32-Codes v (inl h) = rw (gt→leb (2 ^ 31) v (omega arith)) (record {
  coded = rw (gt→leb (2 ^ 31) v (omega arith), gt→leb (2 ^ 30) v h) refl;
  word_lt = omega arith;
  decoded = decode32_even (v * 2) (omega arith) ∙ (let e : v * 2 / 2 ≡ v = omega arith in e);
})
zigzag32-Codes v (inr (h, k)) = rw (le→leb (2 ^ 31) v (omega arith)) (record {
  coded =
      rw (le→leb (2 ^ 31) v (omega arith), ne→== v (2 ^ 31) (λ e. absurd (omega (arith, e))))
        (ap ok (
          let e : ((2 ^ 32 - v) * 2 + 2 ^ 32 - 1) % 2 ^ 32 ≡ (2 ^ 32 - v) * 2 - 1 = omega arith in
          e));
  word_lt = omega arith;
  decoded =
      decode32_odd ((2 ^ 32 - v) * 2 - 1) (omega arith) (omega arith)
      ∙ (let e : 2 ^ 32 - 1 - ((2 ^ 32 - v) * 2 - 1) / 2 ≡ v = omega arith in e);
})

overflow32 : (v : ℕ) → 2 ^ 30 ≤ v → v ≤ 2 ^ 31 → encode_zigzag32 v ≡ crashed
unfolding encode_zigzag32
overflow32 v h k = elim (dec_lt v (2 ^ 31)) [
  | yes p ↦ rw (gt→leb (2 ^ 31) v p, le→leb (2 ^ 30) v h) refl
  | no p ↦
      let e : v ≡ 2 ^ 31 = omega arith in
      rw (le→leb (2 ^ 31) v (omega arith), ap (λ n. n == 2 ^ 31) e ∙ ==_self (2 ^ 31)) refl
]

split32 : (v : ℕ) → v < 2 ^ 32 → IsCoded32 v ⊎ ((2 ^ 30 ≤ v) × (v ≤ 2 ^ 31))
split32 v h = elim (dec_lt v (2 ^ 30)) [
  | yes p ↦ inl (inl p)
  | no p ↦ elim (dec_lt (2 ^ 31) v) [
    | yes q ↦ inl (inr (q, h))
    | no q ↦ inr (omega arith, omega arith)
  ]
]

-- How the coding of one integer ends.
abbrev pub Coding32 : ℕ → Type 0
Coding32 v =
    (IsCoded32 v × (u : ℕ) × Codes32 v u)
    ⊎ ((2 ^ 30 ≤ v) × (v ≤ 2 ^ 31) × (encode_zigzag32 v ≡ crashed))

coding32 : (v : ℕ) → v < 2 ^ 32 → Coding32 v
coding32 v h = elim (split32 v h) [
  | inl c ↦ inl (c, zigzag32 v, zigzag32-Codes v c)
  | inr (l, r) ↦ inr (l, r, overflow32 v l r)
]

pub zigzag64-Codes : (v : ℕ) → IsCoded64 v → Codes64 v (zigzag64 v)
unfolding encode_zigzag64
zigzag64-Codes v (inl h) = rw (gt→leb (2 ^ 63) v (omega arith)) (record {
  coded = rw (gt→leb (2 ^ 63) v (omega arith), gt→leb (2 ^ 62) v h) refl;
  word_lt = omega arith;
  decoded = decode64_even (v * 2) (omega arith) ∙ (let e : v * 2 / 2 ≡ v = omega arith in e);
})
zigzag64-Codes v (inr (h, k)) = rw (le→leb (2 ^ 63) v (omega arith)) (record {
  coded =
      rw (le→leb (2 ^ 63) v (omega arith), ne→== v (2 ^ 63) (λ e. absurd (omega (arith, e))))
        (ap ok (
          let e : ((2 ^ 64 - v) * 2 + 2 ^ 64 - 1) % 2 ^ 64 ≡ (2 ^ 64 - v) * 2 - 1 = omega arith in
          e));
  word_lt = omega arith;
  decoded =
      decode64_odd ((2 ^ 64 - v) * 2 - 1) (omega arith) (omega arith)
      ∙ (let e : 2 ^ 64 - 1 - ((2 ^ 64 - v) * 2 - 1) / 2 ≡ v = omega arith in e);
})

overflow64 : (v : ℕ) → 2 ^ 62 ≤ v → v ≤ 2 ^ 63 → encode_zigzag64 v ≡ crashed
unfolding encode_zigzag64
overflow64 v h k = elim (dec_lt v (2 ^ 63)) [
  | yes p ↦ rw (gt→leb (2 ^ 63) v p, le→leb (2 ^ 62) v h) refl
  | no p ↦
      let e : v ≡ 2 ^ 63 = omega arith in
      rw (le→leb (2 ^ 63) v (omega arith), ap (λ n. n == 2 ^ 63) e ∙ ==_self (2 ^ 63)) refl
]

split64 : (v : ℕ) → v < 2 ^ 64 → IsCoded64 v ⊎ ((2 ^ 62 ≤ v) × (v ≤ 2 ^ 63))
split64 v h = elim (dec_lt v (2 ^ 62)) [
  | yes p ↦ inl (inl p)
  | no p ↦ elim (dec_lt (2 ^ 63) v) [
    | yes q ↦ inl (inr (q, h))
    | no q ↦ inr (omega arith, omega arith)
  ]
]

-- How the coding of one integer ends.
abbrev pub Coding64 : ℕ → Type 0
Coding64 v =
    (IsCoded64 v × (u : ℕ) × Codes64 v u)
    ⊎ ((2 ^ 62 ≤ v) × (v ≤ 2 ^ 63) × (encode_zigzag64 v ≡ crashed))

coding64 : (v : ℕ) → v < 2 ^ 64 → Coding64 v
coding64 v h = elim (split64 v h) [
  | inl c ↦ inl (c, zigzag64 v, zigzag64-Codes v c)
  | inr (l, r) ↦ inr (l, r, overflow64 v l r)
]

-- Both zigzag codings, on every 32-bit and every 64-bit pattern: an integer below 2 ^ 30, or 2 ^ 62,
-- and a negative one that is not the least, is coded by a word of its width, which is decoded to
-- it; any other overflows a signed integer, which is undefined.
pub zigzag_roundtrip : (v w : ℕ) → v < 2 ^ 32 → w < 2 ^ 64 → Coding32 v × Coding64 w
zigzag_roundtrip v w hv hw = (coding32 v hv, coding64 w hw)
