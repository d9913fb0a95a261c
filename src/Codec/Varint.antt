-- ===== src/Codec/Varint.antt =====
-- The integers of variable length of utils/byte_array.cpp: `writeUint32`, `writeUint64`,
-- `readUint32` and `readUint64`.
use xzmjx_rpc.Prelude.{
  ℕ, zero, suc, ◌+◌, ◌*◌, ◌/◌, ◌%◌, ◌^◌, ◌≤◌, ◌<◌, ◌≡◌, refl, ap, subst, ◌∙◌, List, [], ◌∷◌, arith,
  length, if◌then◌else◌, ◌==◌, leb, Option, none, some, bit_and, bit_or, Outcome, ok, crashed,
  ◌>>=◌, Bool-cases, inl, inr, leb→gt, gt→leb,
}
use xzmjx_rpc.Prelude.Bits.{bit_and_127, bit_and_top, bit_or_disjoint}
use xzmjx_rpc.ByteArray.Defs.{ByteArray, write, read}
use xzmjx_rpc.ByteArray.Tape.{
  Writes, Reads, write_append, read-Reads, Reads-then, Reads-map, advanced,
}
use xzmjx_rpc.Codec.Endian.{of_le, one_byte}
use mathlib.Core.Option
use native.Mathlib.Nat.{mod-eq_of_lt, div-add-mod, pow-suc, mul-le-mul_right}
use native.Mathlib.Numerals.{towards_suc}

-- The `while` loop over `value` with its array `tmp`, of which `room` bytes are left: the bytes
-- that it stores, or `none` for a store past the end of `tmp`.
unfoldable pub groups : ℕ → ℕ → Option (List ℕ)
groups zero v = none
groups (suc room) v =
    let rest = groups room (v / 128) in
    if leb 0x80 v
    then Option.map (λ bytes. bit_or (bit_and v 0x7f) 0x80 ∷ bytes) rest
    else some (v % 256 ∷ [])

unfoldable pub write_tmp : Option (List ℕ) → ByteArray → Outcome ByteArray
write_tmp none s = crashed
write_tmp (some bytes) s = write bytes s

-- `uint8_t tmp[5]` and `uint8_t tmp[10]`.
unfoldable pub write_uint32 : ℕ → ByteArray → Outcome ByteArray
unfolding groups write_tmp
write_uint32 v s = write_tmp (groups 5 v) s

unfoldable pub write_uint64 : ℕ → ByteArray → Outcome ByteArray
unfolding groups write_tmp
write_uint64 v s = write_tmp (groups 10 v) s

-- One byte, `readFuint8`.
unfoldable pub read_byte : ByteArray → Outcome (ℕ × ByteArray)
read_byte s = read 1 s >>= λ r. ok (of_le r.0, r.1)

-- The `for` loop over the shift `i`, in steps of 7, with its rounds left. `width` is the number of
-- bits of `ans`.
unfoldable pub read_groups : ℕ → ℕ → ℕ → ℕ → ByteArray → Outcome (ℕ × ByteArray)
unfolding read_byte
read_groups zero width i ans s = ok (ans, s)
read_groups (suc rounds) width i ans s = read_byte s >>= λ r.
    let more =
      read_groups rounds width (i + 7) (bit_or ans (bit_and r.0 0x7f * 2 ^ i % 2 ^ width)) r.1 in
    if bit_and r.0 0x80 == 0 then ok (bit_or ans (r.0 * 2 ^ i % 2 ^ width), r.1) else more

-- `i` runs over 0, 7, ..., 28 and over 0, 7, ..., 63.
unfoldable pub read_uint32 : ByteArray → Outcome (ℕ × ByteArray)
unfolding read_groups
read_uint32 s = read_groups 5 32 0 0 s

unfoldable pub read_uint64 : ByteArray → Outcome (ℕ × ByteArray)
unfolding read_groups
read_uint64 s = read_groups 10 64 0 0 s

-- The format in plain arithmetic: groups of seven bits, lowest first, all but the last marked.
unfoldable pub encoding : ℕ → ℕ → List ℕ
encoding zero v = v ∷ []
encoding (suc k) v =
    let rest = encoding k (v / 128) in if leb 0x80 v then (v % 128 + 128) ∷ rest else v ∷ []

group : (v : ℕ) → bit_or (bit_and v 0x7f) 0x80 ≡ v % 128 + 128
group v = ap (λ x. bit_or x 0x80) (bit_and_127 v) ∙ bit_or_disjoint 7 (v % 128) 1 (omega arith)

groups-encoding : (k v : ℕ) → v < 128 ^ suc k → groups (suc k) v ≡ some (encoding k v)
unfolding groups encoding
groups-encoding zero v h =
    let e : v % 256 ≡ v = omega arith in rw (gt→leb 0x80 v (omega arith), e) refl
groups-encoding (suc k) v h = elim (Bool-cases (leb 0x80 v)) [
  | inl big ↦
      let p : 128 ^ suc (suc k) ≡ 128 * 128 ^ suc k = omega (arith, pow-suc 128 (suc k)) in
      rw (big, group v, groups-encoding k (v / 128) (omega (arith, p))) refl
  | inr small ↦
      let lt : v < 128 = leb→gt _ _ small in let e : v % 256 ≡ v = omega arith in rw (small, e) refl
]

pub length-encoding : (k v : ℕ) → (1 ≤ length (encoding k v)) × (length (encoding k v) ≤ suc k)
unfolding encoding
length-encoding zero v = omega arith
length-encoding (suc k) v = ground (arith, length-encoding k (v / 128))

-- `writeUint32` and `writeUint64` append the groups and never store past their arrays.
pub write_uint32-Writes : (v : ℕ) → v < 2 ^ 32 → Writes (write_uint32 v) (encoding 4 v)
unfolding write_uint32
write_uint32-Writes v h s sm e fits =
    ap (λ o. write_tmp o s) (groups-encoding 4 v (omega arith))
    ∙ write_append (encoding 4 v) s sm e fits

pub write_uint64-Writes : (v : ℕ) → v < 2 ^ 64 → Writes (write_uint64 v) (encoding 9 v)
unfolding write_uint64
write_uint64-Writes v h s sm e fits =
    ap (λ o. write_tmp o s) (groups-encoding 9 v (omega arith))
    ∙ write_append (encoding 9 v) s sm e fits

pub read_byte-Reads : (b : ℕ) → Reads read_byte (b ∷ []) b
unfolding read_byte
read_byte-Reads b s more sm e =
    Reads-map (read 1) of_le (b ∷ []) (read-Reads (b ∷ [])) s more sm e
    ∙ ap (λ x. ok (x, advanced s 1)) (one_byte b)

seven_more : (i : ℕ) → 2 ^ (i + 7) ≡ 128 * 2 ^ i
seven_more i = simp towards_suc (omega arith)

-- The lowest group of `w` and the rest, both shifted by `i`.
shifted : (w i : ℕ) → w * 2 ^ i ≡ w % 128 * 2 ^ i + w / 128 * 2 ^ (i + 7)
shifted w i = omega (
  arith,
  ap (λ (t : ℕ). t * 2 ^ i) (div-add-mod w 128),
  ap (λ (t : ℕ). w / 128 * t) (seven_more i),
)

module _ (width : ℕ) where
  last_group :
      (rounds i ans b : ℕ)
      → b < 128
      → ans < 2 ^ i
      → ans + b * 2 ^ i < 2 ^ width
      → Reads (read_groups (suc rounds) width i ans) (b ∷ []) (ans + b * 2 ^ i)
  unfolding read_groups
  last_group rounds i ans b hb ha fits s more sm e =
      let top : bit_and b 0x80 ≡ 0 =
        bit_and_top b (omega arith) ∙ (let q : b / 128 * 128 ≡ 0 = omega arith in q) in
      let keep : b * 2 ^ i % 2 ^ width ≡ b * 2 ^ i = mod-eq_of_lt (omega arith) in
      rw (read_byte-Reads b s more sm e, top, keep, bit_or_disjoint i ans b ha) refl

  -- A marked byte over the group `g` goes on with the next round.
  inner_group :
      (rounds i ans g : ℕ) (bytes : List ℕ) (v : ℕ)
      → g < 128
      → ans < 2 ^ i
      → g * 2 ^ i < 2 ^ width
      → Reads (read_groups rounds width (i + 7) (ans + g * 2 ^ i)) bytes v
      → Reads (read_groups (suc rounds) width i ans) ((g + 128) ∷ bytes) v
  inner_group rounds i ans g bytes v hg ha fits next s more sm e =
      step s
      ∙ Reads-then read_byte
          (λ b. λ (s' : ByteArray).
            if bit_and b 0x80 == 0
            then ok (bit_or ans (b * 2 ^ i % 2 ^ width), s')
            else read_groups rounds width (i + 7) (bit_or ans (bit_and b 0x7f * 2 ^ i % 2 ^ width))
                s')
          ((g + 128) ∷ []) bytes (read_byte-Reads (g + 128)) marked s more sm e
    where
      step :
          (s : ByteArray)
          → read_groups (suc rounds) width i ans s ≡ (
              read_byte s >>= λ r.
              if bit_and r.0 0x80 == 0
              then ok (bit_or ans (r.0 * 2 ^ i % 2 ^ width), r.1)
              else read_groups rounds width
                  (i + 7)
                  (bit_or ans (bit_and r.0 0x7f * 2 ^ i % 2 ^ width))
                  r.1)
      step s = unfold read_groups in refl

      marked :
          Reads
            (λ (s' : ByteArray).
              if bit_and (g + 128) 0x80 == 0
              then ok (bit_or ans ((g + 128) * 2 ^ i % 2 ^ width), s')
              else read_groups rounds width
                  (i + 7)
                  (bit_or ans (bit_and (g + 128) 0x7f * 2 ^ i % 2 ^ width))
                  s')
            bytes
            v
      marked s more sm e =
          let top : bit_and (g + 128) 0x80 ≡ 128 =
            bit_and_top (g + 128) (omega arith)
            ∙ (let q : (g + 128) / 128 * 128 ≡ 128 = omega arith in q) in
          let low : bit_and (g + 128) 0x7f ≡ g =
            bit_and_127 (g + 128) ∙ (let q : (g + 128) % 128 ≡ g = omega arith in q) in
          let keep : g * 2 ^ i % 2 ^ width ≡ g * 2 ^ i = mod-eq_of_lt fits in
          rw (top, low, keep, bit_or_disjoint i ans g ha) (next s more sm e)

  read_groups-encoding :
      (k i ans v : ℕ)
      → v < 128 ^ suc k
      → ans < 2 ^ i
      → ans + v * 2 ^ i < 2 ^ width
      → Reads (read_groups (suc k) width i ans) (encoding k v) (ans + v * 2 ^ i)
  unfolding encoding
  read_groups-encoding zero i ans v h ha fits = last_group zero i ans v (omega arith) ha fits
  read_groups-encoding (suc k) i ans v h ha fits = elim (Bool-cases (leb 0x80 v)) [
    | inl big ↦
        let p : 128 ^ suc (suc k) ≡ 128 * 128 ^ suc k = omega (arith, pow-suc 128 (suc k)) in
        let sh = shifted v i in
        let s7 = seven_more i in
        let total : ans + v % 128 * 2 ^ i + v / 128 * 2 ^ (i + 7) ≡ ans + v * 2 ^ i =
          omega (arith, sh) in
        let low : v % 128 * 2 ^ i ≤ 127 * 2 ^ i = mul-le-mul_right (2 ^ i) (omega arith) in
        rw big (
          inner_group (suc k) i ans (v % 128) (encoding k (v / 128)) (ans + v * 2 ^ i) (omega arith)
            ha (omega (arith, sh))
            (rw (← total) (
              read_groups-encoding k (i + 7) (ans + v % 128 * 2 ^ i) (v / 128) (omega (arith, p))
                (omega (arith, s7, low)) (omega (arith, total)))))
    | inr small ↦ rw small (last_group (suc k) i ans v (leb→gt _ _ small) ha fits)
  ]

-- `readUint32` and `readUint64` read back what was written, and leave what follows.
pub read_uint32-Reads : (v : ℕ) → v < 2 ^ 32 → Reads read_uint32 (encoding 4 v) v
unfolding read_uint32
read_uint32-Reads v h =
    let e : 0 + v * 2 ^ 0 ≡ v = omega arith in
    subst (λ x. Reads (read_groups 5 32 0 0) (encoding 4 v) x) e
      (read_groups-encoding 32 4 0 0 v (omega arith) (omega arith) (omega arith))

pub read_uint64-Reads : (v : ℕ) → v < 2 ^ 64 → Reads read_uint64 (encoding 9 v) v
unfolding read_uint64
read_uint64-Reads v h =
    let e : 0 + v * 2 ^ 0 ≡ v = omega arith in
    subst (λ x. Reads (read_groups 10 64 0 0) (encoding 9 v) x) e
      (read_groups-encoding 64 9 0 0 v (omega arith) (omega arith) (omega arith))
