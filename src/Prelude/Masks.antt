-- ===== src/Prelude/Masks.antt =====
-- The bit operations on numbers that are cut in two, and on masks of ones.
use Prim.Native.Nat.{ℕ, zero, suc, ◌+◌, ◌-◌, ◌*◌, ◌/◌, ◌%◌, ◌^◌, ◌<◌, min, max, bit_and, bit_or}
use mathlib.Core.Path.{◌≡◌, ap, ap₂, ◌∙◌, sym}
use native.Mathlib.Nat.{pow-suc}
use native.Mathlib.Omega.{arith}
use xzmjx_rpc.Prelude.Bits.{
  and_lowest, or_lowest, zero-bit_and, zero-bit_or, bit_and-zero, or_zero_below,
}

-- An operation that works on each binary digit alone.
module _ (op low : ℕ → ℕ → ℕ)
    (law : (a b : ℕ) → op a b ≡ op (a / 2) (b / 2) * 2 + low (a % 2) (b % 2))
    (low_lt : (a b : ℕ) → a < 2 → b < 2 → low a b < 2) (zeros : op 0 0 ≡ 0) where
  digitwise-lt : (i a b : ℕ) → a < 2 ^ i → b < 2 ^ i → op a b < 2 ^ i
  digitwise-lt zero a b p q =
      let ea : a ≡ 0 = omega arith in
      let eb : b ≡ 0 = omega arith in omega (arith, ap₂ op ea eb, zeros)
  digitwise-lt (suc i) a b p q =
      let w : 2 ^ suc i ≡ 2 * 2 ^ i = omega (arith, pow-suc 2 i) in
      omega (
        arith,
        w,
        law a b,
        low_lt (a % 2) (b % 2) (omega arith) (omega arith),
        digitwise-lt i (a / 2) (b / 2) (omega (arith, w)) (omega (arith, w)),
      )

  digitwise-join :
      (i a b c d : ℕ)
      → a < 2 ^ i
      → c < 2 ^ i
      → op (a + b * 2 ^ i) (c + d * 2 ^ i) ≡ op a c + op b d * 2 ^ i
  digitwise-join zero a b c d p q =
      let ea : a ≡ 0 = omega arith in
      let ec : c ≡ 0 = omega arith in
      let eb : a + b * 2 ^ 0 ≡ b = omega (arith, ea) in
      let ed : c + d * 2 ^ 0 ≡ d = omega (arith, ec) in
      omega (arith, ap₂ op eb ed, ap₂ op ea ec, zeros)
  digitwise-join (suc i) a b c d p q =
      let w : 2 ^ suc i ≡ 2 * 2 ^ i = omega (arith, pow-suc 2 i) in
      let twice : (x : ℕ) → x * 2 ^ suc i ≡ 2 * (x * 2 ^ i) = λ (x : ℕ).
        ap (λ y. x * y) w ∙ (let e : x * (2 * 2 ^ i) ≡ 2 * (x * 2 ^ i) = omega arith in e) in
      let ha : (a + b * 2 ^ suc i) / 2 ≡ a / 2 + b * 2 ^ i = omega (arith, twice b) in
      let hc : (c + d * 2 ^ suc i) / 2 ≡ c / 2 + d * 2 ^ i = omega (arith, twice d) in
      let la : (a + b * 2 ^ suc i) % 2 ≡ a % 2 = omega (arith, twice b) in
      let lc : (c + d * 2 ^ suc i) % 2 ≡ c % 2 = omega (arith, twice d) in
      omega (
        arith,
        law (a + b * 2 ^ suc i) (c + d * 2 ^ suc i),
        law a c,
        ap₂ op ha hc,
        ap₂ low la lc,
        twice (op b d),
        digitwise-join i (a / 2) b (c / 2) d (omega (arith, w)) (omega (arith, w)),
      )

pub bit_or-lt : (i a b : ℕ) → a < 2 ^ i → b < 2 ^ i → bit_or a b < 2 ^ i
bit_or-lt = digitwise-lt bit_or max or_lowest (λ a b p q. omega arith) (zero-bit_or 0)

pub bit_or-join :
    (i a b c d : ℕ)
    → a < 2 ^ i
    → c < 2 ^ i
    → bit_or (a + b * 2 ^ i) (c + d * 2 ^ i) ≡ bit_or a c + bit_or b d * 2 ^ i
bit_or-join = digitwise-join bit_or max or_lowest (λ a b p q. omega arith) (zero-bit_or 0)

pub bit_and-lt : (i a b : ℕ) → a < 2 ^ i → b < 2 ^ i → bit_and a b < 2 ^ i
bit_and-lt = digitwise-lt bit_and min and_lowest (λ a b p q. omega arith) (zero-bit_and 0)

pub bit_and-join :
    (i a b c d : ℕ)
    → a < 2 ^ i
    → c < 2 ^ i
    → bit_and (a + b * 2 ^ i) (c + d * 2 ^ i) ≡ bit_and a c + bit_and b d * 2 ^ i
bit_and-join = digitwise-join bit_and min and_lowest (λ a b p q. omega arith) (zero-bit_and 0)

-- A mask of `k` ones.
or_ones : (k a : ℕ) → a < 2 ^ k → bit_or a (2 ^ k - 1) ≡ 2 ^ k - 1
or_ones zero a h = let e : a ≡ 0 = omega arith in ap (λ x. bit_or x 0) e ∙ zero-bit_or 0
or_ones (suc k) a h =
    let p : 2 ^ suc k ≡ 2 * 2 ^ k = omega (arith, pow-suc 2 k) in
    let half : (2 ^ suc k - 1) / 2 ≡ 2 ^ k - 1 = omega (arith, p, h) in
    omega (
      arith,
      p,
      or_lowest a (2 ^ suc k - 1),
      ap (λ x. bit_or (a / 2) x) half,
      or_ones k (a / 2) (omega (arith, p)),
    )

and_ones : (k a : ℕ) → a < 2 ^ k → bit_and a (2 ^ k - 1) ≡ a
and_ones zero a h = let e : a ≡ 0 = omega arith in ap (λ x. bit_and x 0) e ∙ zero-bit_and 0 ∙ sym e
and_ones (suc k) a h =
    let p : 2 ^ suc k ≡ 2 * 2 ^ k = omega (arith, pow-suc 2 k) in
    let half : (2 ^ suc k - 1) / 2 ≡ 2 ^ k - 1 = omega (arith, p, h) in
    omega (
      arith,
      p,
      and_lowest a (2 ^ suc k - 1),
      ap (λ x. bit_and (a / 2) x) half,
      and_ones k (a / 2) (omega (arith, p)),
    )

-- The low `k` bits set, and the low `k` bits cleared in a number of `k + m` bits.
pub or_mask : (k a b : ℕ) → a < 2 ^ k → bit_or (a + b * 2 ^ k) (2 ^ k - 1) ≡ 2 ^ k - 1 + b * 2 ^ k
or_mask k a b h =
    let e : 2 ^ k - 1 ≡ 2 ^ k - 1 + 0 * 2 ^ k = omega arith in
    ap (λ x. bit_or (a + b * 2 ^ k) x) e
    ∙ bit_or-join k a b (2 ^ k - 1) 0 h (omega (arith, h))
    ∙ ap₂ (λ x y. x + y * 2 ^ k) (or_ones k a h) (or_zero_below b b (omega arith))

pub and_mask :
    (k m a b : ℕ)
    → a < 2 ^ k
    → b < 2 ^ m
    → bit_and (a + b * 2 ^ k) (0 + (2 ^ m - 1) * 2 ^ k) ≡ b * 2 ^ k
and_mask k m a b h l =
    bit_and-join k a b 0 (2 ^ m - 1) h (omega (arith, h))
    ∙ ap₂ (λ x y. x + y * 2 ^ k) (bit_and-zero a) (and_ones m b l)
    ∙ (let e : 0 + b * 2 ^ k ≡ b * 2 ^ k = omega arith in e)
