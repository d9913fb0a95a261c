-- ===== src/Prelude/Bits.antt =====
-- The native bit operations at variables: one equation for the lowest digit, and what follows from
-- it for masks, for joining disjoint fields and for the complement.
use Prim.Native.Nat.{
  ℕ, zero, suc, ◌+◌, ◌-◌, ◌*◌, ◌/◌, ◌%◌, ◌^◌, ◌≤◌, ◌<◌, min, max, bit_and, bit_or, bit_xor, digits,
  bitwise, bit_and-bitwise, bit_or-bitwise, bit_xor-bitwise,
}
use mathlib.Core.Path.{◌≡◌, refl, ap, ◌∙◌, sym}
use mathlib.Core.Bool.{Bool, true, ◌&&◌}
use native.Mathlib.Nat.{pow-suc}
use Prim.Native.Nat.{differ}
use native.Mathlib.Omega.{arith}
use xzmjx_rpc.Prelude.Tests.{◌==◌, ==→eq}

module _ (z : ℕ → ℕ) (f : ℕ → ℕ → ℕ) where
  -- The count of digits to go may be any that is large enough.
  digits_count : (n : ℕ) (m : ℕ) (a b : ℕ) → a ≤ n → a ≤ m → digits z f n a b ≡ digits z f m a b
  digits_count zero zero a b p q = refl
  digits_count zero (suc m) zero b p q = refl
  digits_count zero (suc m) (suc a) b p q = absurd (omega arith)
  digits_count (suc n) zero zero b p q = refl
  digits_count (suc n) zero (suc a) b p q = absurd (omega arith)
  digits_count (suc n) (suc m) zero b p q = refl
  digits_count (suc n) (suc m) (suc a) b p q =
      ap (λ d. d * 2 + f (suc a % 2) (b % 2))
        (digits_count n m (suc a / 2) (b / 2) (omega arith) (omega arith))

  lowest :
      (a b : ℕ)
      → bitwise z f (suc a) b ≡ bitwise z f (suc a / 2) (b / 2) * 2 + f (suc a % 2) (b % 2)
  lowest a b =
      ap (λ d. d * 2 + f (suc a % 2) (b % 2))
        (digits_count a (suc a / 2) (suc a / 2) (b / 2) (omega arith) (omega arith))

pub zero-bit_and : (b : ℕ) → bit_and 0 b ≡ 0
zero-bit_and b = bit_and-bitwise 0 b

pub zero-bit_or : (b : ℕ) → bit_or 0 b ≡ b
zero-bit_or b = bit_or-bitwise 0 b

zero-bit_xor : (b : ℕ) → bit_xor 0 b ≡ b
zero-bit_xor b = bit_xor-bitwise 0 b

pub and_lowest : (a b : ℕ) → bit_and a b ≡ bit_and (a / 2) (b / 2) * 2 + min (a % 2) (b % 2)
and_lowest zero b = omega (arith, zero-bit_and b, zero-bit_and (b / 2))
and_lowest (suc a) b =
    omega (
      arith,
      bit_and-bitwise (suc a) b,
      bit_and-bitwise (suc a / 2) (b / 2),
      lowest (λ y. 0) min a b,
    )

pub or_lowest : (a b : ℕ) → bit_or a b ≡ bit_or (a / 2) (b / 2) * 2 + max (a % 2) (b % 2)
or_lowest zero b = omega (arith, zero-bit_or b, zero-bit_or (b / 2))
or_lowest (suc a) b =
    omega
      (arith, bit_or-bitwise (suc a) b, bit_or-bitwise (suc a / 2) (b / 2), lowest (λ y. y) max a b)

and_zero_below : (n a : ℕ) → a ≤ n → bit_and a 0 ≡ 0
and_zero_below zero a h = let e : a ≡ 0 = omega arith in ap (λ x. bit_and x 0) e
and_zero_below (suc n) a h = omega (arith, and_lowest a 0, and_zero_below n (a / 2) (omega arith))

pub bit_and-zero : (a : ℕ) → bit_and a 0 ≡ 0
bit_and-zero a = and_zero_below a a (omega arith)

-- One more digit under a mask of ones.
and_step :
    (a k m : ℕ) → bit_and (a / 2) k ≡ a / 2 % m → bit_and a (k * 2 + 1) ≡ a / 2 % m * 2 + a % 2
and_step a k m h =
    let half : (k * 2 + 1) / 2 ≡ k = omega arith in
    let odd : (k * 2 + 1) % 2 ≡ 1 = omega arith in
    and_lowest a (k * 2 + 1)
    ∙ ap (λ x. bit_and (a / 2) x * 2 + min (a % 2) ((k * 2 + 1) % 2)) half
    ∙ ap (λ x. x * 2 + min (a % 2) ((k * 2 + 1) % 2)) h
    ∙ (let q : a / 2 % m * 2 + min (a % 2) ((k * 2 + 1) % 2) ≡ a / 2 % m * 2 + a % 2 =
          omega (arith, odd) in
        q)

and_1 : (a : ℕ) → bit_and a 1 ≡ a % 2
and_1 a = omega (arith, and_lowest a 1, bit_and-zero (a / 2))

and_3 : (a : ℕ) → bit_and a 3 ≡ a % 4
and_3 a =
    and_step a 1 2 (and_1 (a / 2)) ∙ (let q : a / 2 % 2 * 2 + a % 2 ≡ a % 4 = omega arith in q)

and_7 : (a : ℕ) → bit_and a 7 ≡ a % 8
and_7 a =
    and_step a 3 4 (and_3 (a / 2)) ∙ (let q : a / 2 % 4 * 2 + a % 2 ≡ a % 8 = omega arith in q)

and_15 : (a : ℕ) → bit_and a 15 ≡ a % 16
and_15 a =
    and_step a 7 8 (and_7 (a / 2)) ∙ (let q : a / 2 % 8 * 2 + a % 2 ≡ a % 16 = omega arith in q)

and_31 : (a : ℕ) → bit_and a 31 ≡ a % 32
and_31 a =
    and_step a 15 16 (and_15 (a / 2)) ∙ (let q : a / 2 % 16 * 2 + a % 2 ≡ a % 32 = omega arith in q)

and_63 : (a : ℕ) → bit_and a 63 ≡ a % 64
and_63 a =
    and_step a 31 32 (and_31 (a / 2)) ∙ (let q : a / 2 % 32 * 2 + a % 2 ≡ a % 64 = omega arith in q)

-- `x & 0x7F` and `x & 1`.
pub bit_and_127 : (a : ℕ) → bit_and a 0x7f ≡ a % 128
bit_and_127 a =
    and_step a 63 64 (and_63 (a / 2))
    ∙ (let q : a / 2 % 64 * 2 + a % 2 ≡ a % 128 = omega arith in q)

pub bit_and_one : (a : ℕ) → bit_and a 1 ≡ a % 2
bit_and_one a = omega (arith, and_lowest a 1, bit_and-zero (a / 2))

-- A field joined above the low `i` bits.
pub bit_or_disjoint : (i a b : ℕ) → a < 2 ^ i → bit_or a (b * 2 ^ i) ≡ a + b * 2 ^ i
bit_or_disjoint zero a b h =
    let e : a ≡ 0 = omega arith in
    ap (λ x. bit_or x (b * 2 ^ 0)) e
    ∙ zero-bit_or (b * 2 ^ 0)
    ∙ (let q : b * 2 ^ 0 ≡ a + b * 2 ^ 0 = omega (arith, e) in q)
bit_or_disjoint (suc i) a b h =
    let p : 2 ^ suc i ≡ 2 * 2 ^ i = omega (arith, pow-suc 2 i) in
    let w : b * 2 ^ suc i ≡ 2 * (b * 2 ^ i) =
      ap (λ x. b * x) p ∙ (let q : b * (2 * 2 ^ i) ≡ 2 * (b * 2 ^ i) = omega arith in q) in
    let half : b * 2 ^ suc i / 2 ≡ b * 2 ^ i = omega (arith, w) in
    omega (
      arith,
      w,
      or_lowest a (b * 2 ^ suc i),
      ap (λ x. bit_or (a / 2) x) half,
      bit_or_disjoint i (a / 2) b (omega (arith, p)),
    )

-- Over a small range, every value is tried.
tried : ℕ → (ℕ → Bool) → Bool
tried zero p = true
tried (suc n) p = p n && tried n p

tried_sound : (n : ℕ) (p : ℕ → Bool) (x : ℕ) → tried n p ≡ true → x < n → p x ≡ true
unfolding tried
tried_sound zero p x h lt = absurd (omega arith)
tried_sound (suc n) p x h lt = ground (arith, tried_sound n p x)

top_table : tried 256 (λ b. bit_and b 0x80 == b / 128 * 128) ≡ true
unfolding tried
top_table = refl

-- `b & 0x80` of a byte.
pub bit_and_top : (b : ℕ) → b < 256 → bit_and b 0x80 ≡ b / 128 * 128
bit_and_top b h = ==→eq _ _ (tried_sound 256 (λ b. bit_and b 0x80 == b / 128 * 128) b top_table h)

xor_lowest : (a b : ℕ) → bit_xor a b ≡ bit_xor (a / 2) (b / 2) * 2 + differ (a % 2) (b % 2)
xor_lowest zero b = omega (arith, zero-bit_xor b, zero-bit_xor (b / 2))
xor_lowest (suc a) b =
    bit_xor-bitwise (suc a) b
    ∙ lowest (λ y. y) differ a b
    ∙ ap (λ d. d * 2 + differ (suc a % 2) (b % 2)) (sym (bit_xor-bitwise (suc a / 2) (b / 2)))

differ-zero : (x : ℕ) → differ x 0 ≡ x
differ-zero zero = refl
differ-zero (suc x) = refl

differ-one : (x : ℕ) → x < 2 → differ x 1 ≡ 1 - x
differ-one zero h = refl
differ-one (suc zero) h = refl
differ-one (suc (suc x)) h = absurd (omega arith)

-- `x ^ 0`, and `x ^ y` where all `k` bits of `y` are set.
xor_zero_below : (n a : ℕ) → a ≤ n → bit_xor a 0 ≡ a
xor_zero_below zero a h = let e : a ≡ 0 = omega arith in ap (λ x. bit_xor x 0) e ∙ sym e
xor_zero_below (suc n) a h =
    omega (arith, xor_lowest a 0, xor_zero_below n (a / 2) (omega arith), differ-zero (a % 2))

pub bit_xor-zero : (a : ℕ) → bit_xor a 0 ≡ a
bit_xor-zero a = xor_zero_below a a (omega arith)

pub bit_xor_ones : (k a : ℕ) → a < 2 ^ k → bit_xor a (2 ^ k - 1) ≡ 2 ^ k - 1 - a
bit_xor_ones zero a h =
    let e : a ≡ 0 = omega arith in ap (λ x. bit_xor x 0) e ∙ (let q : 0 ≡ 0 - a = omega arith in q)
bit_xor_ones (suc k) a h =
    let p : 2 ^ suc k ≡ 2 * 2 ^ k = omega (arith, pow-suc 2 k) in
    let half : (2 ^ suc k - 1) / 2 ≡ 2 ^ k - 1 = omega (arith, p, h) in
    let odd : (2 ^ suc k - 1) % 2 ≡ 1 = omega (arith, p, h) in
    omega (
      arith,
      p,
      xor_lowest a (2 ^ suc k - 1),
      ap (λ x. bit_xor (a / 2) x) half,
      ap (λ x. differ (a % 2) x) odd,
      differ-one (a % 2) (omega arith),
      bit_xor_ones k (a / 2) (omega (arith, p)),
    )

pub or_zero_below : (n a : ℕ) → a ≤ n → bit_or a 0 ≡ a
or_zero_below zero a h = let e : a ≡ 0 = omega arith in ap (λ x. bit_or x 0) e ∙ sym e
or_zero_below (suc n) a h = omega (arith, or_lowest a 0, or_zero_below n (a / 2) (omega arith))

-- A flag joined below a field.
pub bit_or_flag : (c f : ℕ) → f < 2 → bit_or (c * 2) f ≡ c * 2 + f
bit_or_flag c f h =
    let half : c * 2 / 2 ≡ c = omega arith in
    let none_left : f / 2 ≡ 0 = omega arith in
    omega (
      arith,
      or_lowest (c * 2) f,
      ap (λ x. bit_or x (f / 2)) half,
      ap (λ x. bit_or c x) none_left,
      or_zero_below c c (omega arith),
    )
