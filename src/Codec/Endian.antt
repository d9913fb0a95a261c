-- ===== src/Codec/Endian.antt =====
-- utils/endian_cast.h, and the object representation of a C++ integer of `k` bytes on the host.
-- A signed integer is the bit pattern of its two's complement.
use xzmjx_rpc.Prelude.{
  ℕ, zero, suc, ◌+◌, ◌*◌, ◌/◌, ◌%◌, ◌^◌, ◌<◌, ◌≡◌, refl, ap, sym, ◌∙◌, List, [], ◌∷◌, ◌++◌, reverse,
  arith, length, length-append, All, if◌then◌else◌, ◌==◌, Bool-cases, inl, inr, ==→eq, subst,
}
use xzmjx_rpc.ByteArray.Defs.{Endian, little, big}
use mathlib.Core.List.{reverse-cons, reverse-reverse}
use native.Mathlib.Nat.{pow-suc}

unfoldable pub le_bytes : ℕ → ℕ → List ℕ
le_bytes zero v = []
le_bytes (suc k) v = v % 256 ∷ le_bytes k (v / 256)

unfoldable pub of_le : List ℕ → ℕ
of_le [] = 0
of_le (b ∷ bs) = b + 256 * of_le bs

-- The bytes of an object of `k` bytes on a host of that byte order, and the value they stand for.
unfoldable pub object_bytes : Endian → ℕ → ℕ → List ℕ
object_bytes little k v = le_bytes k v
object_bytes big k v = reverse (le_bytes k v)

unfoldable pub object_value : Endian → List ℕ → ℕ
object_value little bytes = of_le bytes
object_value big bytes = of_le (reverse bytes)

-- `ByteSwap`: one byte is left alone, the others go through `bswap_16`, `bswap_32`, `bswap_64`.
unfoldable pub byte_swap : ℕ → ℕ → ℕ
unfolding le_bytes of_le
byte_swap k v = if k == 1 then v else of_le (reverse (le_bytes k v))

-- `EndianCastByType(v, e)` on a host of byte order `native`.
unfoldable pub endian_cast : Endian → ℕ → ℕ → Endian → ℕ
unfolding byte_swap
endian_cast little k v little = v
endian_cast little k v big = byte_swap k v
endian_cast big k v little = byte_swap k v
endian_cast big k v big = v

of_le-le_bytes : (k v : ℕ) → v < 256 ^ k → of_le (le_bytes k v) ≡ v
unfolding of_le le_bytes
of_le-le_bytes zero v h = omega arith
of_le-le_bytes (suc k) v h =
    let p : 256 ^ suc k ≡ 256 * 256 ^ k = omega (arith, pow-suc 256 k) in
    omega (arith, of_le-le_bytes k (v / 256) (omega (arith, p)))

le_bytes-of_le :
    (bytes : List ℕ) → All (λ b. b < 256) bytes → le_bytes (length bytes) (of_le bytes) ≡ bytes
unfolding of_le le_bytes
le_bytes-of_le [] h = refl
le_bytes-of_le (b ∷ bs) h =
    let low : (b + 256 * of_le bs) % 256 ≡ b = omega (arith, h.0) in
    let high : (b + 256 * of_le bs) / 256 ≡ of_le bs = omega (arith, h.0) in
    rw (low, high) (ap (λ l. b ∷ l) (le_bytes-of_le bs h.1))

pub length-le_bytes : (k v : ℕ) → length (le_bytes k v) ≡ k
unfolding le_bytes
length-le_bytes zero v = refl
length-le_bytes (suc k) v = ap suc (length-le_bytes k (v / 256))

le_bytes-All : (k v : ℕ) → All (λ b. b < 256) (le_bytes k v)
unfolding le_bytes
le_bytes-All zero v = tt
le_bytes-All (suc k) v = (omega arith, le_bytes-All k (v / 256))

length-reverse : (xs : List ℕ) → length (reverse xs) ≡ length xs
length-reverse [] = refl
length-reverse (x ∷ xs) =
    ap length (reverse-cons x xs)
    ∙ (let e : length (reverse xs ++ (x ∷ [])) ≡ suc (length xs) =
          omega (arith, length-append (reverse xs) (x ∷ []), length-reverse xs) in
        e)

All-append :
    (xs ys : List ℕ) → All (λ b. b < 256) xs → All (λ b. b < 256) ys → All (λ b. b < 256) (xs ++ ys)
All-append [] ys hx hy = hy
All-append (x ∷ xs) ys hx hy = (hx.0, All-append xs ys hx.1 hy)

All-reverse : (xs : List ℕ) → All (λ b. b < 256) xs → All (λ b. b < 256) (reverse xs)
All-reverse [] h = h
All-reverse (x ∷ xs) h =
    rw (reverse-cons x xs) (All-append (reverse xs) (x ∷ []) (All-reverse xs h.1) (h.0, tt))

-- The bytes of a value of `k` bytes in a byte order.
unfoldable pub wire : Endian → ℕ → ℕ → List ℕ
wire little k v = le_bytes k v
wire big k v = reverse (le_bytes k v)

pub length-wire : (e : Endian) (k v : ℕ) → length (wire e k v) ≡ k
unfolding wire
length-wire little k v = length-le_bytes k v
length-wire big k v = length-reverse (le_bytes k v) ∙ length-le_bytes k v

le_bytes-one : (v : ℕ) → v < 256 → le_bytes 1 v ≡ v ∷ []
unfolding le_bytes
le_bytes-one v h = let e : v % 256 ≡ v = omega arith in rw e refl

reverse-one : (b : ℕ) → reverse (b ∷ []) ≡ b ∷ []
reverse-one b = refl

pub one_byte : (b : ℕ) → of_le (b ∷ []) ≡ b
unfolding of_le
one_byte b = omega arith

le_bytes-byte_swap : (k v : ℕ) → v < 256 ^ k → le_bytes k (byte_swap k v) ≡ reverse (le_bytes k v)
unfolding byte_swap
le_bytes-byte_swap k v h = elim (Bool-cases (k == 1)) [
  | inl e ↦
      let q : k ≡ 1 = ==→eq k 1 e in
      rw e (subst (λ j. v < 256 ^ j → le_bytes j v ≡ reverse (le_bytes j v)) (sym q) (one v) h)
  | inr e ↦
      let r = reverse (le_bytes k v) in
      let n : length r ≡ k = length-reverse (le_bytes k v) ∙ length-le_bytes k v in
      rw e (
        subst (λ j. le_bytes j (of_le r) ≡ r) n
          (le_bytes-of_le r (All-reverse _ (le_bytes-All k v))))
]
  where
    one : (v : ℕ) → v < 256 ^ 1 → le_bytes 1 v ≡ reverse (le_bytes 1 v)
    one v h = let e = le_bytes-one v (omega arith) in e ∙ sym (ap reverse e)

byte_swap-reverse : (k v : ℕ) → v < 256 ^ k → byte_swap k (of_le (reverse (le_bytes k v))) ≡ v
unfolding byte_swap
byte_swap-reverse k v h = elim (Bool-cases (k == 1)) [
  | inl e ↦
      let q : k ≡ 1 = ==→eq k 1 e in
      rw e (subst (λ j. v < 256 ^ j → of_le (reverse (le_bytes j v)) ≡ v) (sym q) (one v) h)
  | inr e ↦
      let r = reverse (le_bytes k v) in
      let n : length r ≡ k = length-reverse (le_bytes k v) ∙ length-le_bytes k v in
      rw e (
        ap (λ l. of_le (reverse l))
          (subst (λ j. le_bytes j (of_le r) ≡ r) n
            (le_bytes-of_le r (All-reverse _ (le_bytes-All k v))))
        ∙ ap of_le (reverse-reverse (le_bytes k v))
        ∙ of_le-le_bytes k v h)
]
  where
    one : (v : ℕ) → v < 256 ^ 1 → of_le (reverse (le_bytes 1 v)) ≡ v
    one v h = ap (λ l. of_le (reverse l)) (le_bytes-one v (omega arith)) ∙ one_byte v

-- What goes to the buffer for a value of `k` bytes is the value in the buffer's byte order, and
-- what is read back from those bytes is the value: on a host of either byte order.
pub endian_cast-wire :
    (native e : Endian) (k v : ℕ)
    → v < 256 ^ k
    → (object_bytes native k (endian_cast native k v e) ≡ wire e k v)
      × (endian_cast native k (object_value native (wire e k v)) e ≡ v)
unfolding endian_cast object_bytes object_value wire
endian_cast-wire little little k v h = (refl, of_le-le_bytes k v h)
endian_cast-wire little big k v h = (le_bytes-byte_swap k v h, byte_swap-reverse k v h)
endian_cast-wire big little k v h = (
  ap reverse (le_bytes-byte_swap k v h) ∙ reverse-reverse (le_bytes k v),
  byte_swap-reverse k v h,
)
endian_cast-wire big big k v h =
    (refl, ap of_le (reverse-reverse (le_bytes k v)) ∙ of_le-le_bytes k v h)
