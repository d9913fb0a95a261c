-- ===== src/Net/Address/Number.antt =====
-- An array of bytes read as a number, the highest first, and what `IPv6Address::networkAddress` and
-- `broadcastAddress` (net/address.cpp) do to that number when they edit the bytes.
use xzmjx_rpc.Prelude.{
  ℕ, zero, suc, ◌+◌, ◌-◌, ◌*◌, ◌^◌, ◌<◌, ◌≤◌, ◌≡◌, refl, ap, ap₂, sym, ◌∙◌, arith, bit_and, bit_or,
  List, [], ◌∷◌, ◌++◌, length, All, Outcome, ok, threw, crashed, stuck, ◌>>=◌, take,
}
use native.Mathlib.Nat.{pow-suc}
use xzmjx_rpc.Prelude.Masks.{or_mask, and_mask}
use xzmjx_rpc.Net.Address.Defs.{replicate, change, complement, fill_from}
use xzmjx_rpc.Net.Address.Subnet.{Block, pow_add, pow_pos, cut, cleared}

-- The number that the bytes stand for.
abbrev pub number : List ℕ → ℕ
number [] = 0
number (b ∷ bs) = b * 256 ^ length bs + number bs

-- The bytes with byte `i` changed and all behind it set.
abbrev pub edited : ℕ → (ℕ → ℕ) → ℕ → List ℕ → List ℕ
edited i f c [] = []
edited zero f c (b ∷ bs) = f b ∷ replicate (length bs) c
edited (suc i) f c (b ∷ bs) = b ∷ edited i f c bs

pub edit_lem :
    (i : ℕ) (f : ℕ → ℕ) (c : ℕ) (bs : List ℕ)
    → i < length bs
    → (change i f bs >>= λ r. ok (fill_from (suc i) c r)) ≡ ok (edited i f c bs)
unfolding change fill_from
edit_lem i f c [] h = absurd (omega arith)
edit_lem zero f c (b ∷ bs) h =
    let e : suc (length bs) - 1 ≡ length bs = omega arith in ap (λ n. ok (f b ∷ replicate n c)) e
edit_lem (suc i) f c (b ∷ bs) h = extend (change i f bs) (edit_lem i f c bs (omega arith))
  where
    extend :
        (o : Outcome (List ℕ))
        → (o >>= λ r. ok (fill_from (suc i) c r)) ≡ ok (edited i f c bs)
        → ((o >>= λ r. ok (b ∷ r)) >>= λ r. ok (fill_from (suc (suc i)) c r))
          ≡ ok (b ∷ edited i f c bs)
    extend (ok r) e =
        let q : suc (length r) - suc (suc i) ≡ length r - suc i = omega arith in
        ap (λ n. ok (b ∷ (take (suc i) r ++ replicate n c))) q
        ∙ ap (λ (o : Outcome (List ℕ)). o >>= λ l. ok (b ∷ l)) e
    extend (threw x) e = cc
    extend crashed e = cc
    extend stuck e = cc

-- What is made of the edited bytes.
pub edit_then :
    {A : Type 0} (g : List ℕ → A) (i : ℕ) (f : ℕ → ℕ) (c : ℕ) (bs : List ℕ)
    → i < length bs
    → (change i f bs >>= λ r. ok (g (fill_from (i + 1) c r))) ≡ ok (g (edited i f c bs))
edit_then {A} g i f c bs h =
    let next : i + 1 ≡ suc i = omega arith in
    ap (λ n. change i f bs >>= λ r. ok (g (fill_from n c r))) next
    ∙ then_also (change i f bs) (edit_lem i f c bs h)
  where
    then_also :
        (o : Outcome (List ℕ))
        → (o >>= λ r. ok (fill_from (suc i) c r)) ≡ ok (edited i f c bs)
        → (o >>= λ r. ok (g (fill_from (suc i) c r))) ≡ ok (g (edited i f c bs))
    then_also (ok r) e = ap (λ (o : Outcome (List ℕ)). o >>= λ l. ok (g l)) e
    then_also (threw x) e = cc
    then_also crashed e = cc
    then_also stuck e = cc

pub change_outside : (i : ℕ) (f : ℕ → ℕ) (bs : List ℕ) → length bs ≤ i → change i f bs ≡ crashed
unfolding change
change_outside i f [] h = refl
change_outside zero f (b ∷ bs) h = absurd (omega arith)
change_outside (suc i) f (b ∷ bs) h = rw (change_outside i f bs (omega arith)) refl

pub number_zeros : (n : ℕ) → number (replicate n 0) ≡ 0
number_zeros zero = refl
number_zeros (suc n) = omega (arith, number_zeros n)

pub length-replicate : (n b : ℕ) → length (replicate n b) ≡ n
length-replicate zero b = refl
length-replicate (suc n) b = ap suc (length-replicate n b)

number_ones : (n : ℕ) → number (replicate n 255) + 1 ≡ 256 ^ n
number_ones zero = refl
number_ones (suc n) =
    omega (arith, number_ones n, ap (λ l. 255 * 256 ^ l) (length-replicate n 255), pow-suc 256 n)

number-lt : (bs : List ℕ) → All (λ b. b < 256) bs → number bs < 256 ^ length bs
number-lt [] h = omega arith
number-lt (b ∷ bs) h =
    below b (256 ^ length bs) (number bs) (256 ^ suc (length bs)) h.0 (number-lt bs h.1)
      (pow-suc 256 (length bs))
  where
    below : (b p x q : ℕ) → b < 256 → x < p → q ≡ p * 256 → b * p + x < q
    below b p x q h k e = grind arith

length-edited : (i : ℕ) (f : ℕ → ℕ) (c : ℕ) (bs : List ℕ) → length (edited i f c bs) ≡ length bs
length-edited i f c [] = refl
length-edited zero f c (b ∷ bs) = ap suc (length-replicate (length bs) c)
length-edited (suc i) f c (b ∷ bs) = ap suc (length-edited i f c bs)

-- What the proofs need of products.
zero_block : (j x y : ℕ) → j * x * y + 0 ≡ j * (x * y)
zero_block j x y = grind arith

zero_inside : (o j x y r : ℕ) → (o + j * x) * y + r ≡ j * x * y + 0 + (o * y + r)
zero_inside o j x y r = grind arith

zero_offset : (o x y r : ℕ) → o < x → r < y → o * y + r < x * y
zero_offset o x y r p q = grind arith

zero_last :
    (j x y s : ℕ) → 0 < x → s + 1 ≡ y → (x - 1 + j * x) * y + s ≡ j * x * y + 0 + (x * y - 1)
zero_last j zero y s h e = absurd (omega arith)
zero_last j (suc x) y s h e = grind arith

zero_count : (y z a c : ℕ) → 256 ≡ a * c → z ≡ y * 256 → z ≡ c * (a * y)
zero_count y z a c e h = h ∙ ap (λ x. y * x) e ∙ turn
  where
    turn : y * (a * c) ≡ c * (a * y)
    turn = grind arith

next_count : (q size p z : ℕ) → z ≡ p * 256 → p ≡ q * size → z ≡ 256 * q * size
next_count q size p z e h = grind arith

next_block :
    (b p q size index first : ℕ)
    → p ≡ q * size
    → first ≡ index * size
    → b * p + first ≡ (b * q + index) * size
next_block b p q size index first e h = grind arith

-- A byte with its low `k` bits cleared, and set.
abbrev pub down : ℕ → ℕ → ℕ
down k b = bit_and b (complement 8 (2 ^ k - 1))

abbrev pub up : ℕ → ℕ → ℕ
up k b = bit_or b (2 ^ k - 1)

module _ (k : ℕ) (small : k ≤ 8) where
  byte : 256 ≡ 2 ^ k * 2 ^ (8 - k)
  byte = let e : 8 ≡ k + (8 - k) = omega arith in ap (λ n. 2 ^ n) e ∙ pow_add k (8 - k)

  down_lem : (o j : ℕ) → o < 2 ^ k → j < 2 ^ (8 - k) → down k (o + j * 2 ^ k) ≡ j * 2 ^ k
  unfolding complement
  down_lem o j lo hi =
      ap (bit_and (o + j * 2 ^ k)) (cleared k (8 - k) 256 byte) ∙ and_mask k (8 - k) o j lo hi

  -- Of the bytes with byte `i` cut at its low `k` bits, `n` bytes before the end.
  pub blocks :
      (i n : ℕ) (bs : List ℕ)
      → length bs ≡ suc (i + n)
      → All (λ b. b < 256) bs
      → (q : ℕ) × (256 ^ length bs ≡ q * (2 ^ k * 256 ^ n))
        × Block
            (2 ^ k * 256 ^ n)
            (number bs)
            (number (edited i (down k) 0 bs))
            (number (edited i (up k) 255 bs))
  blocks i n [] e h = absurd (omega arith)
  blocks zero n (b ∷ bs) e h =
      let len : length bs ≡ n = omega (arith, e) in
      let power : 256 ^ length bs ≡ 256 ^ n = ap (λ l. 256 ^ l) len in
      let (o, j, eb, lo, hi) = cut k (8 - k) b (omega (arith, byte, h.0)) in
      let first : number (edited zero (down k) 0 (b ∷ bs)) ≡ j * 2 ^ k * 256 ^ n + 0 =
        ap₂ (λ x y. x + y)
          (ap₂ (λ x l. x * 256 ^ l) (ap (down k) eb ∙ down_lem o j lo hi)
            (length-replicate (length bs) 0 ∙ len))
          (number_zeros (length bs)) in
      let ones = number (replicate (length bs) 255) in
      let last : number (edited zero (up k) 255 (b ∷ bs))
          ≡ (2 ^ k - 1 + j * 2 ^ k) * 256 ^ n + ones =
        ap (λ x. x + ones)
          (ap₂ (λ x l. x * 256 ^ l) (ap (up k) eb ∙ or_mask k o j lo)
            (length-replicate (length bs) 255 ∙ len)) in
      let all : ones + 1 ≡ 256 ^ n = number_ones (length bs) ∙ power in
      (
        2 ^ (8 - k),
        zero_count (256 ^ n) (256 ^ suc (length bs)) (2 ^ k) (2 ^ (8 - k)) byte
            (pow-suc 256 (length bs) ∙ ap (λ x. x * 256) power),
        record {
          index = j;
          offset = o * 256 ^ n + number bs;
          offset_lt =
              zero_offset o (2 ^ k) (256 ^ n) (number bs) lo
                (omega (arith, power, number-lt bs h.1));
          first_at = first ∙ zero_block j (2 ^ k) (256 ^ n);
          inside =
              ap₂ (λ x p. x * p + number bs) eb power
              ∙ zero_inside o j (2 ^ k) (256 ^ n) (number bs)
              ∙ ap (λ x. x + (o * 256 ^ n + number bs)) (sym first);
          last_at =
              last
              ∙ zero_last j (2 ^ k) (256 ^ n) ones (pow_pos k) all
              ∙ ap (λ x. x + (2 ^ k * 256 ^ n - 1)) (sym first);
        },
      )
  blocks (suc i) n (b ∷ bs) e h =
      let size = 2 ^ k * 256 ^ n in
      let (q, total, block) = blocks i n bs (omega (arith, e)) h.1 in
      let head : (f : ℕ → ℕ) (c : ℕ)
          → number (edited (suc i) f c (b ∷ bs)) ≡ b * 256 ^ length bs + number (edited i f c bs) =
        λ (f : ℕ → ℕ) (c : ℕ).
          ap (λ l. b * 256 ^ l + number (edited i f c bs)) (length-edited i f c bs) in
      (
        256 * q,
        next_count q size (256 ^ length bs) (256 ^ suc (length bs)) (pow-suc 256 (length bs)) total,
        record {
          index = b * q + block.index;
          offset = block.offset;
          offset_lt = block.offset_lt;
          first_at =
              head (down k) 0
              ∙ next_block b (256 ^ length bs) q size block.index (number (edited i (down k) 0 bs))
                  total block.first_at;
          inside = omega (arith, head (down k) 0, block.inside);
          last_at = omega (arith, head (down k) 0, head (up k) 255, block.last_at);
        },
      )
