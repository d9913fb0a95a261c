-- ===== src/Net/Address/Order.antt =====
-- The comparisons of addresses (net/address.cpp) on addresses whose length lies within their
-- structure.
use xzmjx_rpc.Prelude.{
  ℕ, append-nil, length-append, ◌≢◌, zero, suc, ◌+◌, ◌<◌, ◌≤◌, ◌≡◌, refl, ap, ap₂, sym, ◌∙◌, ◌↔◌,
  arith, min, List, [], ◌∷◌, ◌++◌, Bool, true, false, ltb, take, length, length-take, Outcome, ok,
  ◌>>=◌, Bool-cases, inl, inr, if◌then◌else◌, ◌==◌, ltb→lt, ltb→ge, lt→ltb, ge→ltb, ne→==, ==→eq,
  ==_iff,
}
use xzmjx_rpc.ByteArray.Defs.{Endian}
use xzmjx_rpc.Net.Address.Defs.{Address}
use xzmjx_rpc.Net.Address.Any.{
  Sign, negative, null, positive, memcmp, get_addr, get_addr_len, less, equal, less_of, equal_of,
}

-- The bytes that two addresses are compared by.
abbrev pub key : Endian → Address → List ℕ
key native a = take (get_addr_len a) (get_addr native a)

abbrev pub IsWhole : Endian → Address → Type 0
IsWhole native a = get_addr_len a ≤ length (get_addr native a)

-- At the first byte in which they differ, the first has the smaller one.
pub record Below (xs ys : List ℕ) : Type 0 where
  pub common : List ℕ
  pub here : ℕ
  pub there : ℕ
  pub rest : List ℕ
  pub rest' : List ℕ
  pub first_at : xs ≡ common ++ (here ∷ rest)
  pub second_at : ys ≡ common ++ (there ∷ rest')
  pub smaller : here < there

-- How two texts compare, on their common length.
sign : List ℕ → List ℕ → Sign
sign [] ys = null
sign (x ∷ xs) [] = null
sign (x ∷ xs) (y ∷ ys) =
    let rest = sign xs ys in if ltb x y then negative else if ltb y x then positive else rest

memcmp_lem :
    (m n : ℕ) (xs ys : List ℕ)
    → m ≤ length xs
    → n ≤ length ys
    → memcmp (min m n) xs ys ≡ ok (sign (take m xs) (take n ys))
unfolding memcmp sign
memcmp_lem zero n xs ys p q = let e : min 0 n ≡ 0 = omega arith in rw e refl
memcmp_lem (suc m) zero [] ys p q = absurd (omega arith)
memcmp_lem (suc m) zero (x ∷ xs) ys p q = let e : min (suc m) 0 ≡ 0 = omega arith in rw e refl
memcmp_lem (suc m) (suc n) [] ys p q = absurd (omega arith)
memcmp_lem (suc m) (suc n) (x ∷ xs) [] p q = absurd (omega arith)
memcmp_lem (suc m) (suc n) (x ∷ xs) (y ∷ ys) p q =
    let e : min (suc m) (suc n) ≡ suc (min m n) = omega arith in
    ap (λ k. memcmp k (x ∷ xs) (y ∷ ys)) e ∙ (elim (Bool-cases (ltb x y)) [
      | inl l ↦ rw l refl
      | inr l ↦ elim (Bool-cases (ltb y x)) [
        | inl g ↦ rw (l, g) refl
        | inr g ↦ rw (l, g) (memcmp_lem m n xs ys (omega arith) (omega arith))
      ]
    ])

sign-Below : (xs ys : List ℕ) → sign xs ys ≡ negative → Below xs ys
unfolding sign
sign-Below [] ys e = cc
sign-Below (x ∷ xs) [] e = cc
sign-Below (x ∷ xs) (y ∷ ys) e = elim (Bool-cases (ltb x y)) [
  | inl l ↦ record {
    common = [];
    here = x;
    there = y;
    rest = xs;
    rest' = ys;
    first_at = refl;
    second_at = refl;
    smaller = ltb→lt x y l;
  }
  | inr l ↦ elim (Bool-cases (ltb y x)) [
    | inl g ↦ cc (rw (l, g) at e)
    | inr g ↦
        let b = sign-Below xs ys (rw (l, g) at e) in
        let same : y ≡ x = omega (arith, ltb→ge x y l, ltb→ge y x g) in
        record {
          common = x ∷ b.common;
          here = b.here;
          there = b.there;
          rest = b.rest;
          rest' = b.rest';
          first_at = ap (λ s. x ∷ s) b.first_at;
          second_at = ap₂ (λ a s. a ∷ s) same b.second_at;
          smaller = b.smaller;
        }
  ]
]

Below-sign :
    (c : List ℕ) (x y : ℕ) (s t : List ℕ) → x < y → sign (c ++ (x ∷ s)) (c ++ (y ∷ t)) ≡ negative
unfolding sign
Below-sign [] x y s t h = rw (lt→ltb x y h) refl
Below-sign (b ∷ c) x y s t h = rw (ge→ltb b b (omega arith)) (Below-sign c x y s t h)

sign_prefix :
    (xs : List ℕ) (ys : List ℕ) → (sign xs (xs ++ ys) ≡ null) × (sign (xs ++ ys) xs ≡ null)
unfolding sign
sign_prefix [] [] = (refl, refl)
sign_prefix [] (y ∷ ys) = (refl, refl)
sign_prefix (x ∷ xs) ys =
    let (a, b) = sign_prefix xs ys in
    (rw (ge→ltb x x (omega arith)) a, rw (ge→ltb x x (omega arith)) b)

sign_null : (xs ys : List ℕ) → length xs ≡ length ys → sign xs ys ≡ null → xs ≡ ys
unfolding sign
sign_null [] [] h e = refl
sign_null [] (y ∷ ys) h e = absurd (omega arith)
sign_null (x ∷ xs) [] h e = absurd (omega arith)
sign_null (x ∷ xs) (y ∷ ys) h e = elim (Bool-cases (ltb x y)) [
  | inl l ↦ cc (rw l at e)
  | inr l ↦ elim (Bool-cases (ltb y x)) [
    | inl g ↦ cc (rw (l, g) at e)
    | inr g ↦
        let same : x ≡ y = omega (arith, ltb→ge x y l, ltb→ge y x g) in
        ap₂ (λ a s. a ∷ s) same (sign_null xs ys (omega arith) (rw (l, g) at e))
  ]
]

length-key :
    (native : Endian) (a : Address) → IsWhole native a → length (key native a) ≡ get_addr_len a
length-key native a w = omega (arith, length-take (get_addr_len a) (get_addr native a), w)

module _ (native : Endian) (a b : Address) (wa : IsWhole native a) (wb : IsWhole native b) where
  compared : Sign
  compared = sign (key native a) (key native b)

  less_sign : less native a b ≡ ok (less_of compared false)
  unfolding less compared
  less_sign =
      let la = get_addr_len a in
      ap (λ (o : Outcome Sign). o >>= λ s. ok (less_of s (ltb la la)))
        (memcmp_lem la (get_addr_len b) (get_addr native a) (get_addr native b) wa wb)
      ∙ ap (λ l. ok (less_of compared l)) (ge→ltb la la (omega arith))

  less→Below :
      (s : Sign)
      → s ≡ compared
      → ok (less_of s false) ≡ ok true
      → Below (key native a) (key native b)
  unfolding compared
  less→Below negative e h = sign-Below (key native a) (key native b) (sym e)
  less→Below null e h = cc
  less→Below positive e h = cc

  equal_sign : get_addr_len a ≡ get_addr_len b → equal native a b ≡ ok (equal_of compared)
  unfolding equal compared
  equal_sign h =
      let la = get_addr_len a in
      let lb = get_addr_len b in
      let m : la ≡ min la lb = omega (arith, h) in
      rw ((==_iff la lb).1 h) (
        ap (λ (o : Outcome Sign). o >>= λ s. ok (equal_of s))
          (ap (λ n. memcmp n (get_addr native a) (get_addr native b)) m
            ∙ memcmp_lem la lb (get_addr native a) (get_addr native b) wa wb))

  equal_lengths :
      (x : Bool)
      → (get_addr_len a == get_addr_len b) ≡ x
      → equal native a b ≡ ok true
      → get_addr_len a ≡ get_addr_len b
  unfolding equal
  equal_lengths true e h = ==→eq _ _ e
  equal_lengths false e h = cc (rw e at h)

  equal→same :
      (s : Sign)
      → s ≡ compared
      → get_addr_len a ≡ get_addr_len b
      → ok (equal_of s) ≡ ok true
      → key native a ≡ key native b
  unfolding compared
  equal→same null e l h =
      sign_null (key native a) (key native b)
        (length-key native a wa ∙ l ∙ sym (length-key native b wb)) (sym e)
  equal→same negative e l h = cc
  equal→same positive e l h = cc

  Below-less : Below (key native a) (key native b) → less native a b ≡ ok true
  unfolding compared
  Below-less d =
      let e : compared ≡ negative =
        ap₂ sign d.first_at d.second_at
        ∙ Below-sign d.common d.here d.there d.rest d.rest' d.smaller in
      less_sign ∙ ap (λ s. ok (less_of s false)) e

  same-equal : key native a ≡ key native b → equal native a b ≡ ok true
  unfolding compared
  same-equal h =
      let lens : get_addr_len a ≡ get_addr_len b =
        sym (length-key native a wa) ∙ ap length h ∙ length-key native b wb in
      let e : compared ≡ null =
        ap₂ sign refl (sym h ∙ sym (append-nil (key native a)))
        ∙ (sign_prefix (key native a) []).0 in
      equal_sign lens ∙ ap (λ s. ok (equal_of s)) e

  -- `operator<` returns true exactly when the two are equal up to a byte at which the first is
  -- smaller, and `operator==` exactly when all their bytes are equal, their number included.
  pub comparisons :
      ((less native a b ≡ ok true) ↔ Below (key native a) (key native b))
      × ((equal native a b ≡ ok true) ↔ (key native a ≡ key native b))
  comparisons = (
    (λ h. less→Below compared refl (sym less_sign ∙ h), Below-less),
    (
      λ h.
          let l = equal_lengths (get_addr_len a == get_addr_len b) refl h in
          equal→same compared refl l (sym (equal_sign l) ∙ h),
      same-equal,
    ),
  )

-- An address whose bytes continue those of another is neither below nor above it, and the two are
-- not equal, though `operator<` means to put the shorter one first.
pub prefix_unordered :
    (native : Endian) (a b : Address) (y : ℕ) (t : List ℕ)
    → IsWhole native a
    → IsWhole native b
    → key native b ≡ key native a ++ (y ∷ t)
    → (less native a b ≡ ok false) × (less native b a ≡ ok false) × (equal native a b ≡ ok false)
unfolding compared equal
prefix_unordered native a b y t wa wb h =
    let (p, q) = sign_prefix (key native a) (y ∷ t) in
    let longer : get_addr_len a ≢ get_addr_len b = λ e.
      let n : length (key native b) ≡ length (key native a) + suc (length t) =
        ap length h ∙ length-append (key native a) (y ∷ t) in
      omega (arith, e, n, length-key native a wa, length-key native b wb) in
    (
      less_sign native a b wa wb ∙ ap (λ s. ok (less_of s false)) (ap (sign (key native a)) h ∙ p),
      less_sign native b a wb wa
          ∙ ap (λ s. ok (less_of s false)) (ap (λ k. sign k (key native a)) h ∙ q),
      rw (ne→== _ _ longer) refl,
    )
