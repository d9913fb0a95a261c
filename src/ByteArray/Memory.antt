-- ===== src/ByteArray/Memory.antt =====
-- What `memcpy` to and from the memory of the nodes does, for utils/byte_array.cpp.
use xzmjx_rpc.Prelude.{
  ℕ, zero, suc, ◌+◌, ◌-◌, ◌≤◌, ◌<◌, ◌≡◌, ◌≢◌, refl, ap, ap₂, ◌∙◌, List, [], ◌∷◌, ◌++◌, ◌==◌,
  if◌then◌else◌, length, take, drop, arith, sym, ==_self, ne→==,
}
use xzmjx_rpc.ByteArray.Defs.{copy_in, copy_out}
use mathlib.Core.Path.{fun_ext}
use native.Mathlib.Decide.{ℕ_discrete}

pub copy_in-before : (c : ℕ → ℕ) (a : ℕ) (bs : List ℕ) (x : ℕ) → x < a → copy_in c a bs x ≡ c x
unfolding copy_in
copy_in-before c a [] x h = refl
copy_in-before c a (b ∷ bs) x h =
    rw (ne→== x a (omega arith)) (copy_in-before c (suc a) bs x (omega arith))

pub copy_in-after :
    (c : ℕ → ℕ) (a : ℕ) (bs : List ℕ) (x : ℕ) → a + length bs ≤ x → copy_in c a bs x ≡ c x
unfolding copy_in
copy_in-after c a [] x h = refl
copy_in-after c a (b ∷ bs) x h =
    rw (ne→== x a (omega arith)) (copy_in-after c (suc a) bs x (omega arith))

copy_in_local :
    (c d : ℕ → ℕ) (a : ℕ) (bs : List ℕ) (x : ℕ) → c x ≡ d x → copy_in c a bs x ≡ copy_in d a bs x
unfolding copy_in
copy_in_local c d a [] x h = h
copy_in_local c d a (b ∷ bs) x h =
    ap (λ v. if x == a then b else v) (copy_in_local c d (suc a) bs x h)

copy_in-hit : (c : ℕ → ℕ) (a b : ℕ) (bs : List ℕ) → copy_in c a (b ∷ bs) a ≡ b
unfolding copy_in
copy_in-hit c a b bs = rw (==_self a) refl

copy_in-skip :
    (c : ℕ → ℕ) (a b : ℕ) (bs : List ℕ) (x : ℕ)
    → x ≢ a
    → copy_in c a (b ∷ bs) x ≡ copy_in c (suc a) bs x
unfolding copy_in
copy_in-skip c a b bs x h = rw (ne→== x a h) refl

copy_in_nil : (c : ℕ → ℕ) (a x : ℕ) → copy_in c a [] x ≡ c x
unfolding copy_in
copy_in_nil c a x = refl

copy_in-take-drop_at :
    (k : ℕ) (c : ℕ → ℕ) (a : ℕ) (bs : List ℕ) (x : ℕ)
    → k ≤ length bs
    → copy_in (copy_in c a (take k bs)) (a + k) (drop k bs) x ≡ copy_in c a bs x
copy_in-take-drop_at zero c a bs x h =
    let e : a + 0 ≡ a = omega arith in
    rw e (copy_in_local (copy_in c a []) c a bs x (copy_in_nil c a x))
copy_in-take-drop_at (suc k) c a [] x h = absurd (omega arith)
copy_in-take-drop_at (suc k) c a (b ∷ bs) x h = elim (ℕ_discrete x a) [
  | yes e ↦
      copy_in-before (copy_in c a (b ∷ take k bs)) (a + suc k) (drop k bs) x (omega arith)
      ∙ (rw e (copy_in-hit c a b (take k bs) ∙ sym (copy_in-hit c a b bs)))
  | no e ↦
      copy_in_local (copy_in c a (b ∷ take k bs)) (copy_in c (suc a) (take k bs)) (a + suc k)
        (drop k bs) x (copy_in-skip c a b (take k bs) x e)
      ∙ ap (λ i. copy_in (copy_in c (suc a) (take k bs)) i (drop k bs) x) (omega arith)
      ∙ copy_in-take-drop_at k c (suc a) bs x (omega arith)
      ∙ sym (copy_in-skip c a b bs x e)
]

-- A copy made in two parts is the copy made at once.
pub copy_in-take-drop :
    (k : ℕ) (c : ℕ → ℕ) (a : ℕ) (bs : List ℕ)
    → k ≤ length bs
    → copy_in (copy_in c a (take k bs)) (a + k) (drop k bs) ≡ copy_in c a bs
copy_in-take-drop k c a bs h = fun_ext (λ x. copy_in-take-drop_at k c a bs x h)

pub length-copy_out : (c : ℕ → ℕ) (a n : ℕ) → length (copy_out c a n) ≡ n
unfolding copy_out
length-copy_out c a zero = refl
length-copy_out c a (suc n) = ap suc (length-copy_out c (suc a) n)

pub copy_out-add :
    (c : ℕ → ℕ) (a n m : ℕ) → copy_out c a (n + m) ≡ copy_out c a n ++ copy_out c (a + n) m
unfolding copy_out
copy_out-add c a zero m =
    let e : a + 0 ≡ a = omega arith in let f : 0 + m ≡ m = omega arith in rw (e, f) refl
copy_out-add c a (suc n) m =
    let e : suc n + m ≡ suc (n + m) = omega arith in
    let f : a + suc n ≡ suc a + n = omega arith in
    rw (e, f) (ap (λ l. c a ∷ l) (copy_out-add c (suc a) n m))

-- Two memories that agree on a range give the same bytes.
pub copy_out_local :
    (c d : ℕ → ℕ) (a n : ℕ)
    → ((x : ℕ) → a ≤ x → x < a + n → c x ≡ d x)
    → copy_out c a n ≡ copy_out d a n
unfolding copy_out
copy_out_local c d a zero h = refl
copy_out_local c d a (suc n) h =
    ap₂ ◌∷◌ (h a (omega arith) (omega arith))
      (copy_out_local c d (suc a) n (λ x p q. h x (omega arith) (omega arith)))

pub copy_out-copy_in_before :
    (c : ℕ → ℕ) (a n b : ℕ) (bs : List ℕ)
    → a + n ≤ b
    → copy_out (copy_in c b bs) a n ≡ copy_out c a n
copy_out-copy_in_before c a n b bs h =
    copy_out_local _ c a n (λ x p q. copy_in-before c b bs x (omega arith))

pub copy_out-copy_in_after :
    (c : ℕ → ℕ) (a n b : ℕ) (bs : List ℕ)
    → b + length bs ≤ a
    → copy_out (copy_in c b bs) a n ≡ copy_out c a n
copy_out-copy_in_after c a n b bs h =
    copy_out_local _ c a n (λ x p q. copy_in-after c b bs x (omega arith))

-- What was copied in is copied out.
pub copy_out-copy_in :
    (c : ℕ → ℕ) (a : ℕ) (bs : List ℕ) → copy_out (copy_in c a bs) a (length bs) ≡ bs
unfolding copy_out
copy_out-copy_in c a [] = refl
copy_out-copy_in c a (b ∷ bs) = ap₂ ◌∷◌ (copy_in-hit c a b bs) (
    copy_out_local (copy_in c a (b ∷ bs)) (copy_in c (suc a) bs) (suc a) (length bs)
      (λ x p q. copy_in-skip c a b bs x (omega arith))
    ∙ copy_out-copy_in c (suc a) bs)

pub take-copy_out : (c : ℕ → ℕ) (a k n : ℕ) → k ≤ n → take k (copy_out c a n) ≡ copy_out c a k
unfolding copy_out
take-copy_out c a zero n h = refl
take-copy_out c a (suc k) zero h = absurd (omega arith)
take-copy_out c a (suc k) (suc n) h = ap (λ l. c a ∷ l) (take-copy_out c (suc a) k n (omega arith))

pub drop-copy_out : (c : ℕ → ℕ) (a k n : ℕ) → drop k (copy_out c a n) ≡ copy_out c (a + k) (n - k)
unfolding copy_out
drop-copy_out c a zero n =
    let e : a + 0 ≡ a = omega arith in let f : n - 0 ≡ n = omega arith in rw (e, f) refl
drop-copy_out c a (suc k) zero = let f : 0 - suc k ≡ 0 = omega arith in rw f refl
drop-copy_out c a (suc k) (suc n) =
    let e : a + suc k ≡ suc a + k = omega arith in
    let f : suc n - suc k ≡ n - k = omega arith in rw (e, f) (drop-copy_out c (suc a) k n)
