-- ===== src/Rpc/Text.antt =====
-- Strings of the rpc folder as lists of bytes: their literals and their comparison.
use Prim.Native.String.{String}
use Prim.Native.Char.{code}
use xzmjx_rpc.Prelude.{
  ℕ, List, [], ◌∷◌, Bool, true, false, ◌==◌, ◌&&◌, ◌≡◌, refl, ap₂, ==_self, ==→eq, Bool-cases, inl,
  inr, ◌≢◌,
}

abbrev pub text : String → List ℕ
text String.[] = []
text (String.◌∷◌ c s) = code c ∷ text s

unfoldable pub same : List ℕ → List ℕ → Bool
same [] [] = true
same [] (y ∷ ys) = false
same (x ∷ xs) [] = false
same (x ∷ xs) (y ∷ ys) = x == y && same xs ys

pub same_self : (xs : List ℕ) → same xs xs ≡ true
unfolding same
same_self [] = refl
same_self (x ∷ xs) = rw (==_self x, same_self xs)

pub same→eq : (xs ys : List ℕ) → same xs ys ≡ true → xs ≡ ys
unfolding same
same→eq [] [] h = refl
same→eq [] (y ∷ ys) h = cc
same→eq (x ∷ xs) [] h = cc
same→eq (x ∷ xs) (y ∷ ys) h = elim (Bool-cases (x == y)) [
  | inl e ↦ ap₂ (λ a l. a ∷ l) (==→eq x y e) (same→eq xs ys (rw e at h))
  | inr e ↦ cc (rw e at h)
]

pub ne→same : (xs ys : List ℕ) → xs ≢ ys → same xs ys ≡ false
ne→same xs ys h = elim (Bool-cases (same xs ys)) [
  | inl e ↦ absurd (h (same→eq xs ys e))
  | inr e ↦ e
]
