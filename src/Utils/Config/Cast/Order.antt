-- ===== src/Utils/Config/Cast/Order.antt =====
-- The loops of `LexicalCast` (utils/config.h), and the order of its containers.
use xzmjx_rpc.Prelude.{
  ℕ, ◌≡◌, refl, sym, ap, ap₂, subst, ◌∙◌, List, [], ◌∷◌, ◌++◌, append-nil, append_assoc, Bool, true,
  false, All, Outcome, ok,
}
use xzmjx_rpc.Utils.Config.Cast.{each, text_less, key_less, insert, insert_all}

abbrev pub image : {A B : Type 0} → (A → B) → List A → List B
image f [] = []
image f (x ∷ xs) = f x ∷ image f xs

-- Converting there and back, element by element, where `p` and `q` are what the two sides share.
pub each-each :
    {A B C : Type 0} (f : A → Outcome B) (g : B → Outcome A) (p : A → C) (q : B → C) (xs : List A)
    → All (λ x. (y : B) × (f x ≡ ok y) × (g y ≡ ok x) × (q y ≡ p x)) xs
    → (ys : List B) × (each f xs ≡ ok ys) × (each g ys ≡ ok xs) × (image q ys ≡ image p xs)
unfolding each
each-each f g p q [] h = ([], refl, refl, refl)
each-each f g p q (x ∷ xs) ((y, there, back, e), h) =
    let (ys, theres, backs, es) = each-each f g p q xs h in
    (y ∷ ys, rw (there, theres) refl, rw (back, backs) refl, ap₂ (λ a l. a ∷ l) e es)

-- `x` comes behind each of the elements.
abbrev pub Behind : {A : Type 0} → (A → A → Bool) → A → List A → Type 0
Behind less x ys = All (λ y. (less y x ≡ true) × (less x y ≡ false)) ys

-- The order in which a set or a map iterates: each element comes behind those in front of it.
abbrev pub IsAscending : {A : Type 0} → (A → A → Bool) → List A → List A → Type 0
IsAscending less before [] = Unit
IsAscending less before (x ∷ xs) = Behind less x before × IsAscending less (before ++ (x ∷ [])) xs

pub insert-Behind :
    {A : Type 0} (less : A → A → Bool) (x : A) (ys : List A)
    → Behind less x ys
    → insert less x ys ≡ ys ++ (x ∷ [])
unfolding insert
insert-Behind less x [] h = refl
insert-Behind less x (y ∷ ys) ((yx, xy), h) =
    rw (xy, yx) (ap (λ l. y ∷ l) (insert-Behind less x ys h))

pub insert_all-IsAscending :
    {A : Type 0} (less : A → A → Bool) (before xs : List A)
    → IsAscending less before xs
    → insert_all less before xs ≡ before ++ xs
unfolding insert_all
insert_all-IsAscending less before [] h = sym (append-nil before)
insert_all-IsAscending less before (x ∷ xs) (b, h) =
    ap (λ l. insert_all less l xs) (insert-Behind less x before b)
    ∙ insert_all-IsAscending less (before ++ (x ∷ [])) xs h
    ∙ append_assoc before (x ∷ []) xs

pub image-append :
    {A B : Type 0} (f : A → B) (xs ys : List A) → image f (xs ++ ys) ≡ image f xs ++ image f ys
image-append f [] ys = refl
image-append f (x ∷ xs) ys = ap (λ l. f x ∷ l) (image-append f xs ys)

pub All-map :
    {A : Type 0} {P Q : A → Type 0} (f : (x : A) → P x → Q x) (xs : List A) → All P xs → All Q xs
All-map f [] h = tt
All-map f (x ∷ xs) (p, h) = (f x p, All-map f xs h)

-- The keys of a map, in the order of iteration.
abbrev pub keys : {A : Type 0} → List (List ℕ × A) → List (List ℕ)
keys es = image (λ e. e.0) es

pub keys-IsAscending :
    {A : Type 0} (before es : List (List ℕ × A))
    → IsAscending text_less (keys before) (keys es)
    → IsAscending key_less before es
unfolding key_less
keys-IsAscending before [] h = tt
keys-IsAscending before (e ∷ es) (b, h) = (
  behind before b,
  keys-IsAscending (before ++ (e ∷ [])) es (
      subst (λ l. IsAscending text_less l (keys es)) (sym (image-append (λ x. x.0) before (e ∷ [])))
        h),
)
  where
    behind : (ys : _) → Behind text_less e.0 (keys ys) → Behind key_less e ys
    behind [] b = tt
    behind (y ∷ ys) (c, b) = (c, behind ys b)
