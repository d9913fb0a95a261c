-- ===== src/Utils/Config/Cast/Nested.antt =====
-- Sets of vectors in `LexicalCast` (utils/config.h): the text of an element is pushed as a string,
-- where a vector and a map load it first.
use xzmjx_rpc.Prelude.{ℕ, ◌≡◌, refl, ap, ◌∙◌, List, [], ◌∷◌, Bool, false, All, Outcome, ok}
use xzmjx_rpc.Utils.Config.Cast.{
  Kind, vector, set, Value, Yaml, Scalars, each, plain_nodes, insert, insert_all, to_string,
  from_string,
}
use xzmjx_rpc.Utils.Config.Cast.Order.{image, All-map}
use xzmjx_rpc.Utils.Config.Cast.RoundTrip.{IsYaml, IsRegular, to_string-Printed}

each-ok :
    {A B : Type 0} (f : A → Outcome B) (xs : List A)
    → All (λ x. (y : B) × (f x ≡ ok y)) xs
    → (ys : List B) × (each f xs ≡ ok ys)
unfolding each
each-ok f [] h = ([], refl)
each-ok f (x ∷ xs) ((y, e), h) = let (ys, es) = each-ok f xs h in (y ∷ ys, rw (e, es) refl)

each-cons :
    {A B : Type 0} (f : A → Outcome B) (x : A) (xs : List A) (y : B) (ys : List B)
    → f x ≡ ok y
    → each f xs ≡ ok ys
    → each f (x ∷ xs) ≡ ok (y ∷ ys)
unfolding each
each-cons f x xs y ys e es = rw (e, es) refl

insert-again :
    {A : Type 0} (less : A → A → Bool) (x : A) → less x x ≡ false → insert less x (x ∷ []) ≡ x ∷ []
unfolding insert
insert-again less x h = rw h refl

-- One element inserted again and again.
insert-same :
    {A B : Type 0} (less : A → A → Bool) (x : A) (ts : List B)
    → less x x ≡ false
    → insert_all less (x ∷ []) (image (λ t. x) ts) ≡ x ∷ []
unfolding insert_all
insert-same less x [] h = refl
insert-same less x (t ∷ ts) h =
    ap (λ l. insert_all less l (image (λ t. x) ts)) (insert-again less x h)
    ∙ insert-same less x ts h

insert_all-same :
    {A B : Type 0} (less : A → A → Bool) (x : A) (ts : List B)
    → less x x ≡ false
    → insert_all less [] (x ∷ image (λ t. x) ts) ≡ x ∷ []
unfolding insert_all insert
insert_all-same less x ts h = insert-same less x ts h

module _ {S : Type 0} {V : S → Type 0} {N : Type 0} (yaml : Yaml N) (scalars : Scalars V)
    (less : (k : Kind S) → Value V k → Value V k → Bool) (y : IsYaml yaml) where
  each-empty :
      (k : Kind S) (ts : List (List ℕ))
      → ((t : List ℕ) → yaml.items (yaml.plain t) ≡ [])
      → each (λ m. from_string yaml scalars less (vector k) (yaml.emit m)) (plain_nodes yaml ts)
        ≡ ok (image (λ t. []) ts)
  unfolding each plain_nodes from_string
  each-empty k [] h = refl
  each-empty k (t ∷ ts) h = rw (y.reload (yaml.plain t), h t, each-empty k ts h) refl

  -- A set of any type, written as strings, and read from them.
  to_string-set :
      (k : Kind S) (vs : List (Value V k)) (ts : List (List ℕ))
      → each (to_string yaml scalars less k) vs ≡ ok ts
      → to_string yaml scalars less (set k) vs
        ≡ ok (yaml.emit (yaml.sequence (plain_nodes yaml ts)))
  unfolding to_string
  to_string-set k vs ts h = rw h refl

  from_string-set :
      (k : Kind S) (vs : List (Value V k)) (ts : List (List ℕ))
      → each (λ m. from_string yaml scalars less k (yaml.emit m)) (plain_nodes yaml ts) ≡ ok vs
      → from_string yaml scalars less (set k) (yaml.emit (yaml.sequence (plain_nodes yaml ts)))
        ≡ ok (insert_all (less k) [] vs)
  unfolding from_string
  from_string-set k vs ts h =
      rw (y.reload (yaml.sequence (plain_nodes yaml ts)), y.items-sequence (plain_nodes yaml ts), h)
        refl

  prints :
      (k : Kind S) (v : Value V k)
      → IsRegular yaml scalars less k v
      → (t : List ℕ) × (to_string yaml scalars less k v ≡ ok t)
  prints k v h = let q = to_string-Printed yaml scalars less y k v h in (q.text, q.printed)

  -- A set of vectors, which is not empty, is converted to a text from which one empty vector is
  -- read, whatever regular vectors of plain scalars it holds, where a string has no items and the
  -- empty vector is not below itself.
  pub set_of_vectors_lost :
      (k : Kind S) (v : Value V (vector k)) (vs : List (Value V (vector k)))
      → All (IsRegular yaml scalars less (vector k)) (v ∷ vs)
      → ((t : List ℕ) → yaml.items (yaml.plain t) ≡ [])
      → less (vector k) [] [] ≡ false
      → (t : List ℕ) × (to_string yaml scalars less (set (vector k)) (v ∷ vs) ≡ ok t)
        × (from_string yaml scalars less (set (vector k)) t ≡ ok ([] ∷ []))
  set_of_vectors_lost k v vs (h, hs) items order =
      let (t, e) = prints (vector k) v h in
      let (ts, es) =
        each-ok (to_string yaml scalars less (vector k)) vs (All-map (prints (vector k)) vs hs) in
      (
        yaml.emit (yaml.sequence (plain_nodes yaml (t ∷ ts))),
        to_string-set (vector k) (v ∷ vs) (t ∷ ts) (each-cons _ v vs t ts e es),
        from_string-set (vector k) _ (t ∷ ts) (each-empty k (t ∷ ts) items)
            ∙ ap ok (insert_all-same (less (vector k)) [] ts order),
      )
