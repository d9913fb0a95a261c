-- ===== src/Utils/Config/Cast.antt =====
-- `LexicalCast` (utils/config.h): the conversions between texts and values, which nest as their
-- partial specialisations do. boost and yaml-cpp are parameters. Left out are the unordered
-- containers, whose order is the library's, and `std::list`, whose conversion to text, with its
-- `f[i]`, does not compile.
pub mod Order
pub mod RoundTrip
pub mod Nested
use xzmjx_rpc.Prelude.{
  ℕ, List, [], ◌∷◌, Bool, true, false, if◌then◌else◌, ◌==◌, ltb, ◌&&◌, ◌||◌, Outcome, ok, ◌>>=◌,
}

-- The types, over the scalar types `S`; the keys of a map are strings.
pub data Kind (S : Type 0) : Type 0 where
  scalar : S → Kind S
  vector : Kind S → Kind S
  set : Kind S → Kind S
  map : Kind S → Kind S

-- A set and a map are lists in the order of iteration.
abbrev pub Value : {S : Type 0} → (S → Type 0) → Kind S → Type 0
Value V (scalar s) = V s
Value V (vector k) = List (Value V k)
Value V (set k) = List (Value V k)
Value V (map k) = List (List ℕ × Value V k)

-- What the code uses of yaml-cpp on nodes `N`. `scalar`, `sequence` and `mapping` are the node of a
-- string, and those of a sequence and of a map whose children are appended one by one; `items` are
-- `node[i]` for the `i` below `node.size()`, `entries` what an iterator gives, with `first.Scalar()`.
pub record Yaml (N : Type 0) : Type 0 where
  pub load : List ℕ → Outcome N
  pub emit : N → List ℕ
  pub plain : List ℕ → N
  pub sequence : List N → N
  pub mapping : List (List ℕ × N) → N
  pub items : N → List N
  pub entries : N → List (List ℕ × N)

-- `boost::lexical_cast` of the scalar types.
pub record Scalars {S : Type 0} (V : S → Type 0) : Type 0 where
  pub to_text : (s : S) → V s → List ℕ
  pub from_text : (s : S) → List ℕ → Outcome (V s)

-- The loop over a container; the first exception ends it.
unfoldable pub each : {A B : Type 0} → (A → Outcome B) → List A → Outcome (List B)
each f [] = ok []
each f (x ∷ xs) = f x >>= (λ y. each f xs >>= (λ ys. ok (y ∷ ys)))

unfoldable pub plain_nodes : {N : Type 0} → Yaml N → List (List ℕ) → List N
plain_nodes yaml [] = []
plain_nodes yaml (t ∷ ts) = yaml.plain t ∷ plain_nodes yaml ts

-- `operator<` of `std::string`.
unfoldable pub text_less : List ℕ → List ℕ → Bool
text_less xs [] = false
text_less [] (y ∷ ys) = true
text_less (x ∷ xs) (y ∷ ys) = ltb x y || x == y && text_less xs ys

unfoldable pub key_less : {A : Type 0} → List ℕ × A → List ℕ × A → Bool
unfolding text_less
key_less a b = text_less a.0 b.0

-- `insert` of a `std::set` or a `std::map`, which keeps an equivalent element.
unfoldable pub insert : {A : Type 0} → (A → A → Bool) → A → List A → List A
insert less x [] = x ∷ []
insert less x (y ∷ ys) =
    let rest = insert less x ys in
    if less x y then x ∷ y ∷ ys else if less y x then y ∷ rest else y ∷ ys

-- Insertions one after the other.
unfoldable pub insert_all : {A : Type 0} → (A → A → Bool) → List A → List A → List A
unfolding insert
insert_all less ans [] = ans
insert_all less ans (x ∷ xs) = insert_all less (insert less x ans) xs

-- The specialisations for containers, by the conversion of their elements.
module _ {N : Type 0} (yaml : Yaml N) {A : Type 0} where
  abbrev pub vector_to_string : (A → Outcome (List ℕ)) → List A → Outcome (List ℕ)
  vector_to_string cast f =
      each (λ v. cast v >>= (λ t. yaml.load t)) f >>= (λ ns. ok (yaml.emit (yaml.sequence ns)))

  abbrev pub vector_from_string : (List ℕ → Outcome A) → List ℕ → Outcome (List A)
  vector_from_string cast f = yaml.load f >>= (λ n. each (λ m. cast (yaml.emit m)) (yaml.items n))

  abbrev pub set_to_string : (A → Outcome (List ℕ)) → List A → Outcome (List ℕ)
  set_to_string cast f =
      each cast f >>= (λ ts. ok (yaml.emit (yaml.sequence (plain_nodes yaml ts))))

  abbrev pub set_from_string : (A → A → Bool) → (List ℕ → Outcome A) → List ℕ → Outcome (List A)
  set_from_string less cast f = yaml.load f >>= (λ n.
      each (λ m. cast (yaml.emit m)) (yaml.items n) >>= (λ vs. ok (insert_all less [] vs)))

  abbrev pub map_to_string : (A → Outcome (List ℕ)) → List (List ℕ × A) → Outcome (List ℕ)
  map_to_string cast f =
      each (λ e. cast e.1 >>= (λ t. yaml.load t >>= (λ n. ok (e.0, n)))) f
      >>= (λ ns. ok (yaml.emit (yaml.mapping ns)))

  abbrev pub map_from_string : (List ℕ → Outcome A) → List ℕ → Outcome (List (List ℕ × A))
  map_from_string cast f = yaml.load f >>= (λ n.
      each (λ e. cast (yaml.emit e.1) >>= (λ v. ok (e.0, v))) (yaml.entries n)
      >>= (λ es. ok (insert_all key_less [] es)))

module _ {S : Type 0} {V : S → Type 0} {N : Type 0} (yaml : Yaml N) (scalars : Scalars V)
    (less : (k : Kind S) → Value V k → Value V k → Bool) where
  -- `LexicalCast<T, std::string>`
  unfoldable pub to_string : (k : Kind S) → Value V k → Outcome (List ℕ)
  to_string (scalar s) v = ok (scalars.to_text s v)
  to_string (vector k) vs = vector_to_string yaml (to_string k) vs
  to_string (set k) vs = set_to_string yaml (to_string k) vs
  to_string (map k) es = map_to_string yaml (to_string k) es

  -- `LexicalCast<std::string, T>`
  unfoldable pub from_string : (k : Kind S) → List ℕ → Outcome (Value V k)
  from_string (scalar s) t = scalars.from_text s t
  from_string (vector k) t = vector_from_string yaml (from_string k) t
  from_string (set k) t = set_from_string yaml (less k) (from_string k) t
  from_string (map k) t = map_from_string yaml (from_string k) t
