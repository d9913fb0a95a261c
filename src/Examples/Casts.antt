-- ===== src/Examples/Casts.antt =====
-- Concrete runs of the conversions of the configuration, where a node of YAML is its text: 1 or 3,
-- the number of its parts, and each part behind its length, or a string, quoted where it needs it.
use xzmjx_rpc.Prelude.{
  ℕ, suc, zero, ◌+◌, ◌-◌, ◌≡◌, ◌∙◌, refl, ne→==, ap, arith, List, [], ◌∷◌, ◌++◌, Bool, true, false,
  ltb, if◌then◌else◌, ◌==◌, Bool-cases, inl, inr, take, drop, All, length, Outcome, ok, threw,
  invalid_argument,
}
use xzmjx_rpc.Utils.Config.Cast.{
  Kind, scalar, vector, set, map, Value, text_less, Yaml, Scalars, to_string, from_string,
}
use xzmjx_rpc.Utils.Config.Cast.RoundTrip.{IsYaml, IsPlain, IsRegular, from_string-to_string}
use xzmjx_rpc.Utils.Config.Cast.Nested.{set_of_vectors_lost}

flatten : List (List ℕ) → List ℕ
flatten [] = []
flatten (t ∷ ts) = length t ∷ (t ++ flatten ts)

parts : ℕ → List ℕ → List (List ℕ)
parts zero r = []
parts (suc n) [] = []
parts (suc n) (l ∷ r) = take l r ∷ parts n (drop l r)

take-whole : (t r : List ℕ) → take (length t) (t ++ r) ≡ t
take-whole [] r = refl
take-whole (x ∷ t) r = ap (λ l. x ∷ l) (take-whole t r)

drop-whole : (t r : List ℕ) → drop (length t) (t ++ r) ≡ r
drop-whole [] r = refl
drop-whole (x ∷ t) r = drop-whole t r

parts-flatten : (ts : List (List ℕ)) → parts (length ts) (flatten ts) ≡ ts
unfolding parts flatten
parts-flatten [] = refl
parts-flatten (t ∷ ts) =
    rw (take-whole t (flatten ts), drop-whole t (flatten ts)) (ap (λ l. t ∷ l) (parts-flatten ts))

interleave : List (List ℕ × List ℕ) → List (List ℕ)
interleave [] = []
interleave ((k, v) ∷ es) = k ∷ v ∷ interleave es

paired : List (List ℕ) → List (List ℕ × List ℕ)
paired [] = []
paired (k ∷ []) = []
paired (k ∷ v ∷ ts) = (k, v) ∷ paired ts

paired-interleave : (es : List (List ℕ × List ℕ)) → paired (interleave es) ≡ es
unfolding interleave paired
paired-interleave [] = refl
paired-interleave ((k, v) ∷ es) = ap (λ l. (k, v) ∷ l) (paired-interleave es)

-- The parts of a node with this mark.
marked : ℕ → List ℕ → List (List ℕ)
unfolding parts
marked mark [] = []
marked mark (c ∷ []) = []
marked mark (c ∷ n ∷ r) = if c == mark then parts n r else []

quoted : List ℕ → List ℕ
quoted [] = []
quoted (c ∷ t) = if c == 1 then 2 ∷ c ∷ t else c ∷ t

yaml : Yaml (List ℕ)
unfolding flatten marked quoted interleave paired
yaml = record {
  load = λ t. ok t;
  emit = λ n. n;
  plain = quoted;
  sequence = λ ns. 1 ∷ length ns ∷ flatten ns;
  mapping = λ es. 3 ∷ length (interleave es) ∷ flatten (interleave es);
  items = marked 1;
  entries = λ n. paired (marked 3 n);
}

yaml-IsYaml : IsYaml yaml
unfolding yaml marked
yaml-IsYaml = record {
  reload = λ n. refl;
  items-sequence = parts-flatten;
  entries-mapping = λ es h. ap paired (parts-flatten (interleave es)) ∙ paired-interleave es;
}

marked-quoted : (t : List ℕ) → marked 1 (quoted t) ≡ []
unfolding marked quoted
marked-quoted [] = refl
marked-quoted (c ∷ t) = elim (Bool-cases (c == 1)) [
  | inl e ↦ rw e refl
  | inr e ↦ rw e (unmarked c t e)
]
  where
    unmarked : (c : ℕ) (t : List ℕ) → (c == 1) ≡ false → marked 1 (c ∷ t) ≡ []
    unmarked c [] e = refl
    unmarked c (d ∷ t) e = rw e refl

-- One scalar type, of the digits.
read_digit : List ℕ → Outcome ℕ
read_digit [] = threw invalid_argument
read_digit (c ∷ []) = ok (c - 48)
read_digit (c ∷ d ∷ t) = threw invalid_argument

digits : Scalars {S = Unit} (λ s. ℕ)
unfolding read_digit
digits = record { to_text = λ s v. (48 + v) ∷ []; from_text = λ s t. read_digit t }

digit-IsPlain : (v : ℕ) → IsPlain yaml digits tt v
unfolding digits read_digit yaml quoted
digit-IsPlain v = record {
  node = (48 + v) ∷ [];
  reads = ap ok (omega arith);
  loads = refl;
  emits_loaded = refl;
  emits = rw (ne→== (48 + v) 1 (λ e. absurd (omega (arith, e)))) refl;
}

order : (k : Kind Unit) → Value (λ s. ℕ) k → Value (λ s. ℕ) k → Bool
order (scalar s) a b = ltb a b
order (vector k) a b = false
order (set k) a b = false
order (map k) a b = false

-- A map from names to vectors of sets: `{a: [[1, 4], [2]], b: []}`.
abbrev named : Kind Unit
named = map (vector (set (scalar tt)))

abbrev named_groups : Value (λ s. ℕ) named
named_groups = (b'a' ∷ [], (1 ∷ 4 ∷ []) ∷ (2 ∷ []) ∷ []) ∷ (b'b' ∷ [], []) ∷ []

named_groups-IsRegular : IsRegular yaml digits order named named_groups
unfolding IsRegular order text_less
named_groups-IsRegular =
    let above : (true ≡ true) × (false ≡ false) = (refl, refl) in
    let d = digit-IsPlain in
    (
      (
        ((tt, (d 1, (d 4, tt)), (tt, ((above, tt), tt))), ((tt, (d 2, tt), (tt, tt)), tt)),
        (tt, tt),
      ),
      (tt, ((above, tt), tt)),
    )

vectors-IsRegular :
    All (IsRegular yaml digits order (vector (scalar tt))) ((1 ∷ 4 ∷ []) ∷ (2 ∷ []) ∷ [])
unfolding IsRegular
vectors-IsRegular = let d = digit-IsPlain in ((d 1, (d 4, tt)), ((d 2, tt), tt))

from_string-to_string_example :
    (t : List ℕ) × (to_string yaml digits order named named_groups ≡ ok t)
    × (from_string yaml digits order named t ≡ ok named_groups)
unfolding order
from_string-to_string_example =
    from_string-to_string yaml digits order yaml-IsYaml named named_groups named_groups-IsRegular

set_of_vectors_example :
    (t : List ℕ) × (to_string yaml digits order
        (set (vector (scalar tt)))
        ((1 ∷ 4 ∷ []) ∷ (2 ∷ []) ∷ [])
      ≡ ok t)
    × (from_string yaml digits order (set (vector (scalar tt))) t ≡ ok ([] ∷ []))
unfolding yaml order
set_of_vectors_example =
    set_of_vectors_lost yaml digits order yaml-IsYaml (scalar tt) (1 ∷ 4 ∷ []) ((2 ∷ []) ∷ [])
      vectors-IsRegular marked-quoted refl
