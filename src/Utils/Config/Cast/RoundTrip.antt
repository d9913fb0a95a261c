-- ===== src/Utils/Config/Cast/RoundTrip.antt =====
-- What `LexicalCast` (utils/config.h) makes of its own texts.
use xzmjx_rpc.Prelude.{
  ℕ, ◌≡◌, refl, sym, ap, subst, ◌∙◌, List, [], ◌∷◌, Bool, All, Outcome, ok, ◌>>=◌,
}
use xzmjx_rpc.Utils.Config.Cast.{
  Kind, scalar, vector, set, map, Value, Yaml, Scalars, each, plain_nodes, text_less, key_less,
  to_string, from_string,
}
use xzmjx_rpc.Utils.Config.Cast.Order.{
  each-each, IsAscending, insert_all-IsAscending, All-map, keys, keys-IsAscending,
}

-- What yaml-cpp documents: a text that it emits loads as the same node, and the children of a node
-- are those that it was given.
pub record IsYaml {N : Type 0} (yaml : Yaml N) : Type 0 where
  pub reload : (n : N) → yaml.load (yaml.emit n) ≡ ok n
  pub items-sequence : (ns : List N) → yaml.items (yaml.sequence ns) ≡ ns
  pub entries-mapping :
      (es : List (List ℕ × N))
      → IsAscending text_less [] (keys es)
      → yaml.entries (yaml.mapping es) ≡ es

-- A scalar whose text is read back, and is plain in YAML: loaded, or pushed as a string, it is
-- emitted as it stands. A number is; a string that needs quotes, the empty one among them, is not.
pub record IsPlain {S : Type 0} {V : S → Type 0} {N : Type 0} (yaml : Yaml N) (scalars : Scalars V)
    (s : S) (v : V s) : Type 0 where
  pub node : N
  pub reads : scalars.from_text s (scalars.to_text s v) ≡ ok v
  pub loads : yaml.load (scalars.to_text s v) ≡ ok node
  pub emits_loaded : yaml.emit node ≡ scalars.to_text s v
  pub emits : yaml.emit (yaml.plain (scalars.to_text s v)) ≡ scalars.to_text s v

abbrev pub IsScalar : {S : Type 0} → Kind S → Type 0
IsScalar (scalar s) = Unit
IsScalar (vector k) = ⊥
IsScalar (set k) = ⊥
IsScalar (map k) = ⊥

module _ {S : Type 0} {V : S → Type 0} {N : Type 0} (yaml : Yaml N) (scalars : Scalars V)
    (less : (k : Kind S) → Value V k → Value V k → Bool) where
  -- The scalars are plain; sets, of scalars, and maps, have their elements in order.
  unfoldable pub IsRegular : (k : Kind S) → Value V k → Type 0
  IsRegular (scalar s) v = IsPlain yaml scalars s v
  IsRegular (vector k) vs = All (IsRegular k) vs
  IsRegular (set k) vs = IsScalar k × All (IsRegular k) vs × IsAscending (less k) [] vs
  IsRegular (map k) es = All (λ e. IsRegular k e.1) es × IsAscending text_less [] (keys es)

  -- The text of a value, with what loading and emitting make of it.
  pub record Printed (k : Kind S) (v : Value V k) : Type 0 where
    pub text : List ℕ
    pub node : N
    pub printed : to_string yaml scalars less k v ≡ ok text
    pub loaded : yaml.load text ≡ ok node
    pub emitted : yaml.emit node ≡ text
    pub read : from_string yaml scalars less k text ≡ ok v

  pub each-plain_nodes :
      {A : Type 0} (f : N → Outcome A) (ts : List (List ℕ))
      → each f (plain_nodes yaml ts) ≡ each (λ t. f (yaml.plain t)) ts
  unfolding each plain_nodes
  each-plain_nodes f [] = refl
  each-plain_nodes f (t ∷ ts) =
      ap (λ l. f (yaml.plain t) >>= (λ y. l >>= (λ ys. ok (y ∷ ys)))) (each-plain_nodes f ts)

  module _ (y : IsYaml yaml) where
    -- The text of a container is what its node is emitted as.
    emitted-Printed :
        (k : Kind S) (v : Value V k) (n : N)
        → to_string yaml scalars less k v ≡ ok (yaml.emit n)
        → from_string yaml scalars less k (yaml.emit n) ≡ ok v
        → Printed k v
    emitted-Printed k v n there back = record {
      text = yaml.emit n;
      node = n;
      printed = there;
      loaded = y.reload n;
      emitted = refl;
      read = back;
    }

    child :
        (k : Kind S) (v : Value V k)
        → Printed k v
        → (n : N) × ((to_string yaml scalars less k v >>= (λ t. yaml.load t)) ≡ ok n)
          × (from_string yaml scalars less k (yaml.emit n) ≡ ok v)
    child k v r = (r.node, rw (r.printed) r.loaded, rw (r.emitted) r.read)

    entry :
        (k : Kind S) (e : List ℕ × Value V k)
        → Printed k e.1
        → (m : List ℕ × N) × ((to_string yaml scalars less k e.1
              >>= (λ t. yaml.load t >>= (λ n. ok (e.0, n))))
            ≡ ok m)
          × ((from_string yaml scalars less k (yaml.emit m.1) >>= (λ v. ok (m.0, v))) ≡ ok e)
          × (m.0 ≡ e.0)
    entry k e r = ((e.0, r.node), rw (r.printed, r.loaded) refl, rw (r.emitted, r.read) refl, refl)

    pub to_string-Printed : (k : Kind S) (v : Value V k) → IsRegular k v → Printed k v
    unfolding IsRegular to_string from_string
    to_string-Printed (scalar s) v h = record {
      text = scalars.to_text s v;
      node = h.node;
      printed = refl;
      loaded = h.loads;
      emitted = h.emits_loaded;
      read = h.reads;
    }
    to_string-Printed (vector k) vs h =
        let elements =
          All-map
            (λ v r.
              let (n, there, back) = child k v (to_string-Printed k v r) in (n, there, back, refl))
            vs h in
        let (ns, there, back, e) =
          each-each (λ v. to_string yaml scalars less k v >>= (λ t. yaml.load t))
            (λ m. from_string yaml scalars less k (yaml.emit m)) (λ v. tt) (λ n. tt) vs elements in
        emitted-Printed (vector k) vs (yaml.sequence ns) (rw there refl)
          (rw (y.reload (yaml.sequence ns), y.items-sequence ns) back)
    to_string-Printed (set (scalar s)) vs (i, plains, h) =
        let read : List ℕ → Outcome (V s) = λ t. scalars.from_text s (yaml.emit (yaml.plain t)) in
        let elements =
          All-map
            (λ v (p : IsPlain yaml scalars s v).
              (scalars.to_text s v, refl, ap (scalars.from_text s) p.emits ∙ p.reads, refl))
            vs plains in
        let (ts, there, back, e) =
          each-each (λ v. ok (scalars.to_text s v)) read (λ v. tt) (λ t. tt) vs elements in
        let nodes = plain_nodes yaml ts in
        emitted-Printed (set (scalar s)) vs (yaml.sequence nodes) (rw there refl) (
          rw
            (
              y.reload (yaml.sequence nodes),
              y.items-sequence nodes,
              each-plain_nodes (λ m. scalars.from_text s (yaml.emit m)) ts,
              back,
            )
            (ap ok (insert_all-IsAscending (less (scalar s)) [] vs h)))
    to_string-Printed (set (vector k)) vs (i, plains, h) = absurd i
    to_string-Printed (set (set k)) vs (i, plains, h) = absurd i
    to_string-Printed (set (map k)) vs (i, plains, h) = absurd i
    to_string-Printed (map k) es (h, a) =
        let elements = All-map (λ e r. entry k e (to_string-Printed k e.1 r)) es h in
        let (ns, there, back, same) =
          each-each
            (λ e. to_string yaml scalars less k e.1 >>= (λ t. yaml.load t >>= (λ n. ok (e.0, n))))
            (λ e. from_string yaml scalars less k (yaml.emit e.1) >>= (λ v. ok (e.0, v))) (λ e. e.0)
            (λ e. e.0) es elements in
        let ordered = subst (IsAscending text_less []) (sym same) a in
        emitted-Printed (map k) es (yaml.mapping ns) (rw there refl) (
          rw (y.reload (yaml.mapping ns), y.entries-mapping ns ordered, back)
            (ap ok (insert_all-IsAscending key_less [] es (keys-IsAscending [] es a))))

    -- For every nesting of vectors, of maps and of sets of scalars, whose sets and maps are in order
    -- and whose scalars are plain in YAML, that is read back from their texts, which are loaded and
    -- emitted as they stand, loaded or pushed as a string: the conversion to text succeeds, and the
    -- conversion from that text gives the value back.
    pub from_string-to_string :
        (k : Kind S) (v : Value V k)
        → IsRegular k v
        → (t : List ℕ) × (to_string yaml scalars less k v ≡ ok t)
          × (from_string yaml scalars less k t ≡ ok v)
    from_string-to_string k v h = let r = to_string-Printed k v h in (r.text, r.printed, r.read)
