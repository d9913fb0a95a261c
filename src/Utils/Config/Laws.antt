-- ===== src/Utils/Config/Laws.antt =====
-- What `Config::Lookup` and `Config::LoadFromYaml` (utils/config.h, utils/config.cpp) do to the
-- variables.
use xzmjx_rpc.Prelude.{
  ℕ, suc, ◌≡◌, ◌≢◌, refl, ap, sym, ◌∙◌, List, [], ◌∷◌, ◌++◌, Option, none, some, Bool, true, false,
  ◌&&◌, if◌then◌else◌, ◌==◌, ok, length, Bool-cases, Option-cases, inl, inr, arith, All, ==_self,
  subst, ne→==,
}
use xzmjx_rpc.Rpc.Text.{same, same_self, same→eq}
use xzmjx_rpc.Utils.Dict.{lookup, insert, lookup-insert_self, lookup-insert_ne}
use xzmjx_rpc.Utils.Config.Defs.{
  Node, scalar, map, other, Entries, end, entry, list_all_nodes, list_entries, ConfigVar, Vars,
  is_name, is_name_char, to_lower, lookup_default, lookup_var, set_value, load_string, load_nodes,
  load_from_yaml,
}

-- Whether the second text begins with the first.
abbrev pub starts : List ℕ → List ℕ → Bool
starts [] xs = true
starts (p ∷ ps) [] = false
starts (p ∷ ps) (x ∷ xs) = p == x && starts ps xs

starts-append : (p xs ys : List ℕ) → starts p xs ≡ true → starts p (xs ++ ys) ≡ true
starts-append [] xs ys h = refl
starts-append (a ∷ p) [] ys h = cc
starts-append (a ∷ p) (x ∷ xs) ys h = elim (Bool-cases (a == x)) [
  | inl e ↦ rw e (starts-append p xs ys (rw e at h))
  | inr e ↦ cc (rw e at h)
]

starts_self : (p : List ℕ) → starts p p ≡ true
starts_self [] = refl
starts_self (a ∷ p) = rw (==_self a) (starts_self p)

abbrev Below : List ℕ → List (List ℕ × Node) → Type 0
Below p = All (λ (e : List ℕ × Node). starts p e.0 ≡ true)

Below-append :
    (p : List ℕ) (xs ys : List (List ℕ × Node)) → Below p xs → Below p ys → Below p (xs ++ ys)
Below-append p [] ys h k = k
Below-append p (x ∷ xs) ys h k = (h.0, Below-append p xs ys h.1 k)

-- All keys below a prefix begin with what the prefix begins with.
mutual
  unfolding list_all_nodes

  list_all_nodes-Below :
      (node : Node) (p : List ℕ) (c : ℕ) (prefix : List ℕ)
      → starts p (c ∷ prefix) ≡ true
      → Below p (list_all_nodes (c ∷ prefix) node)
  list_all_nodes-Below (scalar t) p c prefix h = (h, tt)
  list_all_nodes-Below (other t) p c prefix h = (h, tt)
  list_all_nodes-Below (map es) p c prefix h = (h, list_entries-Below es p c prefix h)

  list_entries-Below :
      (es : Entries) (p : List ℕ) (c : ℕ) (prefix : List ℕ)
      → starts p (c ∷ prefix) ≡ true
      → Below p (list_entries (c ∷ prefix) es)
  list_entries-Below end p c prefix h = tt
  list_entries-Below (entry key node es) p c prefix h =
      rw (ne→== (suc (length prefix)) 0 (omega arith)) (
        Below-append p (list_all_nodes (c ∷ (prefix ++ (b'.' ∷ key))) node)
          (list_entries (c ∷ prefix) es)
          (list_all_nodes-Below node p c (prefix ++ (b'.' ∷ key))
            (starts-append p (c ∷ prefix) (b'.' ∷ key) h))
          (list_entries-Below es p c prefix h))

module _ (V : Type 0) (equal : V → V → Bool) (from_string : ℕ → List ℕ → Option V)
    (emit : Node → List ℕ) where
  load_nodes_others :
      (nodes : List (List ℕ × Node)) (p name : List ℕ) (m : Vars V equal from_string emit)
      → Below p nodes
      → starts p name ≡ false
      → lookup name (load_nodes V equal from_string emit nodes m).1 ≡ lookup name m
  unfolding load_nodes load_string set_value
  load_nodes_others [] p name m h k = refl
  load_nodes_others ((key, node) ∷ nodes) p name m h k =
      let ne : name ≢ key = λ e. cc (rw (sym e) at h.0) in
      elim (Bool-cases (length key == 0)) [
        | inl no_key ↦ rw no_key (load_nodes_others nodes p name m h.1 k)
        | inr has_key ↦ elim (Option-cases (lookup key m)) [
          | inl unknown ↦ rw (has_key, unknown) (load_nodes_others nodes p name m h.1 k)
          | inr (v, known) ↦
              rw (has_key, known)
                (load_nodes_others nodes p name _ h.1 k ∙ lookup-insert_ne name key _ m ne)
        ]
      ]

  -- The defect of `LoadFromYaml`: the first key of the file is kept as the prefix of the keys behind
  -- it. Of a map whose first key is not empty, whatever else it holds, no variable is loaded whose
  -- name does not begin with that key: each of them is found as it was before.
  pub load_from_yaml_others :
      (c : ℕ) (key : List ℕ) (node : Node) (rest : Entries) (name : List ℕ)
      (m : Vars V equal from_string emit)
      → starts (c ∷ key) name ≡ false
      → lookup name (load_from_yaml V equal from_string emit (map (entry (c ∷ key) node rest)) m).1
        ≡ lookup name m
  unfolding load_from_yaml load_nodes list_all_nodes
  load_from_yaml_others c key node rest name m h =
      load_nodes_others (list_all_nodes (c ∷ key) node ++ list_entries (c ∷ key) rest) (c ∷ key)
        name m
        (Below-append (c ∷ key) (list_all_nodes (c ∷ key) node) (list_entries (c ∷ key) rest)
          (list_all_nodes-Below node (c ∷ key) c key (starts_self (c ∷ key)))
          (list_entries-Below rest (c ∷ key) c key (starts_self (c ∷ key))))
        h

  -- Every name of the map is a valid one, and the variable's own.
  abbrev pub IsNamed : Vars V equal from_string emit → Type 0
  IsNamed m =
      (k : List ℕ) (v : ConfigVar V) → lookup k m ≡ some v → (is_name k ≡ true) × (v.name ≡ k)

  insert-IsNamed :
      (k : List ℕ) (v : ConfigVar V) (m : Vars V equal from_string emit)
      → IsNamed m
      → is_name k ≡ true
      → v.name ≡ k
      → IsNamed (insert k v m)
  insert-IsNamed k v m h a b j w e = elim (Bool-cases (same j k)) [
    | inl q ↦
        let j≡k = same→eq j k q in
        let w≡v : w ≡ v = cc (e, lookup-insert_self k v m, j≡k) in
        (ap is_name j≡k ∙ a, ap (λ (x : ConfigVar V). x.name) w≡v ∙ b ∙ sym j≡k)
    | inr q ↦ h j w (
        sym (lookup-insert_ne j k v m (λ (p : j ≡ k). cc (q, ap (λ x. same x k) p, same_self k)))
        ∙ e)
  ]

  to_lower-is_name : (k : List ℕ) → is_name k ≡ true → to_lower k ≡ k
  unfolding is_name to_lower is_name_char
  to_lower-is_name [] h = refl
  to_lower-is_name (c ∷ k) h = ground (arith, to_lower-is_name k)

  -- What a successful `Lookup` with a default leaves behind.
  pub record Looked (kind : ℕ) (name : List ℕ) (r : Option (ConfigVar V))
      (m : Vars V equal from_string emit) : Type 0 where
    pub named : IsNamed m
    pub again :
        (default : V) (description : List ℕ)
        → lookup_default V equal from_string emit kind name default description m ≡ ok (r, m)
    pub found : lookup_var V equal from_string emit kind name m ≡ r

  old_var :
      (kind : ℕ) (name : List ℕ) (v : ConfigVar V) (m : Vars V equal from_string emit)
      → IsNamed m
      → lookup name m ≡ some v
      → Looked kind name (if v.kind == kind then some v else none) m
  unfolding lookup_default lookup_var
  old_var kind name v m h e = record {
    named = h;
    again = λ d t. rw (e, lookup_default) refl;
    found = rw (e, lookup_var) refl;
  }

  -- `Lookup` with a default, of a valid name or one that is there, returns; the names of the map stay
  -- valid and the variables' own, and the same `Lookup` again, with any default, gives the same
  -- variable (or the same null pointer, where it is of another type) and changes nothing. A `Lookup`
  -- without a default gives it too.
  pub lookup_default_lem :
      (kind : ℕ) (name : List ℕ) (default : V) (description : List ℕ)
      (m : Vars V equal from_string emit)
      → IsNamed m
      → is_name name ≡ true
      → (r : Option (ConfigVar V)) × (m' : Vars V equal from_string emit) × (lookup_default V equal
            from_string emit kind name default description m
          ≡ ok (r, m'))
        × Looked kind name r m'
  unfolding lookup_default
  lookup_default_lem kind name default description m h n = elim (Option-cases (lookup name m)) [
    | inr (v, e) ↦ (
      (if v.kind == kind then some v else none),
      m,
      rw (e, lookup_default) refl,
      old_var kind name v m h e,
    )
    | inl e ↦
        let v : ConfigVar V = record {
          name = to_lower name;
          description = description;
          kind = kind;
          value = default;
          listeners = [];
        } in
        let kept = insert-IsNamed name v m h n (to_lower-is_name name n) in
        (
          some v,
          insert name v m,
          rw (e, n, lookup_default) refl,
          subst (λ (b : Bool). Looked kind name (if b then some v else none) (insert name v m))
              (==_self kind)
              (old_var kind name v (insert name v m) kept (lookup-insert_self name v m)),
        )
  ]
