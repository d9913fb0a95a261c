-- ===== src/Utils/Config/Defs.antt =====
-- `ConfigVar` and `Config` (utils/config.h, utils/config.cpp). The values, their comparison and
-- the conversion from text (`LexicalCast`, by boost and yaml-cpp) are parameters; a type `T` of
-- `ConfigVar<T>` is a number. Locks and the log are left out.
use xzmjx_rpc.Prelude.{
  ℕ, suc, ◌+◌, List, [], ◌∷◌, ◌++◌, Option, none, some, Bool, true, false, if◌then◌else◌, ◌==◌, leb,
  ◌&&◌, ◌||◌, Outcome, ok, threw, invalid_argument, length,
}
use xzmjx_rpc.Utils.Dict.{lookup, insert}

-- A node of yaml-cpp: a scalar, a map with its entries in order, or another with its printed text.
mutual
  pub data Node : Type 0 where
    scalar : List ℕ → Node
    map : Entries → Node
    other : List ℕ → Node

  pub data Entries : Type 0 where
    end : Entries
    entry : List ℕ → Node → Entries → Entries

-- `prefix + "." + key`, or the key alone where there is no prefix.
unfoldable pub join : List ℕ → List ℕ → List ℕ
join prefix key = if length prefix == 0 then key else prefix ++ (b'.' ∷ key)

-- What `prefix` is behind one round of the loop of `ListAllNodes`: `prefix = it->first.Scalar()`
-- stands in the argument of the call.
unfoldable pub next_prefix : List ℕ → List ℕ → List ℕ
next_prefix prefix key = if length prefix == 0 then key else prefix

-- `ListAllNodes`, and its loop over a map.
unfoldable mutual
  unfolding join next_prefix

  pub list_all_nodes : List ℕ → Node → List (List ℕ × Node)
  list_all_nodes prefix (scalar t) = (prefix, scalar t) ∷ []
  list_all_nodes prefix (other t) = (prefix, other t) ∷ []
  list_all_nodes prefix (map es) = (prefix, map es) ∷ list_entries prefix es

  pub list_entries : List ℕ → Entries → List (List ℕ × Node)
  list_entries prefix end = []
  list_entries prefix (entry key node es) =
      list_all_nodes (join prefix key) node ++ list_entries (next_prefix prefix key) es

-- `ConfigVar<T>`: `kind` is the type, `listeners` the keys of its callbacks in ascending order.
pub record ConfigVar (V : Type 0) : Type 0 where
  pub name : List ℕ
  pub description : List ℕ
  pub kind : ℕ
  pub value : V
  pub listeners : List ℕ

-- A call of a listener, with the old and the new value.
abbrev pub Call : Type 0 → Type 0
Call V = ℕ × V × V

unfoldable pub notify : {V : Type 0} → List ℕ → V → V → List (Call V)
notify [] old new = []
notify (id ∷ ids) old new = (id, old, new) ∷ notify ids old new

unfoldable pub without : ℕ → List ℕ → List ℕ
without id [] = []
without id (i ∷ ids) = if i == id then without id ids else i ∷ without id ids

unfoldable pub contains : ℕ → List ℕ → Bool
contains id [] = false
contains id (i ∷ ids) = i == id || contains id ids

-- `addListener`, `delListener`, `clearListener`; `s_listener_id` belongs to the type.
unfoldable pub add_listener : {V : Type 0} → ℕ → ConfigVar V → ℕ × ConfigVar V
add_listener last v = (suc last, record v { listeners = v.listeners ++ (suc last ∷ []) })

unfoldable pub del_listener : {V : Type 0} → ℕ → ConfigVar V → ConfigVar V
del_listener id v = record v { listeners = without id v.listeners }

unfoldable pub clear_listener : {V : Type 0} → ConfigVar V → ConfigVar V
clear_listener v = record v { listeners = [] }

-- `abcdefghijklmnopqrstuvwxyz._1234567890`
unfoldable pub is_name_char : ℕ → Bool
is_name_char c = leb b'a' c && leb c b'z' || (c == b'.' || (c == b'_' || leb b'0' c && leb c b'9'))

-- `find_first_not_of(...) == npos`
unfoldable pub is_name : List ℕ → Bool
is_name [] = true
is_name (c ∷ cs) = is_name_char c && is_name cs

-- `::tolower` on each character.
unfoldable pub to_lower : List ℕ → List ℕ
to_lower [] = []
to_lower (c ∷ cs) = (if leb b'A' c && leb c b'Z' then c + 32 else c) ∷ to_lower cs

-- The printed text of a node, `ss << node`, or its scalar.
module _ (V : Type 0) (equal : V → V → Bool) (from_string : ℕ → List ℕ → Option V)
    (emit : Node → List ℕ) where
  abbrev pub Vars : Type 0
  Vars = List (List ℕ × ConfigVar V)

  -- `setValue`: the listeners that are called, and the variable.
  unfoldable pub set_value : V → ConfigVar V → List (Call V) × ConfigVar V
  unfolding notify
  set_value new v =
      if equal new v.value
      then ([], v)
      else (notify v.listeners v.value new, record v { value = new })

  -- `fromString` catches what the conversion throws.
  unfoldable pub load_string : List ℕ → ConfigVar V → List (Call V) × ConfigVar V
  unfolding set_value
  load_string f v = elim (from_string v.kind f) [ none ↦ ([], v) | some new ↦ set_value new v ]

  -- `Lookup(name, defaultVal, description)`: the variable, or none for a null pointer, and the map.
  unfoldable pub lookup_default :
      ℕ → List ℕ → V → List ℕ → Vars → Outcome (Option (ConfigVar V) × Vars)
  unfolding lookup insert is_name to_lower
  lookup_default kind name default description m = elim (lookup name m) [
    | some v ↦ ok (if v.kind == kind then some v else none, m)
    | none ↦
        let v : ConfigVar V = record {
          name = to_lower name;
          description = description;
          kind = kind;
          value = default;
          listeners = [];
        } in
        if is_name name then ok (some v, insert name v m) else threw invalid_argument
  ]

  -- `Lookup(name)`
  unfoldable pub lookup_var : ℕ → List ℕ → Vars → Option (ConfigVar V)
  unfolding lookup
  lookup_var kind name m = elim (lookup name m) [
    | some v ↦ if v.kind == kind then some v else none
    | none ↦ none
  ]

  -- The loop of `LoadFromYaml`, on the flattened nodes: the calls of listeners, and the variables.
  unfoldable pub load_nodes : List (List ℕ × Node) → Vars → List (Call V) × Vars
  unfolding lookup insert load_string
  load_nodes [] m = ([], m)
  load_nodes ((key, node) ∷ nodes) m =
      let value : List ℕ = elim node [ scalar t ↦ t | map es ↦ emit (map es) | other t ↦ t ] in
      let step : List (Call V) × Vars = elim (lookup key m) [
        | none ↦ ([], m)
        | some v ↦ let (calls, v') = load_string value v in (calls, insert key v' m)
      ] in
      let (before, m') = if length key == 0 then ([], m) else step in
      let (after, m'') = load_nodes nodes m' in (before ++ after, m'')

  unfoldable pub load_from_yaml : Node → Vars → List (Call V) × Vars
  unfolding list_all_nodes load_nodes
  load_from_yaml root m = load_nodes (list_all_nodes [] root) m
