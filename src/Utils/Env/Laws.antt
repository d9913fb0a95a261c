-- ===== src/Utils/Env/Laws.antt =====
-- The arguments and the paths of `Env` (utils/env.cpp).
use xzmjx_rpc.Prelude.{
  ℕ, suc, ◌<◌, ◌≡◌, ◌≢◌, refl, ap, sym, ◌∙◌, List, [], ◌∷◌, ◌++◌, Option, none, some, true, false,
  if◌then◌else◌, lt→ltb, length, All, Bool-cases, inl, inr, arith,
}
use xzmjx_rpc.Rpc.Text.{same, same_self, ne→same}
use xzmjx_rpc.Utils.Dict.{
  lookup, erase, lookup-insert_self, lookup-insert_ne, lookup-erase_self, lookup-erase_ne,
}
use xzmjx_rpc.Utils.Env.Defs.{
  Env, add_arg, has_arg, del_arg, get, add_arg_help, is_option, flush, parse_args, front, init,
}

-- An option as it is meant: a key and, maybe, a value.
abbrev pub Setting : Type 0
Setting = List ℕ × Option (List ℕ)

-- The key is not empty and the value does not look like an option.
abbrev pub IsPlain : Setting → Type 0
IsPlain (key, none) = 0 < length key
IsPlain (key, some v) = (0 < length key) × (is_option v ≡ false)

abbrev pub render : List Setting → List (List ℕ)
render [] = []
render ((key, none) ∷ ss) = (b'-' ∷ key) ∷ render ss
render ((key, some v) ∷ ss) = (b'-' ∷ key) ∷ v ∷ render ss

abbrev pub settle : List Setting → Env → Env
settle [] e = e
settle ((key, none) ∷ ss) e = settle ss (add_arg key [] e)
settle ((key, some v) ∷ ss) e = settle ss (add_arg key v e)

parse_args-render :
    (ss : List Setting) (now : Option (List ℕ)) (e : Env)
    → All IsPlain ss
    → parse_args (render ss) now e ≡ (true, settle ss (flush now e))
unfolding parse_args
parse_args-render [] now e h = refl
parse_args-render ((key, none) ∷ ss) now e h =
    rw (lt→ltb 1 (suc (length key)) (omega arith))
      (parse_args-render ss (some key) (flush now e) h.1)
parse_args-render ((key, some v) ∷ ss) now e h =
    rw (lt→ltb 1 (suc (length key)) (omega arith), h.0.1)
      (parse_args-render ss none (add_arg key v (flush now e)) h.1)

-- `init` reads back what a list of settings is written as on the command line: it returns true,
-- and the arguments are set in their order, each to its value, or to the empty text where it has
-- none. The keys are not empty and the values do not begin with a dash.
pub init-render :
    (path program : List ℕ) (ss : List Setting) (e : Env)
    → All IsPlain ss
    → init path program (render ss) e ≡ (
      true,
      settle ss (record e { exe = path; cwd = front path ++ (b'/' ∷ []); program = program }),
    )
unfolding init
init-render path program ss e h = parse_args-render ss none _ h

-- No key has two help texts.
abbrev pub IsUnique : List (List ℕ × List ℕ) → Type 0
IsUnique [] = Unit {0}
IsUnique ((k, v) ∷ d) = (lookup k d ≡ none) × IsUnique d

lookup-append :
    (j k v : List ℕ) (d : List (List ℕ × List ℕ))
    → lookup j d ≡ none
    → lookup j (d ++ ((k, v) ∷ [])) ≡ (if same k j then some v else none)
unfolding lookup
lookup-append j k v [] h = refl
lookup-append j k v ((i, w) ∷ d) h = elim (Bool-cases (same i j)) [
  | inl e ↦ cc (rw e at h)
  | inr e ↦ rw e (lookup-append j k v d (rw e at h))
]

append-IsUnique :
    (k v : List ℕ) (d : List (List ℕ × List ℕ))
    → IsUnique d
    → lookup k d ≡ none
    → IsUnique (d ++ ((k, v) ∷ []))
unfolding lookup
append-IsUnique k v [] h e = (refl, tt)
append-IsUnique k v ((i, w) ∷ d) h e = elim (Bool-cases (same i k)) [
  | inl q ↦ cc (rw q at e)
  | inr q ↦
      let turn : same k i ≡ false =
        ne→same k i (λ p. cc (q, ap (λ x. same x k) (sym p), same_self k)) in
      (lookup-append i k v d h.0 ∙ rw turn refl, append-IsUnique k v d h.1 (rw q at e))
]

erase-IsUnique : (k : List ℕ) (d : List (List ℕ × List ℕ)) → IsUnique d → IsUnique (erase k d)
unfolding erase
erase-IsUnique k [] h = tt
erase-IsUnique k ((i, w) ∷ d) h = elim (Bool-cases (same i k)) [
  | inl q ↦ rw q (erase-IsUnique k d h.1)
  | inr q ↦ rw q (
    lookup-erase_ne i k d (λ p. cc (q, ap (λ x. same x k) p, same_self k)) ∙ h.0,
    erase-IsUnique k d h.1,
  )
]

-- Whatever help texts there are, `addArgHelp` keeps each key's to one, and the key's is then the
-- new one.
add_arg_help-IsUnique :
    (key desc : List ℕ) (e : Env)
    → IsUnique e.args_helps
    → IsUnique (add_arg_help key desc e).args_helps
      × (lookup key (add_arg_help key desc e).args_helps ≡ some desc)
unfolding add_arg_help
add_arg_help-IsUnique key desc e h =
    let gone = lookup-erase_self key e.args_helps in
    (
      append-IsUnique key desc (erase key e.args_helps) (erase-IsUnique key e.args_helps h) gone,
      lookup-append key key desc (erase key e.args_helps) gone ∙ rw (same_self key) refl,
    )

-- `get`, `hasArg`, `addArg` and `delArg` are those of a map: an argument added is found with its
-- value, one deleted is not and gives the default, and no other argument changes.
arg_laws :
    (key val default other : List ℕ) (e : Env)
    → other ≢ key
    → (get key default (add_arg key val e) ≡ val)
      × (has_arg key (add_arg key val e) ≡ true)
      × (get key default (del_arg key e) ≡ default)
      × (has_arg key (del_arg key e) ≡ false)
      × (get other default (add_arg key val e) ≡ get other default e)
      × (get other default (del_arg key e) ≡ get other default e)
unfolding get has_arg add_arg del_arg
arg_laws key val default other e h = (
  rw (lookup-insert_self key val e.args, get) refl,
  rw (lookup-insert_self key val e.args, has_arg) refl,
  rw (lookup-erase_self key e.args, get) refl,
  rw (lookup-erase_self key e.args, has_arg) refl,
  rw (lookup-insert_ne other key val e.args h, get) refl,
  rw (lookup-erase_ne other key e.args h, get) refl,
)
