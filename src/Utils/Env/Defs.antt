-- ===== src/Utils/Env/Defs.antt =====
-- `Env` (utils/env.h, utils/env.cpp). Locks, the log and what is printed are left out; the variables
-- of the process are the operating system's.
use xzmjx_rpc.Prelude.{
  ℕ, List, [], ◌∷◌, ◌++◌, Option, none, some, Bool, true, false, if◌then◌else◌, ◌==◌, ltb, length,
  drop,
}
use xzmjx_rpc.Rpc.Text.{text}
use xzmjx_rpc.Utils.Dict.{lookup, insert, erase}

pub record Env : Type 0 where
  pub args : List (List ℕ × List ℕ)
  pub args_helps : List (List ℕ × List ℕ)
  pub program : List ℕ
  pub exe : List ℕ
  pub cwd : List ℕ

-- `addArg`, `hasArg`, `delArg`, `get`
unfoldable pub add_arg : List ℕ → List ℕ → Env → Env
add_arg key val e = record e { args = insert key val e.args }

unfoldable pub has_arg : List ℕ → Env → Bool
has_arg key e = elim (lookup key e.args) [ none ↦ false | some _ ↦ true ]

unfoldable pub del_arg : List ℕ → Env → Env
del_arg key e = record e { args = erase key e.args }

unfoldable pub get : List ℕ → List ℕ → Env → List ℕ
get key default e = elim (lookup key e.args) [ none ↦ default | some v ↦ v ]

-- `removeArgHelp`, whose loop erases each entry of the key, and `addArgHelp`.
unfoldable pub remove_arg_help : List ℕ → Env → Env
remove_arg_help key e = record e { args_helps = erase key e.args_helps }

unfoldable pub add_arg_help : List ℕ → List ℕ → Env → Env
unfolding remove_arg_help
add_arg_help key help_desc e =
    let e' = remove_arg_help key e in
    record e' { args_helps = e'.args_helps ++ ((key, help_desc) ∷ []) }

-- `argv[i][0] == '-'`
unfoldable pub is_option : List ℕ → Bool
is_option [] = false
is_option (c ∷ cs) = c == b'-'

-- `if (now_key) addArg(now_key, "");`
unfoldable pub flush : Option (List ℕ) → Env → Env
unfolding add_arg
flush none e = e
flush (some key) e = add_arg key [] e

-- The loop of `init` over the arguments behind the program's name, and the test behind it.
unfoldable pub parse_args : List (List ℕ) → Option (List ℕ) → Env → Bool × Env
unfolding flush is_option add_arg
parse_args [] now_key e = (true, flush now_key e)
parse_args (arg ∷ args) now_key e =
    let option = parse_args args (some (drop 1 arg)) (flush now_key e) in
    let value : Bool × Env = elim now_key [
      | none ↦ (false, e)
      | some key ↦ parse_args args none (add_arg key arg e)
    ] in
    if is_option arg then (if ltb 1 (length arg) then option else (false, e)) else value

-- `m_exe.substr(0, m_exe.find_last_of('/'))`; without a slash it is the whole.
unfoldable pub before_slash : List ℕ → Option (List ℕ)
before_slash [] = none
before_slash (c ∷ cs) = elim (before_slash cs) [
  | some front ↦ some (c ∷ front)
  | none ↦ if c == b'/' then some [] else none
]

unfoldable pub front : List ℕ → List ℕ
unfolding before_slash
front path = elim (before_slash path) [ none ↦ path | some p ↦ p ]

-- `init`; `path` is what `readlink` gives for the program's file.
unfoldable pub init : List ℕ → List ℕ → List (List ℕ) → Env → Bool × Env
unfolding front parse_args
init path program args e =
    parse_args args none
      (record e { exe = path; cwd = front path ++ (b'/' ∷ []); program = program })

unfoldable pub get_absolute_path : List ℕ → Env → List ℕ
get_absolute_path [] e = b'/' ∷ []
get_absolute_path (c ∷ path) e = if c == b'/' then c ∷ path else e.cwd ++ (c ∷ path)

-- `getAbsoluteWorkPath`, by the value of the variable `server.work_path`.
unfoldable pub get_absolute_work_path : List ℕ → List ℕ → List ℕ
get_absolute_work_path work_path [] = b'/' ∷ []
get_absolute_work_path work_path (c ∷ path) =
    if c == b'/' then c ∷ path else work_path ++ (b'/' ∷ c ∷ path)

unfoldable pub get_config_path : Env → List ℕ
unfolding get get_absolute_path
get_config_path e = get_absolute_path (get (text "c") (text "conf") e) e
