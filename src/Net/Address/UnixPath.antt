-- ===== src/Net/Address/UnixPath.antt =====
-- `UnixAddress` (net/address.cpp): its path. A path that begins with a zero byte is abstract.
use xzmjx_rpc.Prelude.{
  ℕ, suc, ◌+◌, ◌-◌, ◌≤◌, ◌≡◌, ◌≢◌, refl, ap, ◌∙◌, arith, List, [], ◌∷◌, ◌++◌, Bool, false, ◌&&◌,
  if◌then◌else◌, ◌==◌, ltb, length, take, Outcome, ok, crashed, threw, logic_error, ◌>>=◌, All,
  ne→==, append_assoc, lt→ltb, ge→ltb, length-append,
}
use xzmjx_rpc.Net.Address.Defs.{Unix, af_unix, replicate}

abbrev pub max_path_len : ℕ
max_path_len = 107

unfoldable pub new_unix : Unix
new_unix = record { sun_family = af_unix; sun_path = replicate 108 0; addr_len = 2 + max_path_len }

unfoldable pub begins_with_zero : List ℕ → Bool
begins_with_zero [] = false
begins_with_zero (b ∷ bs) = b == 0

-- `UnixAddress(path)`: the bytes of `path.c_str()`, and zeros behind them.
unfoldable pub unix_of_path : List ℕ → Outcome Unix
unfolding begins_with_zero
unix_of_path path =
    let n = if begins_with_zero path then length path else length path + 1 in
    if ltb 108 n
    then threw logic_error
    else ok (record {
      sun_family = af_unix;
      sun_path = take n (path ++ (0 ∷ [])) ++ replicate (108 - n) 0;
      addr_len = n + 2;
    })

unfoldable pub set_addr_len : ℕ → Unix → Unix
set_addr_len v a = record a { addr_len = v }

-- The string that a pointer to these bytes is.
unfoldable pub c_string : List ℕ → Outcome (List ℕ)
c_string [] = crashed
c_string (b ∷ bs) = let rest = c_string bs >>= λ s. ok (b ∷ s) in if b == 0 then ok [] else rest

-- The two bytes that stand for a zero byte in a text, `\0`.
abbrev pub escaped_zero : List ℕ
escaped_zero = 92 ∷ 48 ∷ []

-- `getPath`, which `insert` prints.
unfoldable pub get_path : Unix → Outcome (List ℕ)
unfolding begins_with_zero c_string
get_path a =
    if ltb 2 a.addr_len && begins_with_zero a.sun_path
    then (elim a.sun_path [
      | [] ↦ crashed
      | b ∷ bs ↦
          if ltb (length bs) (a.addr_len - 2 - 1)
          then crashed
          else ok (escaped_zero ++ take (a.addr_len - 2 - 1) bs)
    ])
    else c_string a.sun_path

c_string_lem : (xs rest : List ℕ) → All (λ b. b ≢ 0) xs → c_string (xs ++ (0 ∷ rest)) ≡ ok xs
unfolding c_string
c_string_lem [] rest h = refl
c_string_lem (x ∷ xs) rest h = rw (ne→== x 0 h.0, c_string_lem xs rest h.1) refl

take-all : (xs ys : List ℕ) → take (length xs) (xs ++ ys) ≡ xs
take-all [] ys = refl
take-all (x ∷ xs) ys = ap (λ l. x ∷ l) (take-all xs ys)

take-snoc : (xs : List ℕ) → take (length xs + 1) (xs ++ (0 ∷ [])) ≡ xs ++ (0 ∷ [])
take-snoc [] = let e : 0 + 1 ≡ 1 = omega arith in ap (λ n. take n (0 ∷ [])) e
take-snoc (x ∷ xs) =
    let e : suc (length xs) + 1 ≡ suc (length xs + 1) = omega arith in
    ap (λ n. take n (x ∷ (xs ++ (0 ∷ [])))) e ∙ ap (λ l. x ∷ l) (take-snoc xs)

abbrev named : List ℕ → Unix
named path = record {
  sun_family = af_unix;
  sun_path = (path ++ (0 ∷ [])) ++ replicate (108 - (length path + 1)) 0;
  addr_len = length path + 1 + 2;
}

abbrev hidden : List ℕ → Unix
hidden name = record {
  sun_family = af_unix;
  sun_path = 0 ∷ (name ++ replicate (108 - suc (length name)) 0);
  addr_len = suc (length name) + 2;
}

named_lem :
    (x : ℕ) (xs : List ℕ)
    → x ≢ 0
    → suc (length xs) ≤ 107
    → unix_of_path (x ∷ xs) ≡ ok (named (x ∷ xs))
unfolding unix_of_path begins_with_zero
named_lem x xs h l =
    rw (ne→== x 0 h, ge→ltb 108 (suc (length xs) + 1) (omega arith), take-snoc (x ∷ xs)) refl

hidden_lem : (name : List ℕ) → length name ≤ 107 → unix_of_path (0 ∷ name) ≡ ok (hidden name)
unfolding unix_of_path begins_with_zero
hidden_lem name l = rw (ge→ltb 108 (suc (length name)) (omega arith), take-all name (0 ∷ [])) refl

get_path-named :
    (x : ℕ) (xs : List ℕ) → All (λ b. b ≢ 0) (x ∷ xs) → get_path (named (x ∷ xs)) ≡ ok (x ∷ xs)
unfolding get_path begins_with_zero
get_path-named x xs h =
    let zeros = replicate (108 - (suc (length xs) + 1)) 0 in
    rw (lt→ltb 2 (suc (length xs) + 1 + 2) (omega arith), ne→== x 0 h.0)
      (ap (λ (o : Outcome (List ℕ)). o >>= λ s. ok (x ∷ s))
        (ap c_string (append_assoc xs (0 ∷ []) zeros) ∙ c_string_lem xs zeros h.1))

get_path-hidden : (name : List ℕ) → get_path (hidden name) ≡ ok (escaped_zero ++ name)
unfolding get_path begins_with_zero
get_path-hidden name =
    let zeros = replicate (108 - suc (length name)) 0 in
    let n : suc (length name) + 2 - 2 - 1 ≡ length name = omega arith in
    let long : length name ≤ length (name ++ zeros) = omega (arith, length-append name zeros) in
    rw
      (
        lt→ltb 2 (suc (length name) + 2) (omega arith),
        n,
        ge→ltb (length (name ++ zeros)) (length name) long,
      )
      (ap (λ l. ok (escaped_zero ++ l)) (take-all name zeros))

-- A path of 1 to 107 bytes, none of them zero: the address of the path gives the path back, and
-- that of the abstract name that it makes gives the name behind the text `\0`.
pub path_lem :
    (x : ℕ) (xs : List ℕ)
    → All (λ b. b ≢ 0) (x ∷ xs)
    → suc (length xs) ≤ 107
    → ((unix_of_path (x ∷ xs) >>= get_path) ≡ ok (x ∷ xs))
      × ((unix_of_path (0 ∷ x ∷ xs) >>= get_path) ≡ ok (escaped_zero ++ (x ∷ xs)))
path_lem x xs h l = (
  ap (λ o. o >>= get_path) (named_lem x xs h.0 l) ∙ get_path-named x xs h,
  ap (λ o. o >>= get_path) (hidden_lem (x ∷ xs) l) ∙ get_path-hidden (x ∷ xs),
)

-- What an address of a path is: as long as the system's structure, with a length inside it.
pub record InBounds (a : Unix) : Type 0 where
  pub path_size : length a.sun_path ≡ 108
  pub len_le : a.addr_len ≤ 110

-- The longest path that a constructor takes: an abstract one needs no zero byte behind it.
abbrev pub room : List ℕ → ℕ
unfolding begins_with_zero
room path = if begins_with_zero path then 108 else 107
