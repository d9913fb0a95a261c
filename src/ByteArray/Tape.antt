-- ===== src/ByteArray/Tape.antt =====
-- `ByteArray` while all its data lies inside the first node, as it does for every message that
-- the callers can send and receive whole: each write and each read is then one equation.
use xzmjx_rpc.Prelude.{
  ℕ, zero, suc, ◌+◌, ◌-◌, ◌*◌, ◌%◌, ◌^◌, ◌≤◌, ◌<◌, ◌≡◌, refl, ap, ap₂, sym, ◌∙◌, List, [], ◌∷◌,
  ◌++◌, some, arith, lt→ltb, le→leb, length, take, drop, length-append, append_assoc, Outcome, ok,
  ne→==, ◌>>=◌,
}
use xzmjx_rpc.ByteArray.Defs.{
  ByteArray, big, create, copy_in, copy_out, write, write_loop, add_capacity, get_capacity, grow,
  read, read_loop,
}
use xzmjx_rpc.ByteArray.Memory.{copy_in-take-drop, length-copy_out, take-copy_out, drop-copy_out}
use xzmjx_rpc.ByteArray.View.{IsValid}
use xzmjx_rpc.ByteArray.Room.{get_capacity_lem}
use xzmjx_rpc.ByteArray.Read.{read_from}
use native.Mathlib.Nat.{mod-eq_of_lt, mul-le-mul_right}

pub record IsSmall (s : ByteArray) : Type 0 where
  pub valid : IsValid s
  pub at_root : s.cur ≡ some 0
  pub size_lt : s.size < s.base_size
  pub network_order : s.endian ≡ big

-- The array behind `bytes` written at its end, and behind `n` bytes read.
abbrev pub appended : ByteArray → List ℕ → ByteArray
appended s bytes = record s {
  cells = copy_in s.cells s.position bytes;
  position = s.position + length bytes;
  size = s.position + length bytes;
}

abbrev pub advanced : ByteArray → ℕ → ByteArray
advanced s n = record s { position = s.position + n }

-- The bytes from the position on.
abbrev pub unread : ByteArray → List ℕ
unread s = copy_out s.cells s.position (s.size - s.position)

pub create-IsSmall :
    (memory : ℕ → ℕ) (base : ℕ) → 0 < base → base < 2 ^ 63 → IsSmall (create memory base)
unfolding create
create-IsSmall memory base h k = record {
  valid = omega arith;
  at_root = refl;
  size_lt = h;
  network_order = refl;
}

pub one_node : (s : ByteArray) → IsValid s → s.base_size ≤ s.capacity
one_node s v =
    omega (arith, v.capacity_nodes, mul-le-mul_right {m = 1} {n = s.nodes} s.base_size v.has_root)

write_short :
    (bytes : List ℕ) (s : ByteArray)
    → IsSmall s
    → s.position ≡ s.size
    → s.size + length bytes < s.base_size
    → 0 < length bytes
    → write bytes s
      ≡ ok (
          grow (record s {
            cells = copy_in s.cells s.position bytes;
            position = s.position + length bytes;
            cur = some 0;
          }))
unfolding write add_capacity write_loop
write_short [] s sm e h pos = absurd (omega arith)
write_short (b ∷ bs) s sm e h pos =
    let n = length (b ∷ bs) in
    let node : s.base_size ≤ s.capacity = one_node s sm.valid in
    let npos : s.position % s.base_size ≡ s.position = mod-eq_of_lt (omega arith) in
    let cap = get_capacity_lem s sm.valid in
    let zero_at : 0 * s.base_size + s.position ≡ s.position = omega arith in
    rw
      (
        ne→== n 0 (omega arith),
        le→leb n (get_capacity s) (omega (arith, cap)),
        sm.at_root,
        npos,
        le→leb n (s.base_size - s.position) (omega arith),
        ne→== s.base_size (s.position + n) (omega arith),
        zero_at,
      )
      refl

-- `write` at the end of the data appends.
pub write_append :
    (bytes : List ℕ) (s : ByteArray)
    → IsSmall s
    → s.position ≡ s.size
    → s.size + length bytes < s.base_size
    → write bytes s ≡ ok (appended s bytes)
unfolding grow write copy_in
write_append [] s sm e h =
    let p : s.position ≡ s.position + 0 = omega arith in
    let q : s.size ≡ s.position + 0 = omega arith in
    ap₂ (λ x y. ok (record s { position = x; size = y })) p q
write_append (b ∷ bs) s sm e h =
    write_short (b ∷ bs) s sm e h (omega arith)
    ∙ rw (lt→ltb s.size (s.position + length (b ∷ bs)) (omega arith))
        (ap (λ c. ok (record (appended s (b ∷ bs)) { cur = c })) (sym sm.at_root))

pub appended-IsSmall :
    (s : ByteArray) (bytes : List ℕ)
    → IsSmall s
    → s.position ≡ s.size
    → s.size + length bytes < s.base_size
    → IsSmall (appended s bytes)
appended-IsSmall s bytes sm e h = record {
  valid = omega (arith, sm.valid, one_node s sm.valid);
  at_root = sm.at_root;
  size_lt = omega arith;
  network_order = sm.network_order;
}

drop-length : (xs ys : List ℕ) → drop (length xs) (xs ++ ys) ≡ ys
drop-length [] ys = refl
drop-length (x ∷ xs) ys = drop-length xs ys

take-length : (xs ys : List ℕ) → take (length xs) (xs ++ ys) ≡ xs
take-length [] ys = refl
take-length (x ∷ xs) ys = ap (λ l. x ∷ l) (take-length xs ys)

copy_in-append :
    (c : ℕ → ℕ) (a : ℕ) (xs ys : List ℕ)
    → copy_in (copy_in c a xs) (a + length xs) ys ≡ copy_in c a (xs ++ ys)
copy_in-append c a xs ys =
    ap₂ (λ x y. copy_in (copy_in c a x) (a + length xs) y) (sym (take-length xs ys))
      (sym (drop-length xs ys))
    ∙ copy_in-take-drop (length xs) c a (xs ++ ys) (omega (arith, length-append xs ys))

pub appended-appended :
    (s : ByteArray) (xs ys : List ℕ) → appended (appended s xs) ys ≡ appended s (xs ++ ys)
appended-appended s xs ys =
    let n : s.position + length xs + length ys ≡ s.position + length (xs ++ ys) =
      omega (arith, length-append xs ys) in
    ap₂ (λ x p. record s { cells = x; position = p; size = p })
      (copy_in-append s.cells s.position xs ys) n

-- A writer that appends `bytes`.
abbrev pub Writes : (ByteArray → Outcome ByteArray) → List ℕ → Type 0
Writes f bytes =
    (s : ByteArray)
    → IsSmall s
    → s.position ≡ s.size
    → s.size + length bytes < s.base_size
    → f s ≡ ok (appended s bytes)

pub Writes-then :
    (f g : ByteArray → Outcome ByteArray) (xs ys : List ℕ)
    → Writes f xs
    → Writes g ys
    → Writes (λ s. f s >>= g) (xs ++ ys)
Writes-then f g xs ys hf hg s sm e h =
    let n = length-append xs ys in
    ap (λ o. o >>= g) (hf s sm e (omega (arith, n)))
    ∙ hg (appended s xs) (appended-IsSmall s xs sm e (omega (arith, n))) refl (omega (arith, n))
    ∙ ap ok (appended-appended s xs ys)

-- A reader that takes `bytes` and makes `a` of them, whatever follows.
abbrev pub Reads : {A : Type 0} → (ByteArray → Outcome (A × ByteArray)) → List ℕ → A → Type 0
Reads f bytes a =
    (s : ByteArray) (more : List ℕ)
    → IsSmall s
    → unread s ≡ bytes ++ more
    → f s ≡ ok (a, advanced s (length bytes))

unread-length :
    (s : ByteArray) (xs ys : List ℕ)
    → IsSmall s
    → unread s ≡ xs ++ ys
    → s.position + length xs + length ys ≡ s.size
unread-length s xs ys sm e = omega (
  arith,
  sym (length-copy_out s.cells s.position (s.size - s.position)) ∙ ap length e,
  length-append xs ys,
  sm.valid,
)

pub advanced-IsSmall :
    (s : ByteArray) (xs ys : List ℕ)
    → IsSmall s
    → unread s ≡ xs ++ ys
    → IsSmall (advanced s (length xs))
advanced-IsSmall s xs ys sm e = record {
  valid = omega (arith, sm.valid, unread-length s xs ys sm e);
  at_root = sm.at_root;
  size_lt = sm.size_lt;
  network_order = sm.network_order;
}

pub unread-advanced :
    (s : ByteArray) (xs ys : List ℕ)
    → IsSmall s
    → unread s ≡ xs ++ ys
    → unread (advanced s (length xs)) ≡ ys
unread-advanced s xs ys sm e =
    ap (copy_out s.cells (s.position + length xs)) (
      let q : s.size - (s.position + length xs) ≡ s.size - s.position - length xs = omega arith in
      q)
    ∙ sym (drop-copy_out s.cells s.position (length xs) (s.size - s.position))
    ∙ ap (drop (length xs)) e
    ∙ drop-length xs ys

pub Reads-then :
    {A B : Type 0} (f : ByteArray → Outcome (A × ByteArray))
    (g : A → ByteArray → Outcome (B × ByteArray)) {a : A} {b : B} (xs ys : List ℕ)
    → Reads f xs a
    → Reads (g a) ys b
    → Reads (λ s. f s >>= λ r. g r.0 r.1) (xs ++ ys) b
Reads-then {A} {B} f g {a} {b} xs ys hf hg s more sm e =
    let e' : unread s ≡ xs ++ (ys ++ more) = e ∙ append_assoc xs ys more in
    ap (λ o. o >>= λ r. g r.0 r.1) (hf s (ys ++ more) sm e')
    ∙ hg (advanced s (length xs)) more (advanced-IsSmall s xs (ys ++ more) sm e')
        (unread-advanced s xs (ys ++ more) sm e')
    ∙ ap (λ n. ok (b, record s { position = n }))
        (let q : s.position + length xs + length ys ≡ s.position + length (xs ++ ys) =
            omega (arith, length-append xs ys) in
          q)

-- A reader followed by a pure step.
pub Reads-map :
    {A B : Type 0} (f : ByteArray → Outcome (A × ByteArray)) (g : A → B) {a : A} (xs : List ℕ)
    → Reads f xs a
    → Reads (λ s. f s >>= λ r. ok (g r.0, r.1)) xs (g a)
Reads-map f g xs hf s more sm e = ap (λ o. o >>= λ r. ok (g r.0, r.1)) (hf s more sm e)

read_small :
    (n : ℕ) (s : ByteArray)
    → IsSmall s
    → s.position + n ≤ s.size
    → read n s ≡ ok (copy_out s.cells s.position n, advanced s n)
unfolding read_loop copy_out
read_small zero s sm h =
    let p : s.position ≡ s.position + 0 = omega arith in
    read_from 0 s sm.valid h
    ∙ rw sm.at_root (ap (λ x. ok ([], record s { cur = some 0; position = x })) p)
read_small (suc m) s sm h =
    let n = suc m in
    let npos : s.position % s.base_size ≡ s.position = mod-eq_of_lt (omega (arith, sm)) in
    let zero_at : 0 * s.base_size + s.position ≡ s.position = omega arith in
    read_from n s sm.valid h
    ∙ rw
        (
          npos,
          sm.at_root,
          ne→== n 0 (omega arith),
          le→leb n (s.base_size - s.position) (omega (arith, sm)),
          ne→== s.base_size n (omega (arith, sm)),
          zero_at,
        )
        refl

-- `read` of as many bytes as `bytes` has.
pub read-Reads : (bytes : List ℕ) → Reads (read (length bytes)) bytes bytes
read-Reads bytes s more sm e =
    let n = unread-length s bytes more sm e in
    read_small (length bytes) s sm (omega (arith, n))
    ∙ ap (λ b. ok (b, advanced s (length bytes)))
        (sym (
            take-copy_out s.cells s.position (length bytes) (s.size - s.position)
              (omega (arith, n)))
          ∙ ap (take (length bytes)) e
          ∙ take-length bytes more)
