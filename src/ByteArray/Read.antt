-- ===== src/ByteArray/Read.antt =====
-- `read` of utils/byte_array.cpp over the abstract view, and its cursor.
use xzmjx_rpc.Prelude.{
  ℕ, zero, suc, ◌+◌, ◌-◌, ◌*◌, ◌%◌, ◌^◌, ◌≤◌, ◌<◌, ◌≡◌, ◌≢◌, ◌⊎◌, refl, ap, sym, ◌∙◌, List, [],
  ◌++◌, Option, some, subst, arith, leb, ◌==◌, ge→ltb, le→leb, gt→leb, take, drop, Outcome, ok, inl,
  inr, Bool-cases, ne→==, ==→eq, ==→ne, true, false,
}
use xzmjx_rpc.ByteArray.Defs.{ByteArray, copy_out, next, read, read_loop, get_read_size}
use xzmjx_rpc.ByteArray.Memory.{copy_out-add, take-copy_out, drop-copy_out}
use xzmjx_rpc.ByteArray.View.{IsValid, PointsAt, IsReady, content}
use xzmjx_rpc.ByteArray.Room.{div-mod_node}
use xzmjx_rpc.ByteArray.Write.{placed, next-PointsAt, next_node, next-some}
use native.Mathlib.Decide.{dec_lt}

-- Not a read that starts inside a node and ends at its end.
abbrev pub KeepsCursor : ℕ → ℕ → ℕ → Type 0
KeepsCursor base npos n = (npos ≡ 0) ⊎ (npos + n ≢ base)

copy_out_nil : (c : ℕ → ℕ) (a : ℕ) → copy_out c a 0 ≡ []
unfolding copy_out
copy_out_nil c a = refl

abbrev pub seen : ByteArray → ℕ → Option ℕ → ByteArray
seen s n c = record s { position = s.position + n; cur = c }

read_step :
    (fuel npos n node : ℕ) (s : ByteArray) (bytes : List ℕ) (t : ByteArray)
    → npos < s.base_size
    → suc node < s.nodes
    → s.base_size - npos < n
    → read_loop fuel 0 (n - (s.base_size - npos)) (placed s (suc node) 0) ≡ ok (bytes, t)
    → read_loop (suc fuel) npos n (placed s node npos)
      ≡ ok (copy_out s.cells (node * s.base_size + npos) (s.base_size - npos) ++ bytes, t)
unfolding read_loop
read_step fuel npos n node s bytes t hp hn over e =
    let p : node * s.base_size + npos + (s.base_size - npos) ≡ suc node * s.base_size + 0 =
      omega arith in
    rw (ne→== n 0 (omega arith), gt→leb _ _ over, p, next-some s node hn, e) refl

pub read_last :
    (fuel npos n node : ℕ) (s : ByteArray)
    → npos < s.base_size
    → node < s.nodes
    → npos + n ≤ s.base_size
    → (c : Option ℕ) × (read_loop (suc fuel) npos n (placed s node npos)
        ≡ ok (copy_out s.cells (node * s.base_size + npos) n, seen (placed s node npos) n c))
      × (KeepsCursor s.base_size npos n
          → PointsAt s.base_size s.nodes (node * s.base_size + npos + n) c)
      × (s.base_size ≢ n → c ≡ some node)
unfolding read_loop
read_last fuel npos zero node s hp hn within =
    let p : node * s.base_size + npos + 0 ≡ node * s.base_size + npos = omega arith in
    (
      some node,
      rw (copy_out_nil s.cells (node * s.base_size + npos), p) refl,
      (λ _. (omega arith, omega arith, hn)),
      (λ _. refl),
    )
read_last fuel npos (suc m) node s hp hn within =
    let n = suc m in
    let some_left : (n == 0) ≡ false = ne→== n 0 (omega arith) in
    let fits : leb n (s.base_size - npos) ≡ true = le→leb _ _ (omega arith) in
    elim (Bool-cases (s.base_size == n)) [
      | inl full ↦
          let q : s.base_size ≡ n = ==→eq _ _ full in
          (
            next s node,
            rw (some_left, fits, full) refl,
            (λ _.
                next-PointsAt s node (node * s.base_size + npos + n) (omega arith) hn
                  (omega arith)),
            (λ ne. absurd (ne q)),
          )
      | inr part ↦
          let q : s.base_size ≢ n = ==→ne _ _ part in
          (
            some node,
            rw (some_left, fits, part) refl,
            (λ k. (omega arith, omega (arith, k), hn)),
            (λ _. refl),
          )
    ]

read-read :
    (node npos n : ℕ) (s : ByteArray) (c : Option ℕ)
    → npos < s.base_size
    → s.base_size - npos < n
    → ◌≡◌ {A = Outcome (List ℕ × ByteArray)}
        (ok (
          copy_out s.cells (node * s.base_size + npos) (s.base_size - npos)
              ++ copy_out s.cells (suc node * s.base_size + 0) (n - (s.base_size - npos)),
          seen (placed s (suc node) 0) (n - (s.base_size - npos)) c,
        ))
        (ok (copy_out s.cells (node * s.base_size + npos) n, seen (placed s node npos) n c))
read-read node npos n s c hp over =
    let a = node * s.base_size + npos in
    let k = s.base_size - npos in
    let start : suc node * s.base_size + 0 ≡ a + k = omega arith in
    let stop : suc node * s.base_size + 0 + (n - k) ≡ a + n = omega arith in
    let all : k + (n - k) ≡ n = omega arith in
    rw stop (
      rw start (
        ap (λ (l : List ℕ). ok (l, record s { position = a + n; cur = c }))
          (sym (copy_out-add s.cells a k (n - k)) ∙ ap (copy_out s.cells a) all)))

read_loop_lem :
    (fuel npos n node : ℕ) (s : ByteArray)
    → npos < s.base_size
    → node < s.nodes
    → node * s.base_size + npos + n ≤ s.nodes * s.base_size
    → n < fuel
    → (c : Option ℕ) × (read_loop fuel npos n (placed s node npos)
        ≡ ok (copy_out s.cells (node * s.base_size + npos) n, seen (placed s node npos) n c))
      × (KeepsCursor s.base_size npos n
          → PointsAt s.base_size s.nodes (node * s.base_size + npos + n) c)
read_loop_lem zero npos n node s hp hn room hf = absurd (omega arith)
read_loop_lem (suc fuel) npos n node s hp hn room hf = elim (dec_lt (s.base_size - npos) n) [
  | yes over ↦
      let more : suc node < s.nodes = next_node node s.nodes s.base_size (omega arith) in
      let k = s.base_size - npos in
      let start : suc node * s.base_size + 0 ≡ node * s.base_size + npos + k = omega arith in
      let all : k + (n - k) ≡ n = omega arith in
      let stop : suc node * s.base_size + 0 + (n - k) ≡ node * s.base_size + npos + n =
        omega arith in
      let (c, e, h) =
        read_loop_lem fuel 0 (n - k) (suc node) s (omega arith) more (omega arith) (omega arith) in
      (
        c,
        read_step fuel npos n node s _ _ hp more over e ∙ read-read node npos n s c hp over,
        (λ _. subst (λ p. PointsAt s.base_size s.nodes p c) stop (h (inl refl))),
      )
  | no within ↦ let (c, e, h, _) = read_last fuel npos n node s hp hn (omega arith) in (c, e, h)
]

-- `read` of what is there, wherever the cursor stands.
pub read_from :
    (n : ℕ) (s : ByteArray)
    → IsValid s
    → s.position + n ≤ s.size
    → read n s ≡ read_loop (suc n) (s.position % s.base_size) n s
unfolding read get_read_size
read_from n s v h =
    let size : (s.size + 2 ^ 64 - s.position) % 2 ^ 64 ≡ s.size - s.position = omega (arith, v) in
    rw (ge→ltb ((s.size + 2 ^ 64 - s.position) % 2 ^ 64) n (omega arith)) refl

pub read_cursor :
    (n node : ℕ) (s : ByteArray)
    → IsValid s
    → s.cur ≡ some node
    → node * s.base_size + s.position % s.base_size ≡ s.position
    → s.position + n ≤ s.size
    → read n s
      ≡ read_loop (suc n) (s.position % s.base_size) n (placed s node (s.position % s.base_size))
read_cursor n node s v e here h =
    read_from n s v h
    ∙ ap (read_loop (suc n) (s.position % s.base_size) n) (ap (λ x. record s { cur = x }) e)
    ∙ ap
        (λ x.
          read_loop (suc n) (s.position % s.base_size) n
            (record s { cur = some node; position = x }))
        (sym here)

-- What a read gives back and leaves behind.
pub record Gave (n : ℕ) (s t : ByteArray) : Type 0 where
  pub returned : read n s ≡ ok (take n (drop s.position (content s)), t)
  pub valid : IsValid t
  pub same_bytes : content t ≡ content s
  pub moved : t.position ≡ s.position + n
  pub same_base : t.base_size ≡ s.base_size
  pub same_endian : t.endian ≡ s.endian
  pub ready : KeepsCursor s.base_size (s.position % s.base_size) n → IsReady t

pub copy_out-content :
    (s : ByteArray) (p n : ℕ) → p + n ≤ s.size → copy_out s.cells p n ≡ take n (drop p (content s))
unfolding content
copy_out-content s p n h = sym (
    ap (take n) (drop-copy_out s.cells 0 p s.size)
    ∙ take-copy_out s.cells (0 + p) n (s.size - p) (omega arith)
    ∙ ap (λ a. copy_out s.cells a n) (let e : 0 + p ≡ p = omega arith in e))

-- On a valid array whose cursor stands in the node of the position, `read` of at most what is
-- left returns the bytes from the position on, moves the position by their number and changes
-- no byte; the cursor stands at the new position again, except after a read that starts inside a
-- node and stops exactly at that node's end.
pub read_refines :
    (n node : ℕ) (s : ByteArray)
    → IsValid s
    → IsReady s
    → s.cur ≡ some node
    → s.position + n ≤ s.size
    → (t : ByteArray) × Gave n s t
unfolding content
read_refines n node s v r e h =
    let at : PointsAt s.base_size s.nodes s.position (some node) =
      subst (PointsAt s.base_size s.nodes s.position) e r in
    let (q, m) = div-mod_node node s.base_size s.position at.0 at.1 in
    let npos = s.position % s.base_size in
    let here : node * s.base_size + npos ≡ s.position = omega (arith, m, at.0) in
    let (c, l, k) =
      read_loop_lem (suc n) npos n node s (omega (arith, m, at)) at.2 (omega (arith, here, v))
        (omega arith) in
    (
      record s { position = s.position + n; cur = c },
      record {
        returned =
            read_cursor n node s v e here h
            ∙ l
            ∙ ap (λ x. ok (copy_out s.cells x n, record s { position = x + n; cur = c })) here
            ∙ ap (λ (b : List ℕ). ok (b, record s { position = s.position + n; cur = c }))
                (copy_out-content s s.position n h);
        valid = omega (arith, v);
        same_bytes = refl;
        moved = refl;
        same_base = refl;
        same_endian = refl;
        ready = λ keeps. subst (λ x. PointsAt s.base_size s.nodes (x + n) c) here (k keeps);
      },
    )
