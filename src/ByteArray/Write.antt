-- ===== src/ByteArray/Write.antt =====
-- `write` and `addCapacity` of utils/byte_array.cpp over the abstract view.
use xzmjx_rpc.Prelude.{
  subst, ℕ, zero, suc, ◌+◌, ◌-◌, ◌*◌, ◌≤◌, ◌<◌, ◌≡◌, refl, ap, ◌∙◌, List, Option, some, length,
  take, drop, arith, ok, true, ◌≢◌, ltb, leb, ◌==◌, length-drop, lt→ltb, le→leb, gt→leb, inl, inr,
  Bool-cases, ==→eq, ==→ne, ltb→lt, ltb→ge,
}
use xzmjx_rpc.ByteArray.Defs.{ByteArray, next, copy_in, write_loop}
use xzmjx_rpc.ByteArray.Memory.{copy_in-take-drop}
use xzmjx_rpc.ByteArray.View.{PointsAt}
use native.Mathlib.Nat.{mul-le-mul_right}
use native.Mathlib.Decide.{dec_lt}

pub next_node : (node nodes base : ℕ) → node * base + base < nodes * base → suc node < nodes
next_node node nodes base h = elim (dec_lt (suc node) nodes) [
  | yes p ↦ p
  | no p ↦ absurd (omega (arith, mul-le-mul_right {m = nodes} {n = suc node} base (omega arith)))
]

pub next-some : (s : ByteArray) (node : ℕ) → suc node < s.nodes → next s node ≡ some (suc node)
unfolding next
next-some s node h = rw (lt→ltb _ _ h) refl

-- The node behind the one whose end the position has reached.
pub next-PointsAt :
    (s : ByteArray) (node p : ℕ)
    → 0 < s.base_size
    → node < s.nodes
    → p ≡ node * s.base_size + s.base_size
    → PointsAt s.base_size s.nodes p (next s node)
unfolding next
next-PointsAt s node p hb hn e = elim (Bool-cases (ltb (suc node) s.nodes)) [
  | inl t ↦ rw t (omega arith, omega arith, ltb→lt _ _ t)
  | inr t ↦ rw t (let q : s.nodes ≡ suc node = omega (arith, ltb→ge _ _ t) in rw q (omega arith))
]

-- The array with its cursor at offset `npos` of node number `node`.
abbrev pub placed : ByteArray → ℕ → ℕ → ByteArray
placed s node npos = record s { cur = some node; position = node * s.base_size + npos }

abbrev pub written : ByteArray → List ℕ → Option ℕ → ByteArray
written s bytes c = record s {
  cells = copy_in s.cells s.position bytes;
  position = s.position + length bytes;
  cur = c;
}

-- A round that fills the node goes on at the start of the next.
write_loop_step :
    (fuel npos node : ℕ) (bytes : List ℕ) (s : ByteArray)
    → npos < s.base_size
    → suc node < s.nodes
    → s.base_size - npos < length bytes
    → write_loop (suc fuel) npos bytes (placed s node npos)
      ≡ write_loop fuel 0 (drop (s.base_size - npos) bytes) (
          placed
            (record s {
              cells = copy_in s.cells (node * s.base_size + npos) (take (s.base_size - npos) bytes);
            })
            (suc node)
            0)
unfolding write_loop
write_loop_step fuel npos node bytes s hp hn over =
    let p : node * s.base_size + npos + (s.base_size - npos) ≡ suc node * s.base_size + 0 =
      omega arith in
    rw (gt→leb _ _ over, p, next-some s node hn) refl

written-written :
    (npos node : ℕ) (bytes : List ℕ) (s : ByteArray) (c : Option ℕ)
    → npos < s.base_size
    → s.base_size - npos < length bytes
    → written
        (placed
          (record s {
            cells = copy_in s.cells (node * s.base_size + npos) (take (s.base_size - npos) bytes);
          })
          (suc node)
          0)
        (drop (s.base_size - npos) bytes)
        c
      ≡ written (placed s node npos) bytes c
written-written npos node bytes s c hp over =
    let k = s.base_size - npos in
    let a = node * s.base_size + npos in
    let start : suc node * s.base_size + 0 ≡ a + k = omega arith in
    let end : a + k + length (drop k bytes) ≡ a + length bytes =
      omega (arith, length-drop k bytes) in
    rw start (rw end (rw (copy_in-take-drop k s.cells a bytes (omega arith)) refl))

last_round :
    (fuel npos node : ℕ) (bytes : List ℕ) (s : ByteArray)
    → npos < s.base_size
    → node < s.nodes
    → npos + length bytes ≤ s.base_size
    → (c : Option ℕ) × (write_loop (suc fuel) npos bytes (placed s node npos)
        ≡ ok (written (placed s node npos) bytes c))
      × PointsAt s.base_size s.nodes (node * s.base_size + npos + length bytes) c
unfolding write_loop
last_round fuel npos node bytes s hp hn within =
    let fits : leb (length bytes) (s.base_size - npos) ≡ true = le→leb _ _ (omega arith) in
    elim (Bool-cases (s.base_size == (npos + length bytes))) [
      | inl full ↦ (
        next (placed s node npos) node,
        rw (fits, full) refl,
        next-PointsAt (placed s node npos) node (node * s.base_size + npos + length bytes)
            (omega arith) hn (omega (arith, ==→eq _ _ full)),
      )
      | inr part ↦
          let q : s.base_size ≢ npos + length bytes = ==→ne _ _ part in
          (some node, rw (fits, part) refl, (omega arith, omega arith, hn))
    ]

pub write_loop_lem :
    (fuel npos node : ℕ) (bytes : List ℕ) (s : ByteArray)
    → npos < s.base_size
    → node < s.nodes
    → node * s.base_size + npos + length bytes ≤ s.nodes * s.base_size
    → 0 < length bytes
    → length bytes ≤ fuel
    → (c : Option ℕ) × (write_loop fuel npos bytes (placed s node npos)
        ≡ ok (written (placed s node npos) bytes c))
      × PointsAt s.base_size s.nodes (node * s.base_size + npos + length bytes) c
write_loop_lem zero npos node bytes s hp hn room h0 hf = absurd (omega arith)
write_loop_lem (suc fuel) npos node bytes s hp hn room h0 hf =
    elim (dec_lt (s.base_size - npos) (length bytes)) [
      | yes over ↦
          let more : suc node < s.nodes = next_node node s.nodes s.base_size (omega arith) in
          let k = s.base_size - npos in
          let n : length (drop k bytes) ≡ length bytes - k = length-drop k bytes in
          let (c, e, h) =
            write_loop_lem fuel 0 (suc node) (drop k bytes)
              (record s { cells = copy_in s.cells (node * s.base_size + npos) (take k bytes) })
              (omega arith) more (omega arith) (omega arith) (omega arith) in
          (
            c,
            write_loop_step fuel npos node bytes s hp more over
                ∙ e
                ∙ ap ok (written-written npos node bytes s c hp over),
            subst (λ p. PointsAt s.base_size s.nodes p c)
                (let q : suc node * s.base_size + 0 + length (drop k bytes)
                      ≡ node * s.base_size + npos + length bytes =
                    omega arith in
                  q)
                h,
          )
      | no within ↦ last_round fuel npos node bytes s hp hn (omega arith)
    ]
