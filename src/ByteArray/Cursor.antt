-- ===== src/ByteArray/Cursor.antt =====
-- The cursor of utils/byte_array.cpp: `setPosition` puts it right, and the reads that leave it
-- behind.
use xzmjx_rpc.Prelude.{
  ℕ, zero, suc, ◌+◌, ◌-◌, ◌*◌, ◌%◌, ◌^◌, ◌≤◌, ◌<◌, ◌≡◌, ◌≢◌, refl, ap, ◌∙◌, List, Option, some,
  subst, arith, ltb, ◌==◌, lt→ltb, ge→ltb, le→leb, take, drop, ok, inl, inr, Bool-cases, ltb→lt,
  ltb→ge, ne→==, ==→eq, ==→ne, if◌then◌else◌, false, threw, out_of_range,
}
use native.Mathlib.Decide.{dec_lt}
use xzmjx_rpc.ByteArray.Defs.{ByteArray, next, copy_out, read, read_loop, grow, get_read_size}
use native.Mathlib.Nat.{mul-mod_left}
use xzmjx_rpc.ByteArray.Access.{seek_loop, set_position}
use xzmjx_rpc.ByteArray.View.{IsValid, PointsAt, IsReady, content}
use xzmjx_rpc.ByteArray.Room.{div-mod_node}
use xzmjx_rpc.ByteArray.Write.{next-PointsAt, next_node, next-some}
use xzmjx_rpc.ByteArray.Read.{read_from, read_cursor, read_last, copy_out-content}

seek_loop_step :
    (fuel pos node : ℕ) (s : ByteArray)
    → suc node < s.nodes
    → s.base_size < pos
    → seek_loop (suc fuel) pos node s ≡ seek_loop fuel (pos - s.base_size) (suc node) s
unfolding seek_loop
seek_loop_step fuel pos node s hn h = rw (lt→ltb _ _ h, next-some s node hn) refl

seek_loop_last :
    (fuel pos node : ℕ) (s : ByteArray)
    → 0 < s.base_size
    → node < s.nodes
    → pos ≤ s.base_size
    → (c : Option ℕ) × (seek_loop (suc fuel) pos node s ≡ ok c)
      × PointsAt s.base_size s.nodes (node * s.base_size + pos) c
unfolding seek_loop
seek_loop_last fuel pos node s hb hn h = elim (Bool-cases (pos == s.base_size)) [
  | inl full ↦ (
    next s node,
    rw (ge→ltb _ _ h, full) refl,
    next-PointsAt s node _ hb hn (omega (arith, ==→eq _ _ full)),
  )
  | inr part ↦
      let q : pos ≢ s.base_size = ==→ne _ _ part in
      (some node, rw (ge→ltb _ _ h, part) refl, (omega arith, omega arith, hn))
]

seek_loop_lem :
    (fuel pos node : ℕ) (s : ByteArray)
    → 0 < s.base_size
    → node < s.nodes
    → node * s.base_size + pos ≤ s.nodes * s.base_size
    → pos < fuel
    → (c : Option ℕ) × (seek_loop fuel pos node s ≡ ok c)
      × PointsAt s.base_size s.nodes (node * s.base_size + pos) c
seek_loop_lem zero pos node s hb hn room hf = absurd (omega arith)
seek_loop_lem (suc fuel) pos node s hb hn room hf = elim (dec_lt s.base_size pos) [
  | yes over ↦
      let more : suc node < s.nodes = next_node node s.nodes s.base_size (omega arith) in
      let e : suc node * s.base_size + (pos - s.base_size) ≡ node * s.base_size + pos =
        omega arith in
      let (c, p, at) =
        seek_loop_lem fuel (pos - s.base_size) (suc node) s hb more (omega arith) (omega arith) in
      (
        c,
        seek_loop_step fuel pos node s more over ∙ p,
        subst (λ x. PointsAt s.base_size s.nodes x c) e at,
      )
  | no within ↦ seek_loop_last fuel pos node s hb hn (omega arith)
]

-- What `setPosition` leaves behind.
pub record Sought (pos : ℕ) (s t : ByteArray) : Type 0 where
  pub returned : set_position pos s ≡ ok t
  pub valid : IsValid t
  pub ready : IsReady t
  pub moved : t.position ≡ pos
  pub kept : pos ≤ s.size → content t ≡ content s
  pub size_grown : (pos ≤ s.size → t.size ≡ s.size) × (s.size ≤ pos → t.size ≡ pos)

-- Within the capacity `setPosition` returns, wherever the cursor stood before: the new array is
-- valid and its cursor stands in the node of the new position. The bytes stay as they are if the
-- position lies within them, and the size is raised to the position otherwise.
pub set_position_lem :
    (pos : ℕ) (s : ByteArray) → IsValid s → pos ≤ s.capacity → (t : ByteArray) × Sought pos s t
unfolding set_position grow content
set_position_lem pos s v h =
    let (c, e, at) =
      seek_loop_lem (suc pos) pos 0 s v.base_pos v.has_root (omega (arith, v)) (omega arith) in
    let here : 0 * s.base_size + pos ≡ pos = omega arith in
    let at' = subst (λ x. PointsAt s.base_size s.nodes x c) here at in
    let allowed : ltb s.capacity pos ≡ false = ge→ltb _ _ h in
    elim (Bool-cases (ltb s.size pos)) [
      | inl longer ↦
          let lt : s.size < pos = ltb→lt _ _ longer in
          (
            record s { position = pos; size = pos; cur = c },
            record {
              returned = rw (allowed, e, longer) refl;
              valid = omega (arith, v);
              ready = at';
              moved = refl;
              kept = λ le. absurd (omega arith);
              size_grown = ((λ le. absurd (omega arith)), (λ le. refl));
            },
          )
      | inr within ↦
          let le' : pos ≤ s.size = ltb→ge _ _ within in
          (
            record s { position = pos; cur = c },
            record {
              returned = rw (allowed, e, within) refl;
              valid = omega (arith, v);
              ready = at';
              moved = refl;
              kept = λ le. refl;
              size_grown = ((λ le. refl), (λ le. omega arith));
            },
          )
    ]

-- Past the capacity `setPosition` throws `out_of_range`, and `read` throws it when it is asked
-- for more than what is left: the two guards of the class, on every valid array.
guards :
    (s : ByteArray) (pos n : ℕ)
    → IsValid s
    → (s.capacity < pos → set_position pos s ≡ threw out_of_range)
      × (s.size < s.position + n → read n s ≡ threw out_of_range)
unfolding set_position read get_read_size
guards s pos n v = (
  (λ h. rw (lt→ltb _ _ h) refl),
  (λ h.
      let size : (s.size + 2 ^ 64 - s.position) % 2 ^ 64 ≡ s.size - s.position = omega (arith, v) in
      rw (lt→ltb ((s.size + 2 ^ 64 - s.position) % 2 ^ 64) n (omega arith)) refl),
)

-- A read at a position that begins a node, with the cursor at node number `node`, whichever that is.
read_again :
    (m node : ℕ) (t : ByteArray)
    → IsValid t
    → t.cur ≡ some node
    → t.position % t.base_size ≡ 0
    → 0 < m
    → m ≤ t.base_size
    → t.position + m ≤ t.size
    → read m t
      ≡ ok (
        copy_out t.cells (node * t.base_size + 0) m,
        record t {
          position = t.position + m;
          cur = if t.base_size == m then next t node else some node;
        },
      )
unfolding read_loop
read_again m node t v e z pos hm h =
    read_from m t v h
    ∙ rw (z, e, ne→== m 0 (omega arith), le→leb m (t.base_size - 0) (omega arith)) refl

-- The defect of `read`: after a read that starts inside a node and stops exactly at its end, the
-- cursor stays on that node, and the next read of up to a node of bytes returns the bytes at the
-- start of the node again, `base_size` before the bytes that it should return.
pub read_stale :
    (n m node : ℕ) (s : ByteArray)
    → IsValid s
    → IsReady s
    → s.cur ≡ some node
    → s.position % s.base_size ≢ 0
    → s.position % s.base_size + n ≡ s.base_size
    → 0 < m
    → m ≤ s.base_size
    → s.position + n + m ≤ s.size
    → (t u : ByteArray) × (read n s ≡ ok (take n (drop s.position (content s)), t))
      × (read m t ≡ ok (take m (drop (s.position + n - s.base_size) (content s)), u))
read_stale n m node s v r e inside stop pos hm room =
    let at : PointsAt s.base_size s.nodes s.position (some node) =
      subst (PointsAt s.base_size s.nodes s.position) e r in
    let (q, d) = div-mod_node node s.base_size s.position at.0 at.1 in
    let npos = s.position % s.base_size in
    let here : node * s.base_size + npos ≡ s.position = omega (arith, d, at.0) in
    let (c, l, k, stay) = read_last n npos n node s (omega (arith, d, at)) at.2 (omega arith) in
    let c' : c ≡ some node = stay (omega arith) in
    let t = record s { position = s.position + n; cur = some node } in
    let turn : (s.position + n) % s.base_size ≡ 0 =
      ap (λ x. x % s.base_size)
        (let w : s.position + n ≡ suc node * s.base_size = omega (arith, here) in w)
      ∙ mul-mod_left (suc node) s.base_size in
    let back : node * s.base_size + 0 ≡ s.position + n - s.base_size = omega (arith, here) in
    (
      t,
      record t {
        position = s.position + n + m;
        cur = if s.base_size == m then next t node else some node;
      },
      read_cursor n node s v e here (omega arith)
          ∙ l
          ∙ ap
              (λ x. ok (
                copy_out s.cells (node * s.base_size + npos) n,
                record s { position = node * s.base_size + npos + n; cur = x },
              ))
              c'
          ∙ ap (λ x. ok (copy_out s.cells x n, record s { position = x + n; cur = some node })) here
          ∙ ap (λ (b : List ℕ). ok (b, t)) (copy_out-content s s.position n (omega arith)),
      read_again m node t (omega (arith, v)) refl turn pos hm (omega arith)
          ∙ ap
              (λ x. ok (
                copy_out s.cells x m,
                record t {
                  position = s.position + n + m;
                  cur = if s.base_size == m then next t node else some node;
                },
              ))
              back
          ∙ ap
              (λ (b : List ℕ). ok (
                b,
                record t {
                  position = s.position + n + m;
                  cur = if s.base_size == m then next t node else some node;
                },
              ))
              (copy_out-content s (s.position + n - s.base_size) m (omega arith)),
    )
