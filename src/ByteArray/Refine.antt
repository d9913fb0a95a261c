-- ===== src/ByteArray/Refine.antt =====
-- `write` of utils/byte_array.cpp refines an overwriting write on the abstract view.
use xzmjx_rpc.Prelude.{
  ℕ, ◌+◌, ◌-◌, ◌*◌, ◌%◌, ◌^◌, ◌≤◌, ◌<◌, ◌≡◌, refl, ap, ap₂, sym, ◌∙◌, List, [], ◌∷◌, ◌++◌, Option,
  some, subst, arith, ltb, length, take-append-drop, ok, inl, inr, Bool-cases, ltb→lt, ltb→ge,
  ne→==,
}
use xzmjx_rpc.ByteArray.Defs.{ByteArray, copy_in, copy_out, write, write_loop, grow}
use xzmjx_rpc.ByteArray.Memory.{
  copy_out-add, copy_out-copy_in, copy_out-copy_in_before, copy_out-copy_in_after, take-copy_out,
  drop-copy_out,
}
use xzmjx_rpc.ByteArray.View.{IsValid, PointsAt, IsReady, content, splice}
use xzmjx_rpc.ByteArray.Room.{HasRoom, add_capacity-HasRoom, div-mod_node}
use xzmjx_rpc.ByteArray.Write.{write_loop_lem}

copy_out-splice :
    (cells : ℕ → ℕ) (p size : ℕ) (bytes : List ℕ)
    → p ≤ size
    → copy_out (copy_in cells p bytes) 0 (p + (length bytes + (size - (p + length bytes))))
      ≡ splice p bytes (copy_out cells 0 size)
unfolding splice
copy_out-splice cells p size bytes h =
    let d = copy_in cells p bytes in
    let left = size - (p + length bytes) in
    copy_out-add d 0 p (length bytes + left)
    ∙ ap₂ ◌++◌
        (copy_out-copy_in_before cells 0 p p bytes (omega arith)
          ∙ sym (take-copy_out cells 0 p size h))
        (ap (λ a. copy_out d a (length bytes + left)) (let e : 0 + p ≡ p = omega arith in e)
          ∙ copy_out-add d p (length bytes) left
          ∙ ap₂ ◌++◌ (copy_out-copy_in cells p bytes) (
              copy_out-copy_in_after cells (p + length bytes) left p bytes (omega arith)
              ∙ ap (λ a. copy_out cells a left)
                  (let e : p + length bytes ≡ 0 + (p + length bytes) = omega arith in e)
              ∙ sym (drop-copy_out cells 0 (p + length bytes) size)))

-- The array behind a write of at least one byte.
abbrev stored : ByteArray → List ℕ → ℕ → ℕ → Option ℕ → ByteArray
stored s bytes nodes capacity c = record s {
  cells = copy_in s.cells s.position bytes;
  position = s.position + length bytes;
  nodes = nodes;
  capacity = capacity;
  cur = c;
}

-- `write` reduces to its loop, which ends with all bytes stored.
write-stored :
    (bytes : List ℕ) (s : ByteArray) (node nodes capacity : ℕ)
    → IsValid s
    → 0 < length bytes
    → HasRoom s (length bytes) node nodes capacity
    → (c : Option ℕ) × (write bytes s ≡ ok (grow (stored s bytes nodes capacity c)))
      × PointsAt s.base_size nodes (s.position + length bytes) c
unfolding write
write-stored bytes s node nodes capacity v pos room =
    let (q, m) = div-mod_node node s.base_size s.position room.lo room.hi in
    let npos = s.position % s.base_size in
    let at : node * s.base_size + npos ≡ s.position = omega (arith, m, room.lo) in
    let t = record s { nodes = nodes; capacity = capacity } in
    let (c, e, p) =
      write_loop_lem (length bytes) npos node bytes t (omega (arith, m, room.hi, room.lo))
        room.inside (omega (arith, at, room.room, room.capacity_nodes)) pos (omega arith) in
    let e' : write_loop (length bytes) npos bytes (record t { cur = some node })
        ≡ ok (stored s bytes nodes capacity c) =
      subst
        (λ x.
          write_loop (length bytes) npos bytes (record t { cur = some node; position = x })
          ≡ ok (record t { cells = copy_in s.cells x bytes; position = x + length bytes; cur = c }))
        at e in
    (
      c,
      rw (ne→== (length bytes) 0 (omega arith), room.grown, e') refl,
      subst (λ x. PointsAt s.base_size nodes (x + length bytes) c) at p,
    )

-- What a write leaves behind.
pub record Wrote (bytes : List ℕ) (s t : ByteArray) : Type 0 where
  pub returned : write bytes s ≡ ok t
  pub valid : IsValid t
  pub ready : IsReady t
  pub bytes_put : content t ≡ splice s.position bytes (content s)
  pub moved : t.position ≡ s.position + length bytes
  pub same_base : t.base_size ≡ s.base_size
  pub same_endian : t.endian ≡ s.endian

grow-Wrote :
    (bytes : List ℕ) (s : ByteArray) (nodes capacity : ℕ) (c : Option ℕ)
    → IsValid s
    → 0 < nodes
    → capacity ≡ nodes * s.base_size
    → s.position + length bytes ≤ capacity
    → s.capacity ≤ capacity
    → capacity < 2 ^ 63
    → PointsAt s.base_size nodes (s.position + length bytes) c
    → write bytes s ≡ ok (grow (stored s bytes nodes capacity c))
    → (t : ByteArray) × Wrote bytes s t
unfolding grow content
grow-Wrote bytes s nodes capacity c v np cn room kept small at e =
    let whole = copy_out-splice s.cells s.position s.size bytes v.position_le in
    elim (Bool-cases (ltb s.size (s.position + length bytes))) [
      | inl longer ↦
          let lt : s.size < s.position + length bytes = ltb→lt _ _ longer in
          let total : s.position + (length bytes + (s.size - (s.position + length bytes)))
              ≡ s.position + length bytes =
            omega arith in
          (
            record (stored s bytes nodes capacity c) { size = s.position + length bytes },
            record {
              returned = rw (longer) at e;
              valid = omega (arith, v);
              ready = at;
              bytes_put = rw (← total) whole;
              moved = refl;
              same_base = refl;
              same_endian = refl;
            },
          )
      | inr within ↦
          let le : s.position + length bytes ≤ s.size = ltb→ge _ _ within in
          let total : s.position + (length bytes + (s.size - (s.position + length bytes)))
              ≡ s.size =
            omega arith in
          (
            stored s bytes nodes capacity c,
            record {
              returned = rw (within) at e;
              valid = omega (arith, v);
              ready = at;
              bytes_put = rw total at whole;
              moved = refl;
              same_base = refl;
              same_endian = refl;
            },
          )
    ]

splice_nil : (p : ℕ) (old : List ℕ) → splice p [] old ≡ old
unfolding splice
splice_nil p old = let e : p + 0 ≡ p = omega arith in rw e (take-append-drop p old)

nothing : (s : ByteArray) → IsValid s → IsReady s → Wrote [] s s
unfolding write
nothing s v r = record {
  returned = refl;
  valid = v;
  ready = r;
  bytes_put = sym (splice_nil s.position (content s));
  moved = omega arith;
  same_base = refl;
  same_endian = refl;
}

-- On a valid array whose cursor stands at the position, and as long as the sizes stay below
-- 2 ^ 63, `write` returns; the new array is valid, its cursor stands at the position, its bytes
-- are the old ones with `bytes` put over them at the position, and the position moves by their
-- number. Endianness and node size stay.
pub write_refines :
    (bytes : List ℕ) (s : ByteArray)
    → IsValid s
    → IsReady s
    → s.position + length bytes + s.base_size < 2 ^ 63
    → (t : ByteArray) × Wrote bytes s t
write_refines [] s v r small = (s, nothing s v r)
write_refines (b ∷ bs) s v r small =
    let n = length (b ∷ bs) in
    let (node, nodes, capacity, room) = add_capacity-HasRoom s n v r (omega arith) small in
    let (c, e, at) = write-stored (b ∷ bs) s node nodes capacity v (omega arith) room in
    grow-Wrote (b ∷ bs) s nodes capacity c v room.nodes_pos room.capacity_nodes room.room room.kept
      room.bound at e
