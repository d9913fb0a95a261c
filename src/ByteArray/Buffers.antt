-- ===== src/ByteArray/Buffers.antt =====
-- The scatter/gather lists of utils/byte_array.cpp: where they are right, and where their loop
-- walks off the chain of nodes.
use xzmjx_rpc.Prelude.{
  ℕ, zero, suc, ◌+◌, ◌-◌, ◌*◌, ◌%◌, ◌^◌, ◌≤◌, ◌<◌, ◌≡◌, refl, List, [], ◌∷◌, some, subst, arith,
  ltb, ◌==◌, ge→ltb, le→leb, gt→leb, ok, inl, inr, Bool-cases, ltb→lt, ne→==, false, crashed,
  Option-cases,
}
use xzmjx_rpc.ByteArray.Defs.{ByteArray, next, add_capacity, get_read_size}
use xzmjx_rpc.ByteArray.Access.{Iovec, buffers_loop, get_read_buffers, get_write_buffers}
use xzmjx_rpc.ByteArray.View.{IsValid, PointsAt, IsReady}
use xzmjx_rpc.ByteArray.Room.{div-mod_node, add_capacity-HasRoom}

pub buffers_loop_fit :
    (fuel node npos len : ℕ) (s : ByteArray)
    → npos + len ≤ s.base_size
    → 0 < len
    → buffers_loop (suc fuel) (some node) npos len s
      ≡ ok (record { iov_base = node * s.base_size + npos; iov_len = len } ∷ [])
unfolding buffers_loop
buffers_loop_fit fuel node npos len s h pos =
    rw (le→leb len (s.base_size - npos) (omega arith)) refl

buffers_loop_crash :
    (fuel node npos len : ℕ) (s : ByteArray)
    → s.base_size < len
    → node < s.nodes
    → s.nodes < fuel + node
    → buffers_loop fuel (some node) npos len s ≡ crashed
unfolding buffers_loop next
buffers_loop_crash zero node npos len s h hn hf = absurd (omega arith)
buffers_loop_crash (suc zero) node npos len s h hn hf = absurd (omega arith)
buffers_loop_crash (suc (suc fuel)) node npos len s h hn hf =
    elim (Bool-cases (ltb (suc node) s.nodes)) [
      | inl more ↦
          rw
            (
              gt→leb len (s.base_size - npos) (omega arith),
              more,
              buffers_loop_crash (suc fuel) (suc node) 0 len s h (ltb→lt _ _ more) (omega arith),
            )
            refl
      | inr done ↦ rw (gt→leb len (s.base_size - npos) (omega arith), done) refl
    ]

module _ (buffers : List Iovec) (len : ℕ) (s : ByteArray) (v : IsValid s) (r : IsReady s) where
  -- The position's node and offset, where at least one byte is asked for and there.
  cursor :
      s.position < s.capacity
      → (node : ℕ) × (s.cur ≡ some node)
        × (node < s.nodes)
        × (node * s.base_size + s.position % s.base_size ≡ s.position)
  cursor inside = elim (Option-cases s.cur) [
    | inl e ↦
        let at : s.position ≡ s.nodes * s.base_size =
          subst (PointsAt s.base_size s.nodes s.position) e r in
        absurd (omega (arith, v.capacity_nodes))
    | inr (i, e) ↦
        let at : PointsAt s.base_size s.nodes s.position (some i) =
          subst (PointsAt s.base_size s.nodes s.position) e r in
        let (q, d) = div-mod_node i s.base_size s.position at.0 at.1 in
        (i, e, at.2, omega (arith, d, at.0))
  ]

  -- `getReadBuffers` of at least one byte that is there: up to the end of the position's node it
  -- returns one buffer, at the position and of that length; of more than one node it crashes,
  -- since its loop does not count down and follows the null pointer behind the last node.
  pub get_read_buffers_lem :
      0 < len
      → s.position + len ≤ s.size
      → (s.position % s.base_size + len ≤ s.base_size
          → get_read_buffers buffers len s
            ≡ ok (len, record { iov_base = s.position; iov_len = len } ∷ []))
        × (s.base_size < len → get_read_buffers buffers len s ≡ crashed)
  unfolding get_read_buffers get_read_size
  get_read_buffers_lem pos h =
      let (node, e, hn, here) = cursor (omega (arith, v)) in
      let left : (s.size + 2 ^ 64 - s.position) % 2 ^ 64 ≡ s.size - s.position = omega (arith, v) in
      let asked : ltb ((s.size + 2 ^ 64 - s.position) % 2 ^ 64) len ≡ false =
        ge→ltb ((s.size + 2 ^ 64 - s.position) % 2 ^ 64) len (omega arith) in
      let t = record s { cur = some node } in
      let nz : (len == 0) ≡ false = ne→== len 0 (omega arith) in
      (
        (λ fits.
            rw
              (
                asked,
                nz,
                e,
                buffers_loop_fit s.nodes node (s.position % s.base_size) len t fits pos,
                here,
              )
              refl),
        (λ long.
            rw
              (
                asked,
                nz,
                e,
                buffers_loop_crash (suc s.nodes) node (s.position % s.base_size) len t long hn
                    (omega arith),
              )
              refl),
      )

  -- `getWriteBuffers` of at least one byte makes room first; then the same holds of it: up to the
  -- end of the position's node it returns one buffer, at the position and of that length; of more
  -- than one node it crashes, however much room there is.
  pub get_write_buffers_lem :
      0 < len
      → s.position + len + s.base_size < 2 ^ 63
      → (s.position % s.base_size + len ≤ s.base_size
          → get_write_buffers buffers len s
            ≡ ok (len, record { iov_base = s.position; iov_len = len } ∷ [], add_capacity len s))
        × (s.base_size < len → get_write_buffers buffers len s ≡ crashed)
  unfolding get_write_buffers
  get_write_buffers_lem pos small =
      let (node, nodes, capacity, room) = add_capacity-HasRoom s len v r pos small in
      let (q, d) = div-mod_node node s.base_size s.position room.lo room.hi in
      let here : node * s.base_size + s.position % s.base_size ≡ s.position =
        omega (arith, d, room.lo) in
      let t = record s { nodes = nodes; capacity = capacity; cur = some node } in
      let nz : (len == 0) ≡ false = ne→== len 0 (omega arith) in
      (
        (λ fits.
            rw
              (
                nz,
                room.grown,
                buffers_loop_fit nodes node (s.position % s.base_size) len t fits pos,
                here,
              )
              refl),
        (λ long.
            rw
              (
                nz,
                room.grown,
                buffers_loop_crash (suc nodes) node (s.position % s.base_size) len t long
                    room.inside (omega arith),
              )
              refl),
      )
