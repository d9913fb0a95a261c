-- ===== src/Net/Stream/Small.antt =====
-- The calls that streams make of a byte array (utils/byte_array.cpp) while its data lies inside the
-- first node.
use xzmjx_rpc.Prelude.{
  ℕ, ◌+◌, ◌-◌, ◌*◌, ◌%◌, ◌^◌, ◌≤◌, ◌<◌, ◌≡◌, refl, ap, sym, [], ◌∷◌, arith, ltb, lt→ltb, ge→ltb,
  le→leb, ne→==, ok, some, if◌then◌else◌, subst,
}
use xzmjx_rpc.ByteArray.Defs.{ByteArray, grow, get_read_size, add_capacity, get_capacity}
use xzmjx_rpc.ByteArray.Access.{set_position, seek_loop, get_read_buffers, get_write_buffers}
use xzmjx_rpc.ByteArray.View.{PointsAt, IsReady}
use xzmjx_rpc.ByteArray.Room.{get_capacity_lem}
use xzmjx_rpc.ByteArray.Buffers.{buffers_loop_fit}
use xzmjx_rpc.ByteArray.Tape.{IsSmall, one_node}
use native.Mathlib.Nat.{mod-eq_of_lt}

pub set_position_back :
    (p : ℕ) (s : ByteArray)
    → IsSmall s
    → p ≤ s.size
    → set_position p s ≡ ok (record s { position = p })
unfolding set_position seek_loop grow
set_position_back p s sm h =
    rw
      (
        ge→ltb s.capacity p (omega (arith, sm.valid)),
        ge→ltb s.base_size p (omega (arith, sm)),
        ne→== p s.base_size (omega (arith, sm)),
        ge→ltb s.size p (omega arith),
      )
      (ap (λ c. ok (record s { position = p; cur = c })) (sym sm.at_root))

pub set_position_on :
    (p : ℕ) (s : ByteArray)
    → IsSmall s
    → s.size < p
    → p < s.base_size
    → set_position p s ≡ ok (record s { position = p; size = p })
unfolding set_position seek_loop grow
set_position_on p s sm h k =
    rw
      (
        ge→ltb s.capacity p (omega (arith, one_node s sm.valid)),
        ge→ltb s.base_size p (omega (arith, sm)),
        ne→== p s.base_size (omega (arith, sm)),
        lt→ltb s.size p (omega arith),
      )
      (ap (λ c. ok (record s { position = p; size = p; cur = c })) (sym sm.at_root))

small-IsReady : (s : ByteArray) → IsSmall s → IsReady s
small-IsReady s sm = subst (PointsAt s.base_size s.nodes s.position) (sym sm.at_root) (
  let a : 0 * s.base_size ≤ s.position = omega arith in a,
  omega (arith, sm, sm.valid),
  omega (arith, sm.valid),
)

clamp : (a n : ℕ) → a ≤ n → (if ltb a n then a else n) ≡ a
clamp a n h = ground arith

no_growth :
    (n : ℕ) (s : ByteArray) → IsSmall s → s.position + n ≤ s.base_size → add_capacity n s ≡ s
unfolding add_capacity
no_growth n s sm h =
    rw (le→leb n (get_capacity s) (omega (arith, get_capacity_lem s sm.valid, one_node s sm.valid)))
      refl

pub get_read_buffers_small :
    (n : ℕ) (s : ByteArray)
    → IsSmall s
    → s.position < s.size
    → s.size - s.position ≤ n
    → get_read_buffers [] n s
      ≡ ok (
        s.size - s.position,
        record { iov_base = s.position; iov_len = s.size - s.position } ∷ [],
      )
unfolding get_read_buffers get_read_size
get_read_buffers_small n s sm h k =
    let left : (s.size + 2 ^ 64 - s.position) % 2 ^ 64 ≡ s.size - s.position =
      omega (arith, sm.valid) in
    let npos : s.position % s.base_size ≡ s.position = mod-eq_of_lt (omega (arith, sm)) in
    let here : 0 * s.base_size + s.position ≡ s.position = omega arith in
    rw
      (
        left,
        clamp (s.size - s.position) n k,
        ne→== (s.size - s.position) 0 (omega arith),
        npos,
        sm.at_root,
        buffers_loop_fit s.nodes 0 s.position (s.size - s.position) (record s { cur = some 0 })
            (omega (arith, sm)) (omega arith),
        here,
      )
      refl

pub get_write_buffers_small :
    (n : ℕ) (s : ByteArray)
    → IsSmall s
    → 0 < n
    → s.position + n < s.base_size
    → get_write_buffers [] n s ≡ ok (n, record { iov_base = s.position; iov_len = n } ∷ [], s)
unfolding get_write_buffers
get_write_buffers_small n s sm h k =
    let npos : s.position % s.base_size ≡ s.position = mod-eq_of_lt (omega (arith, sm)) in
    let here : 0 * s.base_size + s.position ≡ s.position = omega arith in
    rw
      (
        ne→== n 0 (omega arith),
        no_growth n s sm (omega arith),
        npos,
        sm.at_root,
        buffers_loop_fit s.nodes 0 s.position n (record s { cur = some 0 }) (omega arith) h,
        here,
      )
      refl
