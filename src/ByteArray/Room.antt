-- ===== src/ByteArray/Room.antt =====
-- `addCapacity` of utils/byte_array.cpp: how many nodes it appends, and where the cursor stands.
use xzmjx_rpc.Prelude.{
  ℕ, zero, suc, ◌+◌, ◌-◌, ◌*◌, ◌/◌, ◌%◌, ◌^◌, ◌≤◌, ◌<◌, ◌≡◌, refl, ap, Option, some, subst, arith,
  ◌==◌, le→leb, gt→leb, inl, inr, Option-cases, ne→==, false,
}
use xzmjx_rpc.ByteArray.Defs.{ByteArray, get_capacity, node_count, add_capacity}
use xzmjx_rpc.ByteArray.View.{IsValid, PointsAt, IsReady}
use native.Mathlib.Nat.{div-add-mod', mod-lt, mul-le-mul_right, div-eq_of_lt-le}
use native.Mathlib.Decide.{dec_lt}

-- The node that holds a position, and the offset there.
pub div-mod_node : (i b p : ℕ) → i * b ≤ p → p < i * b + b → (p / b ≡ i) × (p % b ≡ p - i * b)
div-mod_node i b p lo hi =
    let q : p / b ≡ i =
      div-eq_of_lt-le b lo (let e : (i + 1) * b ≡ i * b + b = omega arith in rw e hi) in
    let m : p / b * b ≡ i * b = ap (λ t. t * b) q in (q, omega (arith, div-add-mod' p b))

-- The nodes appended hold the missing bytes, with less than one node to spare.
pub node_count_bounds : (b n : ℕ) → 0 < b → (n ≤ node_count b n * b) × (node_count b n * b < n + b)
unfolding node_count
node_count_bounds b n h =
    let d : (n + b - 1) / b * b + (n + b - 1) % b ≡ n + b - 1 = div-add-mod' (n + b - 1) b in
    let m : (n + b - 1) % b < b = mod-lt (n + b - 1) h in (omega arith, omega arith)

pub get_capacity_lem : (s : ByteArray) → IsValid s → get_capacity s ≡ s.capacity - s.position
unfolding get_capacity
get_capacity_lem s v = omega arith

-- What `addCapacity` leaves: room for `n` bytes, and the cursor in the node of the position.
pub record HasRoom (s : ByteArray) (n node nodes capacity : ℕ) : Type 0 where
  pub grown : add_capacity n s ≡ record s { nodes = nodes; capacity = capacity; cur = some node }
  pub capacity_nodes : capacity ≡ nodes * s.base_size
  pub room : s.position + n ≤ capacity
  pub kept : s.capacity ≤ capacity
  pub bound : capacity < 2 ^ 63
  pub nodes_pos : 0 < nodes
  pub lo : node * s.base_size ≤ s.position
  pub hi : s.position < node * s.base_size + s.base_size
  pub inside : node < nodes

pos_of_mul : (a b : ℕ) → 0 < a * b → 0 < a
pos_of_mul zero b h = absurd (omega arith)
pos_of_mul (suc a) b h = omega arith

with_cur : (s : ByteArray) (c : Option ℕ) → s.cur ≡ c → s ≡ record s { cur = c }
with_cur s c e = ap (λ k. record s { cur = k }) e

module _ (s : ByteArray) (n : ℕ) (v : IsValid s) (r : IsReady s) (pos : 0 < n) where
  cap : get_capacity s ≡ s.capacity - s.position
  cap = get_capacity_lem s v

  enough :
      (i : ℕ)
      → s.cur ≡ some i
      → PointsAt s.base_size s.nodes s.position (some i)
      → n ≤ s.capacity - s.position
      → HasRoom s n i s.nodes s.capacity
  unfolding add_capacity
  enough i e at h = record {
    grown = rw (le→leb n (get_capacity s) (omega (arith, cap))) (with_cur s (some i) e);
    capacity_nodes = v.capacity_nodes;
    room = omega (arith, v);
    kept = omega arith;
    bound = v.capacity_lt;
    nodes_pos = v.has_root;
    lo = at.0;
    hi = at.1;
    inside = at.2;
  }

  abbrev added : ℕ
  added = node_count s.base_size (n - get_capacity s)

  at_end :
      s.position ≡ s.capacity
      → s.position + n + s.base_size < 2 ^ 63
      → HasRoom s n s.nodes (s.nodes + added) (s.capacity + added * s.base_size)
  unfolding add_capacity
  at_end e small =
      let z : get_capacity s ≡ 0 = omega (arith, cap) in
      let (lo, hi) = node_count_bounds s.base_size (n - get_capacity s) v.base_pos in
      let two : (s.nodes + added) * s.base_size ≡ s.nodes * s.base_size + added * s.base_size =
        omega arith in
      let some_node : 0 < added = pos_of_mul added s.base_size (omega (arith, z)) in
      record {
        grown = rw (gt→leb n (get_capacity s) (omega (arith, z)), z) refl;
        capacity_nodes = omega (arith, two, v);
        room = omega (arith, z);
        kept = omega arith;
        bound = omega (arith, z);
        nodes_pos = omega (arith, v);
        lo = omega (arith, v);
        hi = omega (arith, v);
        inside = omega arith;
      }

  in_node :
      (i : ℕ)
      → s.cur ≡ some i
      → PointsAt s.base_size s.nodes s.position (some i)
      → s.capacity - s.position < n
      → s.position < s.capacity
      → s.position + n + s.base_size < 2 ^ 63
      → HasRoom s n i (s.nodes + added) (s.capacity + added * s.base_size)
  unfolding add_capacity
  in_node i e at short left small =
      let nz : (get_capacity s == 0) ≡ false = ne→== (get_capacity s) 0 (omega (arith, cap)) in
      let (lo, hi) = node_count_bounds s.base_size (n - get_capacity s) v.base_pos in
      let two : (s.nodes + added) * s.base_size ≡ s.nodes * s.base_size + added * s.base_size =
        omega arith in
      record {
        grown =
            rw (gt→leb n (get_capacity s) (omega (arith, cap)), nz)
              (ap
                (λ k. record s {
                  nodes = s.nodes + added;
                  capacity = s.capacity + added * s.base_size;
                  cur = k;
                })
                e);
        capacity_nodes = omega (arith, two, v);
        room = omega (arith, cap);
        kept = omega arith;
        bound = omega (arith, cap);
        nodes_pos = omega (arith, v);
        lo = at.0;
        hi = at.1;
        inside = omega (arith, at.2);
      }

  -- Where sizes stay below 2 ^ 63, `addCapacity` makes room for `n` bytes at the position.
  pub add_capacity-HasRoom :
      s.position + n + s.base_size < 2 ^ 63
      → (node nodes capacity : ℕ) × HasRoom s n node nodes capacity
  add_capacity-HasRoom small = elim (Option-cases s.cur) [
    | inl e ↦
        let at : s.position ≡ s.nodes * s.base_size =
          subst (PointsAt s.base_size s.nodes s.position) e r in
        (
          s.nodes,
          s.nodes + added,
          s.capacity + added * s.base_size,
          at_end (omega (arith, v)) small,
        )
    | inr (i, e) ↦
        let at : PointsAt s.base_size s.nodes s.position (some i) =
          subst (PointsAt s.base_size s.nodes s.position) e r in
        let inside : s.position < s.capacity = omega (
          arith,
          v.capacity_nodes,
          mul-le-mul_right {m = suc i} {n = s.nodes} s.base_size at.2,
          at.1,
        ) in
        elim (dec_lt (s.capacity - s.position) n) [
          | yes short ↦ (
            i,
            s.nodes + added,
            s.capacity + added * s.base_size,
            in_node i e at short inside small,
          )
          | no enough' ↦ (i, s.nodes, s.capacity, enough i e at (omega arith))
        ]
  ]
