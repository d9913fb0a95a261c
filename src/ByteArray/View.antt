-- ===== src/ByteArray/View.antt =====
-- The invariant of `ByteArray`, and the array of bytes that it stands for.
use xzmjx_rpc.Prelude.{
  ℕ, ◌+◌, ◌*◌, ◌≤◌, ◌<◌, ◌≡◌, ◌^◌, List, ◌++◌, Option, none, some, length, take, drop,
}
use xzmjx_rpc.ByteArray.Defs.{ByteArray, copy_out}

-- The representation: the nodes make up the capacity, and the position stands in the data. The
-- cursor may stand anywhere.
pub record IsValid (s : ByteArray) : Type 0 where
  pub base_pos : 0 < s.base_size
  pub has_root : 0 < s.nodes
  pub capacity_nodes : s.capacity ≡ s.nodes * s.base_size
  pub position_le : s.position ≤ s.size
  pub size_le : s.size ≤ s.capacity
  pub capacity_lt : s.capacity < 2 ^ 63

-- `m_cur` is the node of the position `p`, and nullptr at the very end of the last node.
abbrev pub PointsAt : ℕ → ℕ → ℕ → Option ℕ → Type 0
PointsAt base nodes p none = p ≡ nodes * base
PointsAt base nodes p (some i) = (i * base ≤ p) × (p < i * base + base) × (i < nodes)

abbrev pub IsReady : ByteArray → Type 0
IsReady s = PointsAt s.base_size s.nodes s.position s.cur

-- The abstract view: the bytes that the array holds, and those from the position on.
unfoldable pub content : ByteArray → List ℕ
content s = copy_out s.cells 0 s.size

-- `bytes` put over what stands from `p` on, as far as they reach.
unfoldable pub splice : ℕ → List ℕ → List ℕ → List ℕ
splice p bytes old = take p old ++ (bytes ++ drop (p + length bytes) old)
