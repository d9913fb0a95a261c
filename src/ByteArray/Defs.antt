-- ===== src/ByteArray/Defs.antt =====
-- The state and the buffer operations of `ByteArray` (utils/byte_array.h, utils/byte_array.cpp).
use xzmjx_rpc.Prelude.{
  ℕ, zero, suc, ◌+◌, ◌-◌, ◌*◌, ◌/◌, ◌%◌, ◌^◌, List, [], ◌∷◌, ◌++◌, Option, none, some, ltb, leb,
  ◌==◌, if◌then◌else◌, length, take, drop, Outcome, ok, threw, crashed, stuck, out_of_range, ◌>>=◌,
  Bool, true, false,
}

-- `std::endian`
pub data Endian : Type 0 where
  little big : Endian

pub record ByteArray : Type 0 where
  pub position : ℕ
  pub base_size : ℕ
  pub capacity : ℕ
  pub size : ℕ
  pub nodes : ℕ
  pub cur : Option ℕ
  pub cells : ℕ → ℕ
  pub endian : Endian

-- `explicit ByteArray(size_t base_size)`; the memory of the nodes is not initialised.
unfoldable pub create : (ℕ → ℕ) → ℕ → ByteArray
create memory base_size = record {
  position = 0;
  base_size = base_size;
  capacity = base_size;
  size = 0;
  nodes = 1;
  cur = some 0;
  cells = memory;
  endian = big;
}

-- `node->next` of node number `i`.
unfoldable pub next : ByteArray → ℕ → Option ℕ
next s i = if ltb (suc i) s.nodes then some (suc i) else none

-- `memcpy` to and from the memory of the nodes.
unfoldable pub copy_in : (ℕ → ℕ) → ℕ → List ℕ → ℕ → ℕ
copy_in cells a [] x = cells x
copy_in cells a (b ∷ bs) x = if x == a then b else copy_in cells (suc a) bs x

unfoldable pub copy_out : (ℕ → ℕ) → ℕ → ℕ → List ℕ
copy_out cells a zero = []
copy_out cells a (suc n) = cells a ∷ copy_out cells (suc a) n

unfoldable pub set_little_endian : ByteArray → ByteArray
set_little_endian s = record s { endian = little }

unfoldable pub is_little_endian : ByteArray → Bool
is_little_endian s = elim s.endian [ little ↦ true | big ↦ false ]

-- `m_size - m_position` on `size_t`.
unfoldable pub get_read_size : ByteArray → ℕ
get_read_size s = (s.size + 2 ^ 64 - s.position) % 2 ^ 64

unfoldable pub get_capacity : ByteArray → ℕ
get_capacity s = (s.capacity + 2 ^ 64 - s.position) % 2 ^ 64

-- `clear` frees all nodes but the root.
unfoldable pub clear : ByteArray → ByteArray
clear s = record s { position = 0; size = 0; capacity = s.base_size; nodes = 1; cur = some 0 }

-- `ceil((1.0 * size) / m_base_size)`, exact for sizes below 2 ^ 53.
unfoldable pub node_count : ℕ → ℕ → ℕ
node_count base_size n = (n + base_size - 1) / base_size

-- The nodes are appended behind the last; `m_cur` moves to the first of them if no room was left.
unfoldable pub add_capacity : ℕ → ByteArray → ByteArray
unfolding get_capacity node_count
add_capacity n s =
    let old_cap = get_capacity s in
    let count = node_count s.base_size (n - old_cap) in
    if leb n old_cap then s else record s {
      nodes = s.nodes + count;
      capacity = s.capacity + count * s.base_size;
      cur = if old_cap == 0 then some s.nodes else s.cur;
    }

-- The `while` loop of `write`, which is entered with bytes to write; `npos` is the offset in the
-- node. A null `m_cur` is followed by `m_cur->size`.
unfoldable pub write_loop : ℕ → ℕ → List ℕ → ByteArray → Outcome ByteArray
unfolding next copy_in
write_loop zero npos bytes s = stuck
write_loop (suc fuel) npos bytes s = elim s.cur [
  | none ↦ crashed
  | some node ↦
      let ncap = s.base_size - npos in
      let rest = write_loop fuel 0 (drop ncap bytes) (record s {
        cells = copy_in s.cells (node * s.base_size + npos) (take ncap bytes);
        position = s.position + ncap;
        cur = next s node;
      }) in
      if leb (length bytes) ncap
      then ok (record s {
        cells = copy_in s.cells (node * s.base_size + npos) bytes;
        position = s.position + length bytes;
        cur = if s.base_size == (npos + length bytes) then next s node else some node;
      })
      else rest
]

-- `if (m_position > m_size) m_size = m_position;`
unfoldable pub grow : ByteArray → ByteArray
grow s = if ltb s.size s.position then record s { size = s.position } else s

-- Every round but the last writes a byte at least, so a round for each byte is enough.
unfoldable pub write : List ℕ → ByteArray → Outcome ByteArray
unfolding add_capacity write_loop grow
write bytes s = if length bytes == 0 then ok s else do
  let s' = add_capacity (length bytes) s
  w ← write_loop (length bytes) (s.position % s.base_size) bytes s'
  ok (grow w)

-- The `while` loop of `read`. The node that was read to its end is left only if all of it was read
-- in this round: the test is `m_cur->size == size`, without `npos`.
unfoldable pub read_loop : ℕ → ℕ → ℕ → ByteArray → Outcome (List ℕ × ByteArray)
unfolding next copy_out
read_loop zero npos n s = stuck
read_loop (suc fuel) npos n s = elim s.cur [
  | none ↦ crashed
  | some node ↦
      let ncap = s.base_size - npos in
      let chunk = copy_out s.cells (node * s.base_size + npos) ncap in
      let rest =
        read_loop fuel 0 (n - ncap)
          (record s { position = s.position + ncap; cur = next s node }) in
      if n == 0
      then ok ([], s)
      else if leb n ncap
      then ok (
        copy_out s.cells (node * s.base_size + npos) n,
        record s {
          position = s.position + n;
          cur = if s.base_size == n then next s node else some node;
        },
      )
      else rest >>= λ r. ok (chunk ++ r.0, r.1)
]

-- `read(void* buf, size_t size)`; the bytes go to `buf`. `m_cur->size` is read first.
unfoldable pub read : ℕ → ByteArray → Outcome (List ℕ × ByteArray)
unfolding get_read_size read_loop
read n s =
    if ltb (get_read_size s) n
    then threw out_of_range
    else read_loop (suc n) (s.position % s.base_size) n s
