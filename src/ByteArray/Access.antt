-- ===== src/ByteArray/Access.antt =====
-- `setPosition`, the `read` at a position, `toString`, the scatter/gather lists and the files of
-- utils/byte_array.cpp.
use xzmjx_rpc.Prelude.{
  ℕ, zero, suc, ◌+◌, ◌-◌, ◌*◌, ◌/◌, ◌%◌, ◌^◌, List, [], ◌∷◌, ◌++◌, Option, none, some, ltb, leb,
  ◌==◌, if◌then◌else◌, length, take, drop, Outcome, ok, threw, crashed, stuck, out_of_range, ◌>>=◌,
  Bool, true, false,
}
use xzmjx_rpc.ByteArray.Defs.{ByteArray, next, copy_out, get_read_size, add_capacity, write, grow}

-- The `while` loop of `setPosition` and the test behind it, from node number `node`: where
-- `m_cur` ends. `m_cur->size` is read after the move to the next node.
unfoldable pub seek_loop : ℕ → ℕ → ℕ → ByteArray → Outcome (Option ℕ)
unfolding next
seek_loop zero pos node s = stuck
seek_loop (suc fuel) pos node s =
    let step : Outcome (Option ℕ) = elim (next s node) [
      | none ↦ crashed
      | some after ↦ seek_loop fuel (pos - s.base_size) after s
    ] in
    if ltb s.base_size pos
    then step
    else if pos == s.base_size
    then ok (next s node)
    else ok (some node)

unfoldable pub set_position : ℕ → ByteArray → Outcome ByteArray
unfolding seek_loop grow
set_position pos s =
    if ltb s.capacity pos
    then threw out_of_range
    else seek_loop (suc pos) pos 0 s >>= λ c.
        ok (record (grow (record s { position = pos })) { cur = c })

-- `while (node_count > 0) { cur = cur->next; --node_count; }`
unfoldable pub walk : ℕ → Option ℕ → ByteArray → Outcome (Option ℕ)
unfolding next
walk zero cur s = ok cur
walk (suc count) none s = crashed
walk (suc count) (some node) s = walk count (next s node) s

-- The `while` loop of the `read` at a position, on a pointer of its own.
unfoldable pub read_at_loop : ℕ → Option ℕ → ℕ → ℕ → ByteArray → Outcome (List ℕ)
unfolding next copy_out
read_at_loop zero cur npos n s = stuck
read_at_loop (suc fuel) none npos n s = crashed
read_at_loop (suc fuel) (some node) npos n s =
    let ncap = s.base_size - npos in
    let chunk = copy_out s.cells (node * s.base_size + npos) ncap in
    let rest = read_at_loop fuel (next s node) 0 (n - ncap) s in
    if n == 0
    then ok []
    else if leb n ncap
    then ok (copy_out s.cells (node * s.base_size + npos) n)
    else rest >>= λ bytes. ok (chunk ++ bytes)

-- `read(void* buf, size_t size, size_t position) const`; `m_size - position` is of `size_t`.
unfoldable pub read_at : ℕ → ℕ → ByteArray → Outcome (List ℕ)
unfolding walk read_at_loop
read_at n position s =
    if ltb ((s.size + 2 ^ 64 - position) % 2 ^ 64) n then threw out_of_range else do
      cur ← walk (position / s.base_size) (some 0) s
      read_at_loop (suc n) cur (position % s.base_size) n s

unfoldable pub to_string : ByteArray → Outcome (List ℕ)
unfolding get_read_size read_at
to_string s = read_at (get_read_size s) s.position s

-- `struct iovec`, whose base is an address of `cells`.
pub record Iovec : Type 0 where
  pub iov_base : ℕ
  pub iov_len : ℕ

-- The `while` loop that the three functions for scatter/gather lists share, entered with
-- `len > 0`. `len` does not change until the last round.
unfoldable pub buffers_loop : ℕ → Option ℕ → ℕ → ℕ → ByteArray → Outcome (List Iovec)
unfolding next
buffers_loop zero cur npos len s = stuck
buffers_loop (suc fuel) none npos len s = crashed
buffers_loop (suc fuel) (some node) npos len s =
    let ncap = s.base_size - npos in
    let rest = buffers_loop fuel (next s node) 0 len s in
    if leb len ncap
    then ok (record { iov_base = node * s.base_size + npos; iov_len = len } ∷ [])
    else rest >>= λ iov. ok (record { iov_base = node * s.base_size + npos; iov_len = ncap } ∷ iov)

-- `getReadBuffers(buffers, len)`: the length returned and the new value of `buffers`.
unfoldable pub get_read_buffers : List Iovec → ℕ → ByteArray → Outcome (ℕ × List Iovec)
unfolding get_read_size buffers_loop
get_read_buffers buffers len s =
    let size = if ltb (get_read_size s) len then get_read_size s else len in
    if size == 0
    then ok (0, buffers)
    else do iov ← buffers_loop (suc s.nodes) s.cur (s.position % s.base_size) size s; ok (size, iov)

-- `getReadBuffers(buffers, len, position)`
unfoldable pub get_read_buffers_at : List Iovec → ℕ → ℕ → ByteArray → Outcome (ℕ × List Iovec)
unfolding walk buffers_loop
get_read_buffers_at buffers len position s =
    let left = (s.size + 2 ^ 64 - position) % 2 ^ 64 in
    let size = if ltb left len then left else len in
    if size == 0 then ok (0, buffers) else do
      cur ← walk (position / s.base_size) (some 0) s
      iov ← buffers_loop (suc s.nodes) cur (position % s.base_size) size s
      ok (size, iov)

-- `getWriteBuffers(buffers, len)`, which makes room first.
unfoldable pub get_write_buffers : List Iovec → ℕ → ByteArray → Outcome (ℕ × List Iovec × ByteArray)
unfolding add_capacity buffers_loop
get_write_buffers buffers len s = if len == 0 then ok (0, buffers, s) else do
  let s' = add_capacity len s
  iov ← buffers_loop (suc s'.nodes) s'.cur (s'.position % s'.base_size) len s'
  ok (len, iov, s')

-- The `while` loop of `writeToFile`: the bytes that it hands to the file.
unfoldable pub dump_loop : ℕ → Option ℕ → ℕ → ℕ → ByteArray → Outcome (List ℕ)
unfolding next copy_out
dump_loop zero cur pos left s = stuck
dump_loop (suc fuel) cur pos left s =
    let diff = pos % s.base_size in
    let len = if leb left (s.base_size - diff) then left else s.base_size - diff in
    let more : Outcome (List ℕ) = elim cur [
      | none ↦ crashed
      | some node ↦ dump_loop fuel (next s node) (pos + len) (left - len) s >>= λ bytes.
          ok (copy_out s.cells (node * s.base_size + diff) len ++ bytes)
    ] in
    if left == 0 then ok [] else more

-- `writeToFile`; whether the file opens is the caller's to say.
unfoldable pub write_to_file : Bool → ByteArray → Outcome (Bool × List ℕ)
unfolding get_read_size dump_loop
write_to_file opened s =
    if opened
    then (dump_loop (suc (get_read_size s)) s.cur s.position (get_read_size s) s >>= λ b.
        ok (true, b))
    else ok (false, [])

-- The loop of `readFromFile` on what the file still holds. A read that comes short sets `eof`.
unfoldable pub load_loop : ℕ → List ℕ → ByteArray → Outcome ByteArray
unfolding write
load_loop zero file s = stuck
load_loop (suc fuel) file s = write (take s.base_size file) s >>= λ s'.
    let more = load_loop fuel (drop s.base_size file) s' in
    if ltb (length file) s.base_size then ok s' else more

-- `readFromFile`, where `none` is a file that does not open.
unfoldable pub read_from_file : Option (List ℕ) → ByteArray → Outcome (Bool × ByteArray)
unfolding load_loop
read_from_file none s = ok (false, s)
read_from_file (some file) s = load_loop (suc (length file)) file s >>= λ s'. ok (true, s')
