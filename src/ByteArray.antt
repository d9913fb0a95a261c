-- ===== src/ByteArray.antt =====
-- utils/byte_array.h and utils/byte_array.cpp: a growing buffer, a chain of nodes of one size.
-- Node number `i` has the bytes at the addresses i * base_size to (i + 1) * base_size - 1 of
-- `cells`. A pointer to a node is its number, `none` is nullptr. What `cells` holds where nothing
-- was written is what `new char[]` handed out. Sizes do not reach 2 ^ 64, so sums are not wrapped.
pub mod Defs
pub mod Access
pub mod Memory
pub mod View
pub mod Room
pub mod Write
pub mod Refine
pub mod Read
pub mod Cursor
pub mod Buffers
pub mod Tape
pub mod Rewind
