-- ===== src/Codec.antt =====
-- The integers and strings of utils/byte_array.cpp, with utils/endian_cast.h.
pub mod Endian
pub mod Varint
pub mod Zigzag
pub mod Scalar
