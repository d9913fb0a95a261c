-- ===== src/Serializer.antt =====
-- rpc/serializer.h: values in a `ByteArray`, by type.
pub mod Defs
pub mod RoundTrip
pub mod Transfer
pub mod Sets
