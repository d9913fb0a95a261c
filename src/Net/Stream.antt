-- ===== src/Net/Stream.antt =====
-- Streams over a socket (net/stream.cpp, net/socketstream.cpp).
pub mod Defs
pub mod Small
pub mod Laws
