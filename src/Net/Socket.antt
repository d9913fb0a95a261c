-- ===== src/Net/Socket.antt =====
-- net/socket.h and net/socket.cpp.
pub mod Defs
pub mod Laws
pub mod Safety
