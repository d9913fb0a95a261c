-- ===== src/Rpc/Session.antt =====
-- `RpcSession` (rpc/rpc_session.h, rpc/rpc_session.cpp).
pub mod Defs
pub mod Laws
pub mod Carry
