-- ===== src/Rpc/Client.antt =====
-- `RpcClient` (rpc/rpc_client.h, rpc/rpc_client.cpp).
pub mod Defs
pub mod Laws
pub mod Waiting
