-- ===== src/Rpc/Provider.antt =====
-- What `RpcServer` does at a service registry.
pub mod Defs
pub mod Laws
