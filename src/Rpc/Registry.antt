-- ===== src/Rpc/Registry.antt =====
-- rpc/rpc_service_registry.h and rpc/rpc_service_registry.cpp: which servers provide a service.
pub mod Defs
pub mod Laws
