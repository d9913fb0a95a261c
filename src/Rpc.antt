-- ===== src/Rpc.antt =====
-- The rpc folder: messages, the server and the service registry.
pub mod Text
pub mod Protocol
pub mod Registry
pub mod Session
pub mod Server
pub mod Provider
pub mod Client
pub mod Call
