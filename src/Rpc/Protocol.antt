-- ===== src/Rpc/Protocol.antt =====
-- rpc/protocol.h, rpc/protocol.cpp and rpc/context.h: the messages.
pub mod ErrCode
pub mod MessageType
pub mod Defs
pub mod Header
pub mod Encode
