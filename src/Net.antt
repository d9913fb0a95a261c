-- ===== src/Net.antt =====
-- The net folder.
pub mod Address
pub mod Socket
pub mod Stream
pub mod TcpServer
