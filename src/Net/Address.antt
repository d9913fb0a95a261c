-- ===== src/Net/Address.antt =====
-- net/address.h and net/address.cpp.
pub mod Defs
pub mod Swap
pub mod Subnet
pub mod Number
pub mod Subnet6
pub mod Any
pub mod Order
pub mod Print
pub mod Lookup
pub mod UnixPath
