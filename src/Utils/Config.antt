-- ===== src/Utils/Config.antt =====
-- The configuration (utils/config.h, utils/config.cpp).
pub mod Defs
pub mod Laws
pub mod Cast
