-- ===== src/Utils/Env.antt =====
-- The program's arguments and paths (utils/env.h, utils/env.cpp).
pub mod Defs
pub mod Laws
