-- ===== src/Utils.antt =====
-- The utils folder apart from the byte array: the configuration and the environment.
pub mod Dict
pub mod Config
pub mod Env
