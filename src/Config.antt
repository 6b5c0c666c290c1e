-- ===== src/Config.antt =====
-- The configuration, pkg/config.
pub mod Expand
pub mod Communities
