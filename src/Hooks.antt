-- ===== src/Hooks.antt =====
-- The installer of the hooks (crates/divan-hooks).
pub mod Settings
