-- ===== src/Daemon.antt =====
-- The daemon (crates/divan-daemon): policy, routing, the message bus, startup, and the handlers.
pub mod Paths
pub mod Policy
pub mod Bus
pub mod Mcp
pub mod Lifecycle
pub mod Router
pub mod Config
pub mod Worktrees
pub mod Scheduler
pub mod Handlers
