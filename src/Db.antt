-- ===== src/Db.antt =====
-- The database layer (crates/divan-db): one module per repository, over the tables of
-- migrations/0001_initial.sql.
pub mod Store
pub mod Tasks
pub mod Agents
pub mod Messages
pub mod Subscriptions
pub mod Conflicts
pub mod Traces
pub mod Artifacts
