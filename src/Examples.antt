-- ===== src/Examples.antt =====
-- Concrete inputs: a small database, and the theorems of the library at it.
mod Data
mod World
mod Flow
mod Artifacts
mod Settings
mod Metrics
mod Tasks
mod Messages
mod Handlers
mod Guards
mod Routes
