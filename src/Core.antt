-- ===== src/Core.antt =====
-- Domain types and rules (crates/divan-core).
pub mod Ids
pub mod TaskKind
pub mod TaskState
pub mod Task
pub mod AgentTool
pub mod AgentStatus
pub mod Capability
pub mod Agent
pub mod MessageKind
pub mod Message
pub mod Subscription
pub mod TraceEventKind
pub mod Trace
pub mod Error
pub mod Event
