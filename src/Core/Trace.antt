-- ===== src/Core/Trace.antt =====
-- Trace events (crates/divan-core/src/trace.rs). `Detail` stands for the `json!` objects that the
-- code writes as `data`: one constructor for each shape, its fields in order.
use ajan_orkestrasyonu.Prelude.{ℕ, Option, none, some, String, Bool, List}
use ajan_orkestrasyonu.Core.Ids.{AgentId, SpanId, TaskId, TraceId, MessageId, ArtifactRef}
use ajan_orkestrasyonu.Core.TaskKind.{TaskKind}
use ajan_orkestrasyonu.Core.TaskState.{TaskState}
use ajan_orkestrasyonu.Core.Task.{TransitionReason}
use ajan_orkestrasyonu.Core.Capability.{Capability}
use ajan_orkestrasyonu.Core.MessageKind.{MessageKind}
use ajan_orkestrasyonu.Core.TraceEventKind.{TraceEventKind}

pub data Detail : Type 0 where
  created : TaskId → TaskKind → Detail
  transitioned : TaskId → TaskState → TaskState → TransitionReason → Detail
  denied : (agent action reason : String) → Detail
  lacks_capability : Capability → Detail
  sent : MessageId → (mode : String) → MessageKind → (fanout_copies : ℕ) → Detail
  delivered : MessageId → Detail
  retried : (attempt : ℕ) → (message : String) → Detail
  session : (event : String) → Detail
  tool : (name : String) → Detail
  edited : (path : String) → (kind : String) → Detail
  spawned : (pid : Option ℕ) → (read_only : Bool) → Detail
  routed : (writer : AgentId) → (matched_rules : List ℕ) → (reasons : List String) → Detail
  registered : (tool : String) → Detail
  worktree : TaskId → (branch : String) → (path : String) → Detail
  on_branch : (branch : String) → Detail
  published : (kind : String) → ArtifactRef → Detail

pub record TraceEvent : Type 0 where
  pub trace_id : TraceId
  pub span_id : Option SpanId
  pub parent_span : Option SpanId
  pub agent_id : Option AgentId
  pub event : TraceEventKind
  pub detail : Option Detail
  pub ts : ℕ

-- `TraceEvent::new`
abbrev pub new : TraceId → TraceEventKind → ℕ → TraceEvent
new trace_id event ts = record {
  trace_id = trace_id;
  span_id = none;
  parent_span = none;
  agent_id = none;
  event = event;
  detail = none;
  ts = ts;
}

abbrev pub with_agent : TraceEvent → AgentId → TraceEvent
with_agent e a = record e { agent_id = some a }

abbrev pub with_span : TraceEvent → SpanId → TraceEvent
with_span e s = record e { span_id = some s }

abbrev pub with_data : TraceEvent → Detail → TraceEvent
with_data e d = record e { detail = some d }
