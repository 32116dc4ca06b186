-- ===== src/Core/Task.antt =====
-- Tasks (crates/divan-core/src/task.rs). Times are milliseconds since the epoch.
use ajan_orkestrasyonu.Prelude.{ℕ, Option, String}
use ajan_orkestrasyonu.Core.Ids.{TaskId, AgentId, TraceId}
use ajan_orkestrasyonu.Core.TaskKind.{TaskKind}
use ajan_orkestrasyonu.Core.TaskState.{TaskState}

pub data TransitionReason : Type 0 where
  orphaned timeout fatal completed cancelled : TransitionReason
  other : String → TransitionReason

pub record Task : Type 0 where
  pub id : TaskId
  pub parent_id : Option TaskId
  pub kind : TaskKind
  pub title : String
  pub spec_ref : Option String
  pub state : TaskState
  pub assignee : Option AgentId
  pub worktree : Option String
  pub max_runtime_secs : Option ℕ  -- u32
  pub trace_id : TraceId
  pub created_at : ℕ
  pub updated_at : ℕ
