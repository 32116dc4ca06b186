-- ===== src/Adapters.antt =====
-- The interface of the agent adapters (crates/divan-adapters/src/lib.rs), as far as the scheduler
-- calls it. An adapter runs a command-line tool: it is a record of functions on the world `W`.
use ajan_orkestrasyonu.Prelude.{ℕ, Bool, Option, String, List, Result}
use ajan_orkestrasyonu.Core.Agent.{AgentCard}
use ajan_orkestrasyonu.Core.AgentTool.{AgentTool}
use ajan_orkestrasyonu.Core.Event.{AgentErrorClass, NormalizedEvent}

-- The environment variables are left out: the scheduler passes none.
pub record SpawnCtx : Type 0 where
  pub worktree : Option String
  pub trace_id : String
  pub span_id : String
  pub artifact_refs : List String
  pub read_only : Bool
  pub prompt : String
  pub max_turns : Option ℕ

pub record SessionHandle : Type 0 where
  pub tool : AgentTool
  pub pid : Option ℕ
  pub session_id : Option String
  pub task_id : String
  pub started_at : ℕ

pub record AdapterError : Type 0 where
  pub class : AgentErrorClass
  pub message : String

-- What the channel of an observed session delivers: each event with the milliseconds after which
-- it comes, and the time at which the channel closes, if it does.
pub record EventStream : Type 0 where
  pub events : List (ℕ × NormalizedEvent)
  pub closes_at : Option ℕ

pub record AgentAdapter (W : Type 0) : Type 0 where
  pub card : AgentCard
  pub spawn : SpawnCtx → W → Result AdapterError SessionHandle × W
  pub observe : SessionHandle → W → Result AdapterError EventStream × W
  pub kill : SessionHandle → W → W
