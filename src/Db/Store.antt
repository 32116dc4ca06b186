-- ===== src/Db/Store.antt =====
-- The database handle (crates/divan-db/src/store.rs) and the tables of the migration. A table is
-- the list of its rows in insertion order; `messages` and the others hold decoded rows, `tasks`
-- holds the texts of its enumeration columns, since `transition` reads and checks that text.
use ajan_orkestrasyonu.Prelude.{ℕ, Option, String, List, [], ◌∷◌, ◌++◌, Exec}
use ajan_orkestrasyonu.Core.Ids.{AgentId, TaskId, TraceId, ArtifactRef}
use ajan_orkestrasyonu.Core.Agent.{AgentCard}
use ajan_orkestrasyonu.Core.Message.{Message}
use ajan_orkestrasyonu.Core.Subscription.{Subscription}
use ajan_orkestrasyonu.Core.Trace.{TraceEvent}
use ajan_orkestrasyonu.Core.Error.{DivanError}

-- What SQLite refuses: the constraints of the migration, and a query for one row that finds none.
pub data Violation : Type 0 where
  primary_key foreign_key check no_rows : Violation

pub data DbError : Type 0 where
  io : String → DbError
  sqlite : Violation → DbError
  domain : DivanError → DbError
  not_found : String → DbError
  integrity : String → DbError

-- TABLE tasks
pub record TaskRow : Type 0 where
  pub id : TaskId
  pub parent_id : Option TaskId
  pub kind : String
  pub title : String
  pub spec_ref : Option String
  pub state : String
  pub assignee : Option AgentId
  pub worktree : Option String
  pub max_runtime_secs : Option ℕ
  pub trace_id : TraceId
  pub created_at : ℕ
  pub updated_at : ℕ

-- TABLE task_deps
pub record TaskDep : Type 0 where
  pub task_id : TaskId
  pub blocked_by : TaskId

-- TABLE file_touches
pub record FileTouch : Type 0 where
  pub path : String
  pub agent_id : AgentId
  pub task_id : Option TaskId
  pub ts : ℕ

-- TABLE artifacts
pub record ArtifactMeta : Type 0 where
  pub artifact_ref : ArtifactRef
  pub path : String
  pub mime : Option String
  pub bytes : ℕ
  pub summary : Option String
  pub created_by : Option AgentId
  pub created_at : ℕ

pub record Db : Type 0 where
  pub agents : List AgentCard
  pub tasks : List TaskRow
  pub task_deps : List TaskDep
  pub messages : List Message
  pub subscriptions : List Subscription
  pub trace_events : List TraceEvent
  pub file_touches : List FileTouch
  pub artifacts : List ArtifactMeta

-- A freshly migrated database.
abbrev pub fresh : Db
fresh = record {
  agents = [];
  tasks = [];
  task_deps = [];
  messages = [];
  subscriptions = [];
  trace_events = [];
  file_touches = [];
  artifacts = [];
}

abbrev pub DbExec : Type 0 → Type 0
DbExec A = Exec Db DbError A

-- `INSERT INTO trace_events`; the row id is the position in the list.
abbrev pub insert_trace : TraceEvent → Db → Db
insert_trace e db = record db { trace_events = db.trace_events ++ (e ∷ []) }
