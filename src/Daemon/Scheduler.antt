-- ===== src/Daemon/Scheduler.antt =====
-- The scheduler (crates/divan-daemon/src/scheduler.rs): its state, its errors, and the calls of the
-- other components that its operations are made of. The children hold the operations.
pub mod Session
pub mod Reviewer
pub mod Slug
pub mod Flow
pub mod Runs
pub mod Within
pub mod Ids
pub mod Plain
pub mod Triples
pub mod Work
pub mod Report
pub mod Stages
pub mod Retries
pub mod Audited
pub mod Outcome
use Prim.Native.String.{◌++◌ as concat}
use ajan_orkestrasyonu.Prelude.{
  ℕ, Option, none, some, String, ◌==◌, List, [], ◌∷◌, Result, ok, err, Exec, pure, raise, ◌>>=◌,
  ◌>>◌, if◌then◌else◌,
}
use ajan_orkestrasyonu.Prelude.Files.{Os}
use ajan_orkestrasyonu.Core.Ids.{AgentId, TaskId, TraceId}
use ajan_orkestrasyonu.Core.AgentStatus.{AgentStatus}
use ajan_orkestrasyonu.Core.AgentTool
use ajan_orkestrasyonu.Core.TaskState.{TaskState}
use ajan_orkestrasyonu.Core.Task.{Task, TransitionReason, timeout, fatal}
use ajan_orkestrasyonu.Core.Event
use ajan_orkestrasyonu.Core.TraceEventKind.{TraceEventKind, agent_registered}
use ajan_orkestrasyonu.Core.Trace.{Detail, TraceEvent, new, with_agent, with_data, registered}
use ajan_orkestrasyonu.Db.Store.{Db, DbError, DbExec, insert_trace, not_found}
use ajan_orkestrasyonu.Db.Tasks
use ajan_orkestrasyonu.Db.Tasks.{get_task}
use ajan_orkestrasyonu.Db.Agents.{upsert_agent, set_agent_status}
use ajan_orkestrasyonu.Db.Artifacts.{Stored, StoreExec}
use ajan_orkestrasyonu.Adapters.{AgentAdapter}
use ajan_orkestrasyonu.Daemon.Config.{RuntimeDefaults}
use ajan_orkestrasyonu.Daemon.Router.{Rule}
use ajan_orkestrasyonu.Daemon.Worktrees
use ajan_orkestrasyonu.Daemon.Worktrees.{Worktree, WorktreeError, TreeExec, error_text}

pub data SessionFail : Type 0 where
  retryable_fail fatal_fail : String → SessionFail
  timed_out : SessionFail

pub data FlowError : Type 0 where
  unknown_agent : AgentId → FlowError
  worktree_failed : String → FlowError
  db_failed : DbError → FlowError
  implement_failed review_failed : String → FlowError

pub record FinalReport : Type 0 where
  pub trace_id : String
  pub title : String
  pub spec_ref : String
  pub diff_ref : String
  pub review_ref : String
  pub writer : String
  pub reviewer : String
  pub implement_state : String
  pub review_state : String
  pub final_report_ref : Option String

pub record RunRecord : Type 0 where
  pub repo : String
  pub worktree : Worktree

-- What lies outside: the operating system, BLAKE3, and the JSON texts that serde writes.
pub record Env (W : Type 0) : Type 0 where
  pub os : Os W
  pub digest : String → String
  pub path_json : String → String
  pub report_json : FinalReport → String

-- The stores and the manager share one database and one world. `bus` is the sequence number of the
-- attached bus; the adapters and the runs are maps, the newest entry of a key first.
pub record Scheduler (W : Type 0) : Type 0 where
  pub db : Db
  pub os : W
  pub artifact_root : String
  pub worktree_root : String
  pub adapters : List (AgentId × AgentAdapter W)
  pub runtime : RuntimeDefaults
  pub runs : List (String × RunRecord)
  pub bus : Option ℕ
  pub router : Option (List Rule)
  pub max_retries : ℕ

abbrev pub SchedExec : Type 0 → Type 0 → Type 0 → Type 0
SchedExec W E A = Exec (Scheduler W) E A

abbrev pub FlowExec : Type 0 → Type 0 → Type 0
FlowExec W A = Exec (Scheduler W) FlowError A

-- `HashMap::get`
abbrev pub lookup : {A : Type 0} → String → List (String × A) → Option A
lookup key [] = none
lookup key ((k, a) ∷ rest) = let later = lookup key rest in if k == key then some a else later

unfoldable pub classify : Event.AgentErrorClass → String → SessionFail
classify Event.retryable message = retryable_fail message
classify Event.fatal message = fatal_fail message

module _ {W : Type 0} where
  abbrev pub of_db :
      {A : Type 0} → Scheduler W → Result DbError A × Db → Result FlowError A × Scheduler W
  of_db s (ok a, db) = (ok a, record s { db = db })
  of_db s (err e, db) = (err (db_failed e), record s { db = db })

  -- A call of the database, its error in `FlowError::Db`.
  abbrev pub on_db : {A : Type 0} → DbExec A → FlowExec W A
  on_db m s = of_db s (m s.db)

  abbrev pub of_store :
      {A : Type 0} → Scheduler W → Result DbError A × Stored W → Result FlowError A × Scheduler W
  of_store s (ok a, t) = (ok a, record s { db = t.db; os = t.os })
  of_store s (err e, t) = (err (db_failed e), record s { db = t.db; os = t.os })

  abbrev pub on_store : {A : Type 0} → StoreExec W A → FlowExec W A
  on_store m s = of_store s (m (record { db = s.db; os = s.os }))

  abbrev pub of_tree :
      {A : Type 0} → Scheduler W → Result WorktreeError A × W → Result FlowError A × Scheduler W
  of_tree s (ok a, w) = (ok a, record s { os = w })
  of_tree s (err e, w) = (err (worktree_failed (error_text e)), record s { os = w })

  -- A call of the worktree manager, its error as text.
  abbrev pub on_tree : {A : Type 0} → TreeExec W A → FlowExec W A
  on_tree m s = of_tree s (m s.os)

  abbrev pub require_adapter : AgentId → Option (AgentAdapter W) → FlowExec W (AgentAdapter W)
  require_adapter id none = raise (unknown_agent id)
  require_adapter id (some a) = pure a

  unfoldable pub adapter : AgentId → FlowExec W (AgentAdapter W)
  adapter id s = require_adapter id (lookup id s.adapters) s

  abbrev pub found_task : TaskId → Option Task → FlowExec W Task
  found_task id none = raise (db_failed (not_found id))
  found_task id (some t) = pure t

  unfoldable pub must_get : TaskId → FlowExec W Task
  must_get id = do t ← on_db (get_task id); found_task id t

  -- `let _ = ...set_agent_status(...)`
  unfoldable pub set_idle : {E : Type 0} → AgentId → SchedExec W E (Unit {0})
  set_idle agent s =
      (ok tt, record s { db = (set_agent_status agent AgentStatus.idle none s.db).1 })

  module _ (env : Env W) where
    unfoldable pub now_ms : {E : Type 0} → SchedExec W E ℕ
    now_ms s = let (n, w) = env.os.now_ms s.os in (ok n, record s { os = w })

    unfoldable pub append : {E : Type 0} → TraceEvent → SchedExec W E (Unit {0})
    append e s = (ok tt, record s { db = insert_trace e s.db })

    abbrev pub event : TraceId → Option AgentId → TraceEventKind → Detail → ℕ → TraceEvent
    event trace_id none kind data_ ts = with_data (new trace_id kind ts) data_
    event trace_id (some a) kind data_ ts = with_agent (with_data (new trace_id kind ts) data_) a

    -- The failure of an append is dropped; it has none.
    unfoldable pub trace :
        {E : Type 0} → Task → Option AgentId → TraceEventKind → Detail → SchedExec W E (Unit {0})
    trace task agent kind data_ = do ts ← now_ms; append (event task.trace_id agent kind data_ ts)

    unfoldable pub transition : TaskId → TaskState → TransitionReason → FlowExec W (Unit {0})
    transition id to reason = do ts ← now_ms; on_db (Tasks.transition id to reason ts)

    -- `.ok()`
    unfoldable pub try_transition :
        {E : Type 0} → TaskId → TaskState → TransitionReason → SchedExec W E (Unit {0})
    try_transition id to reason s = (ok tt, (transition id to reason s).1)

    abbrev pub fail_reason : SessionFail → TransitionReason × String
    fail_reason timed_out = (timeout, "timeout")
    fail_reason (fatal_fail m) = (fatal, m)
    fail_reason (retryable_fail m) = (fatal, concat "retries exhausted: " m)

    unfoldable pub fail_task : {E : Type 0} → TaskId → SessionFail → SchedExec W E String
    fail_task id fail = do
      try_transition id TaskState.failed (fail_reason fail).0
      pure (fail_reason fail).1

    unfoldable pub register_adapter : AgentAdapter W → FlowExec W (Unit {0})
    register_adapter a = do
      on_db (upsert_agent a.card)
      ts ← now_ms
      append (
          with_data (with_agent (new "registry" agent_registered ts) a.card.id)
            (registered (AgentTool.as_str a.card.tool)))
      (λ s. (ok tt, record s { adapters = (a.card.id, a) ∷ s.adapters }))

    unfoldable pub create_worktree : String → TaskId → String → FlowExec W Worktree
    create_worktree repo id slug s =
        on_tree (Worktrees.create env.os s.worktree_root repo id slug) s

    unfoldable pub commit_worktree : Worktree → String → FlowExec W (Unit {0})
    commit_worktree wt message = on_tree (Worktrees.commit_all env.os wt message)

    unfoldable pub worktree_diff : String → Worktree → FlowExec W String
    worktree_diff repo wt = on_tree (Worktrees.diff env.os repo wt)
