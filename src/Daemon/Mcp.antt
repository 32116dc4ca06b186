-- ===== src/Daemon/Mcp.antt =====
-- The task tools of the daemon (crates/divan-daemon/src/rpc.rs): `delegate_task`, `claim_task` and
-- `complete_task`. A parameter is what `as_str` reads of the JSON value; `now k` is the k-th reading
-- of the clock, and an error is the value whose text the answer shows.
pub mod Claim
pub mod Race
pub mod Complete
use Prim.Native.String.{◌++◌ as concat}
use ajan_orkestrasyonu.Prelude.{
  ℕ, suc, Bool, true, ◌&&◌, Option, none, some, String, List, [], ◌∷◌, find, map_or, same, Result,
  Exec, ok, err, pure, raise, ◌>>=◌, ◌>>◌,
}
use ajan_orkestrasyonu.Prelude.Decimal.{show}
use ajan_orkestrasyonu.Core.Ids.{AgentId, TaskId}
use ajan_orkestrasyonu.Core.TaskKind
use ajan_orkestrasyonu.Core.TaskKind.{TaskKind}
use ajan_orkestrasyonu.Core.TaskState
use ajan_orkestrasyonu.Core.TaskState.{TaskState}
use ajan_orkestrasyonu.Core.Task.{Task, TransitionReason, other, completed}
use ajan_orkestrasyonu.Db.Store.{Db, DbError, DbExec}
use ajan_orkestrasyonu.Db.Tasks.{create_task, get_task, transition, assign, list_tasks}
use ajan_orkestrasyonu.Daemon.Policy.{Action, PolicyDenied, check}

pub data McpError : Type 0 where
  policy_error : PolicyDenied → McpError
  invalid_kind : McpError
  agent_required : McpError
  unknown_task : TaskId → McpError
  not_completable : TaskState → McpError
  store_error : DbError → McpError

abbrev pub McpExec : Type 0 → Type 0
McpExec A = Exec Db McpError A

abbrev relabel : {E A : Type 0} → (E → McpError) → Result E A × Db → Result McpError A × Db
relabel f (ok a, db) = (ok a, db)
relabel f (err e, db) = (err (f e), db)

-- `if let Err(e) = ... { return RpcResponse::err(e.to_string()); }`
abbrev pub labelled : {E A : Type 0} → (E → McpError) → Exec Db E A → McpExec A
labelled f m db = relabel f (m db)

abbrev pub on_store : {A : Type 0} → DbExec A → McpExec A
on_store m = labelled store_error m

abbrev pub require_some : {A : Type 0} → McpError → Option A → McpExec A
require_some e none = raise e
require_some e (some a) = pure a

-- `and_then(|v| v.as_str()).and_then(parse_kind)`
abbrev pub parse_kind : Option String → Option TaskKind
parse_kind none = none
parse_kind (some s) = TaskKind.of_str s

pub record DelegateParams : Type 0 where
  pub agent_id : Option AgentId
  pub kind : Option String
  pub title : Option String
  pub parent_id : Option TaskId
  pub spec_artifact : Option String
  pub trace_id : Option String

abbrev pub delegated : DelegateParams → TaskKind → ℕ → Task
delegated p kind now = record {
  id = concat "deleg-" (show now);
  parent_id = p.parent_id;
  kind = kind;
  title = map_or "delegated task" (λ t. t) p.title;
  spec_ref = p.spec_artifact;
  state = TaskState.«open»;
  assignee = none;
  worktree = none;
  max_runtime_secs = none;
  trace_id = map_or (concat "trace-" (show now)) (λ t. t) p.trace_id;
  created_at = now;
  updated_at = now;
}

unfoldable pub delegate_task : DelegateParams → (ℕ → ℕ) → McpExec TaskId
delegate_task p now = do
  labelled policy_error (check p.agent_id Action.delegate (now 0))
  kind ← require_some invalid_kind (parse_kind p.kind)
  on_store (create_task (delegated p kind (now 1)))
  pure (delegated p kind (now 1)).id

-- `t.state == Open && kind_filter.map(|k| t.kind == k).unwrap_or(true)`
abbrev pub is_claimable : Option TaskKind → Task → Bool
is_claimable kind t =
    same TaskState.discrete t.state TaskState.«open»
    && map_or true (λ k. same TaskKind.discrete t.kind k) kind

-- The two writes of a claim.
abbrev pub take_task : TaskId → AgentId → (ℕ → ℕ) → McpExec (Option TaskId)
take_task id agent now = do
  on_store (assign id agent none (now 1))
  on_store (transition id TaskState.claimed (other "claimed via MCP") (now 2))
  pure (some id)

abbrev pub take_first : Option Task → AgentId → (ℕ → ℕ) → McpExec (Option TaskId)
take_first none agent now = pure none
take_first (some t) agent now = take_task t.id agent now

unfoldable pub claim_task : Option AgentId → Option String → (ℕ → ℕ) → McpExec (Option TaskId)
claim_task agent_id kind now = do
  agent ← require_some agent_required agent_id
  labelled policy_error (check (some agent) Action.claim (now 0))
  tasks ← on_store list_tasks
  take_first (find (is_claimable (parse_kind kind)) tasks) agent now

-- The states to walk through, or none for a task that is not completable.
abbrev pub path_to_done : TaskState → Option (List TaskState)
path_to_done TaskState.claimed = some (TaskState.working ∷ TaskState.done ∷ [])
path_to_done TaskState.working = some (TaskState.done ∷ [])
path_to_done TaskState.review = some (TaskState.done ∷ [])
path_to_done TaskState.«open» = some (TaskState.claimed ∷ TaskState.working ∷ TaskState.done ∷ [])
path_to_done _ = none

-- The loop over the path; `k` counts the readings of the clock.
unfoldable pub walk : TaskId → List TaskState → (ℕ → ℕ) → ℕ → DbExec (Unit {0})
walk id [] now k = pure tt
walk id (s ∷ path) now k = transition id s completed (now k) >> walk id path now (suc k)

abbrev pub finish : TaskId → Task → (ℕ → ℕ) → McpExec (Unit {0})
finish id t now = do
  path ← require_some (not_completable t.state) (path_to_done t.state)
  on_store (walk id path now 1)

-- A missing `task_id` is the empty text. The answer repeats `result_artifact`.
unfoldable pub complete_task : TaskId → Option String → (ℕ → ℕ) → McpExec (TaskId × Option String)
complete_task id result_artifact now = do
  labelled policy_error (check none Action.complete (now 0))
  found ← on_store (get_task id)
  task ← require_some (unknown_task id) found
  finish id task now
  pure (id, result_artifact)
