-- ===== src/Db/Tasks.antt =====
-- The task repository and the transactional state machine (crates/divan-db/src/tasks.rs). A
-- `now_ms()` inside an operation is its argument `ts`.
pub mod Rows
pub mod Transition
pub mod Create
pub mod Audit
pub mod Safety
pub mod Calls
pub mod Current
pub mod Evolves
use Prim.Native.String.{◌++◌ as concat}
use ajan_orkestrasyonu.Prelude.{
  ℕ, Bool, true, false, not, ◌&&◌, ◌||◌, Option, none, some, String, ◌==◌, [], ◌∷◌, ◌++◌, any, find,
  count_if, update_if, map_or, eqb, ltb, List, map, filter, if◌then◌else◌, ok, pure, raise, gets,
  modify, transaction, ◌>>=◌, ◌>>◌,
}
use ajan_orkestrasyonu.Prelude.Order.{text_leb}
use ajan_orkestrasyonu.Prelude.Sort.{sort}
use ajan_orkestrasyonu.Core.Ids.{AgentId, TaskId}
use ajan_orkestrasyonu.Core.TaskKind
use ajan_orkestrasyonu.Core.TaskState
use ajan_orkestrasyonu.Core.TaskState.{TaskState, can_transition_to}
use ajan_orkestrasyonu.Core.Task.{Task, TransitionReason}
use ajan_orkestrasyonu.Core.TraceEventKind.{task_created, task_transition}
use ajan_orkestrasyonu.Core.Trace.{new, with_data, created, transitioned}
use ajan_orkestrasyonu.Core.Error.{illegal_transition}
use ajan_orkestrasyonu.Db.Store.{
  Db, DbExec, TaskRow, TaskDep, sqlite, domain, not_found, integrity, primary_key, foreign_key,
  no_rows, insert_trace,
}

-- The parameters that `create_task` binds.
abbrev pub task_to_row : Task → TaskRow
task_to_row t = record {
  id = t.id;
  parent_id = t.parent_id;
  kind = TaskKind.as_str t.kind;
  title = t.title;
  spec_ref = t.spec_ref;
  state = TaskState.as_str t.state;
  assignee = t.assignee;
  worktree = t.worktree;
  max_runtime_secs = t.max_runtime_secs;
  trace_id = t.trace_id;
  created_at = t.created_at;
  updated_at = t.updated_at;
}

-- A word that serde does not know falls back to `Implement` and `Open`.
abbrev pub row_to_task : TaskRow → Task
row_to_task r = record {
  id = r.id;
  parent_id = r.parent_id;
  kind = map_or TaskKind.implement (λ k. k) (TaskKind.of_str r.kind);
  title = r.title;
  spec_ref = r.spec_ref;
  state = map_or TaskState.«open» (λ s. s) (TaskState.of_str r.state);
  assignee = r.assignee;
  worktree = r.worktree;
  max_runtime_secs = r.max_runtime_secs;
  trace_id = r.trace_id;
  created_at = r.created_at;
  updated_at = r.updated_at;
}

abbrev pub has_id : TaskId → TaskRow → Bool
has_id id r = r.id == id

-- `parent_id REFERENCES tasks(id)`: the row itself counts, the check comes after the insertion.
abbrev pub parent_ok : TaskRow → Db → Bool
parent_ok r db = map_or true (λ p. r.id == p || any (has_id p) db.tasks) r.parent_id

-- `assignee REFERENCES agents(id)`
abbrev pub agent_known : AgentId → Db → Bool
agent_known a db = any (λ c. c.id == a) db.agents

abbrev insert_task : TaskRow → DbExec (Unit {0})
insert_task r db =
    if any (has_id r.id) db.tasks
    then raise (sqlite primary_key) db
    else if parent_ok r db && map_or true (λ a. agent_known a db) r.assignee
    then (ok tt, record db { tasks = db.tasks ++ (r ∷ []) })
    else raise (sqlite foreign_key) db

unfoldable pub create_task : Task → DbExec (Unit {0})
create_task t = transaction do
  insert_task (task_to_row t)
  modify (insert_trace (with_data (new t.trace_id task_created t.created_at) (created t.id t.kind)))

unfoldable pub get_task : TaskId → DbExec (Option Task)
get_task id =
    gets (λ db. elim (find (has_id id) db.tasks) [ none ↦ none | some r ↦ some (row_to_task r) ])

-- `tx.query_row("SELECT ... WHERE id = ?1")`, with the error that the call maps a failure to.
abbrev query_row : TaskId → DbExec TaskRow → DbExec TaskRow
query_row id missing db = elim (find (has_id id) db.tasks) [
  | none ↦ missing db
  | some r ↦ pure r db
]

-- The source appends the text of the error of serde, `: {e}`, to this one.
abbrev decode_state : TaskId → Option TaskState → DbExec TaskState
decode_state id none = raise (integrity (concat "bad state for " id))
decode_state id (some s) = pure s

-- `UPDATE tasks SET state = ?2, updated_at = ?3 WHERE id = ?1`
abbrev pub set_state : TaskState → ℕ → TaskRow → TaskRow
set_state to ts r = record r { state = TaskState.as_str to; updated_at = ts }

abbrev pub write_state : TaskId → TaskState → ℕ → Db → Db
write_state id to ts db = record db { tasks = update_if (has_id id) (set_state to ts) db.tasks }

abbrev guard : Bool → DbExec (Unit {0}) → DbExec (Unit {0})
guard true failure = pure tt
guard false failure = failure

unfoldable pub transition : TaskId → TaskState → TransitionReason → ℕ → DbExec (Unit {0})
transition id to reason ts = transaction do
  row ← query_row id (raise (not_found (concat "task " id)))
  from ← decode_state id (TaskState.of_str row.state)
  guard (can_transition_to from to) (raise (domain (illegal_transition from to)))
  modify (write_state id to ts)
  written ← query_row id (raise (sqlite no_rows))
  modify (
      insert_trace
        (with_data (new written.trace_id task_transition ts) (transitioned id from to reason)))

-- `UPDATE tasks SET assignee = ?2, worktree = COALESCE(?3, worktree), updated_at = ?4`
abbrev pub set_assignee : AgentId → Option String → ℕ → TaskRow → TaskRow
set_assignee agent worktree ts r = record r {
  assignee = some agent;
  worktree = elim worktree [ none ↦ r.worktree | some w ↦ some w ];
  updated_at = ts;
}

-- The foreign key is checked only if a row is written.
unfoldable pub assign : TaskId → AgentId → Option String → ℕ → DbExec (Unit {0})
assign id agent worktree ts db =
    if any (has_id id) db.tasks
    then (if agent_known agent db
        then (
          ok tt,
          record db { tasks = update_if (has_id id) (set_assignee agent worktree ts) db.tasks },
        )
        else raise (sqlite foreign_key) db)
    else raise (not_found (concat "task " id)) db

-- `INSERT OR IGNORE`: a duplicate is dropped, a broken reference is still an error.
unfoldable pub add_dep : TaskId → TaskId → DbExec (Unit {0})
add_dep task_id blocked_by db =
    if any (λ d. d.task_id == task_id && d.blocked_by == blocked_by) db.task_deps
    then (ok tt, db)
    else if any (has_id task_id) db.tasks && any (has_id blocked_by) db.tasks
    then (
      ok tt,
      record db {
        task_deps = db.task_deps ++ (record { task_id = task_id; blocked_by = blocked_by } ∷ []);
      },
    )
    else raise (sqlite foreign_key) db

-- The join counts, for each dependency of the task, the rows that it names and that are not done.
abbrev pub unmet : TaskId → Db → TaskDep → Bool
unmet task_id db d =
    d.task_id == task_id && any (λ t. t.id == d.blocked_by && not (t.state == "done")) db.tasks

unfoldable pub deps_satisfied : TaskId → DbExec Bool
deps_satisfied task_id = gets (λ db. eqb (count_if (unmet task_id db) db.task_deps) 0)

-- `ORDER BY created_at, id`
abbrev pub row_le : TaskRow → TaskRow → Bool
row_le r s =
    if ltb r.created_at s.created_at
    then true
    else if ltb s.created_at r.created_at
    then false
    else text_leb r.id s.id

unfoldable pub list_tasks : DbExec (List Task)
list_tasks = gets (λ db. map row_to_task (sort row_le db.tasks))

unfoldable pub blocked_by : TaskId → DbExec (List TaskId)
blocked_by task_id = gets (λ db.
    sort text_leb (map (λ d. d.blocked_by) (filter (λ d. d.task_id == task_id) db.task_deps)))
