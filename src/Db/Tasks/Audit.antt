-- ===== src/Db/Tasks/Audit.antt =====
-- The trace log as an audit log of the task table (crates/divan-db/src/tasks.rs): replaying the
-- events gives the state of every task, whatever the order of operations.
use ajan_orkestrasyonu.Prelude.{
  ℕ, ◌≡◌, refl, inl, inr, false, Option, none, some, String, ◌==◌, List, [], ◌∷◌, ◌++◌, find, any,
  update_if, arith, Bool-cases, subst, text_eq, text_ne, find-none_iff, if◌then◌else◌,
}
use ajan_orkestrasyonu.Core.Ids.{TaskId, AgentId}
use ajan_orkestrasyonu.Core.TaskState
use ajan_orkestrasyonu.Core.TaskState.{TaskState, «open», is_terminal}
use ajan_orkestrasyonu.Core.Task.{Task, TransitionReason}
use ajan_orkestrasyonu.Core.Trace.{TraceEvent, Detail, created, transitioned}
use ajan_orkestrasyonu.Db.Store.{Db, TaskRow, insert_trace, fresh}
use ajan_orkestrasyonu.Db.Tasks.{
  has_id, task_to_row, set_assignee, set_state, create_task, assign, add_dep, transition,
}
use ajan_orkestrasyonu.Db.Tasks.Rows.{find-update_self, find-update_ne, find-append, find-any}
use ajan_orkestrasyonu.Db.Tasks.Create.{created_event, create_task_cases}
use ajan_orkestrasyonu.Db.Tasks.Transition.{
  edge_event, Cases, transition-Cases, missing, corrupt, illegal, legal, transition_missing,
  transition_corrupt, transition_illegal, transition_legal,
}

-- What one event says of the state of the task `id`.
abbrev apply_detail : TaskId → Option TaskState → Option Detail → Option TaskState
apply_detail id s (some (created j kind)) = if j == id then some «open» else s
apply_detail id s (some (transitioned j from to reason)) = if j == id then some to else s
apply_detail id s d = s

abbrev replay_from : TaskId → Option TaskState → List TraceEvent → Option TaskState
replay_from id s [] = s
replay_from id s (e ∷ es) = replay_from id (apply_detail id s e.detail) es

-- The state of the task `id` according to the log, from no task at all.
abbrev pub replay : TaskId → List TraceEvent → Option TaskState
replay id es = replay_from id none es

abbrev pub row_state : Option TaskRow → Option TaskState
row_state none = none
row_state (some r) = TaskState.of_str r.state

-- The state of the task `id` according to its row.
abbrev pub current : TaskId → Db → Option TaskState
current id db = row_state (find (has_id id) db.tasks)

abbrev pub IsAudited : Db → Type 0
IsAudited db = (id : TaskId) → replay id db.trace_events ≡ current id db

-- An event that is not about the state of a task.
abbrev pub IsOther : Option Detail → Type 0
IsOther (some (created j kind)) = ⊥
IsOther (some (transitioned j from to reason)) = ⊥
IsOther d = Unit

-- The operations that write `tasks` or `trace_events`, with any arguments and results, and a write
-- to the other tables. The callers of `create_task` pass an open task.
pub data Step (db : Db) : Db → Type 0 where
  create : (t : Task) → t.state ≡ «open» → Step db (create_task t db).1
  move :
      (id : TaskId) (to : TaskState) (reason : TransitionReason) (ts : ℕ)
      → Step db (transition id to reason ts db).1
  give :
      (id : TaskId) (agent : AgentId) (worktree : Option String) (ts : ℕ)
      → Step db (assign id agent worktree ts db).1
  block : (id other : TaskId) → Step db (add_dep id other db).1
  append : (e : TraceEvent) → IsOther e.detail → Step db (insert_trace e db)
  elsewhere : (c : Db) → c.tasks ≡ db.tasks → c.trace_events ≡ db.trace_events → Step db c

pub data Steps (db : Db) : Db → Type 0 where
  here : Steps db db
  next : {b c : Db} → Steps db b → Step b c → Steps db c

replay-append :
    (id : TaskId) (s : Option TaskState) (es : List TraceEvent) (e : TraceEvent)
    → replay_from id s (es ++ (e ∷ [])) ≡ apply_detail id (replay_from id s es) e.detail
replay-append id s [] e = refl
replay-append id s (x ∷ es) e = replay-append id (apply_detail id s x.detail) es e

IsOther-apply :
    (id : TaskId) (s : Option TaskState) (d : Option Detail) → IsOther d → apply_detail id s d ≡ s
IsOther-apply id s (some (created j kind)) o = absurd o
IsOther-apply id s (some (transitioned j from to reason)) o = absurd o
IsOther-apply id s none o = refl
IsOther-apply id s (some _) o = refl

created-IsAudited :
    (t : Task) (db : Db) (id : TaskId)
    → t.state ≡ «open»
    → any (has_id t.id) db.tasks ≡ false
    → replay id db.trace_events ≡ current id db
    → replay id (db.trace_events ++ (created_event t ∷ []))
      ≡ row_state (find (has_id id) (db.tasks ++ (task_to_row t ∷ [])))
created-IsAudited t db id o free h =
    rw
      (
        replay-append id none db.trace_events (created_event t),
        find-append id db.tasks (task_to_row t),
        h,
        find-any id db.tasks,
      )
      (elim (Bool-cases (t.id == id)) [
        | inl e ↦
            let n =
              subst (λ s. find (has_id s) db.tasks ≡ none) (text_eq t.id id e)
                ((find-none_iff (has_id t.id) db.tasks).1 free) in
            ground (arith, n, TaskState.of_str-as_str t.state)
        | inr e ↦ ground arith
      ])

create-IsAudited :
    (t : Task) (db : Db) → t.state ≡ «open» → IsAudited db → IsAudited (create_task t db).1
create-IsAudited t db o h id = elim (create_task_cases t db) [
  | inl (e, p) ↦ rw p (h id)
  | inr (free, p) ↦ rw p (created-IsAudited t db id o free (h id))
]

moved-IsAudited :
    (id : TaskId) (to : TaskState) (reason : TransitionReason) (ts : ℕ) (db : Db) (row : TaskRow)
    (from : TaskState) (j : TaskId)
    → find (has_id id) db.tasks ≡ some row
    → replay j db.trace_events ≡ current j db
    → replay j (db.trace_events ++ (edge_event row id from to reason ts ∷ []))
      ≡ row_state (find (has_id j) (update_if (has_id id) (set_state to ts) db.tasks))
moved-IsAudited id to reason ts db row from j e h =
    rw (replay-append j none db.trace_events (edge_event row id from to reason ts))
      (elim (Bool-cases (id == j)) [
        | inl q ↦
            let u =
              subst
                (λ s.
                  find (has_id s) (update_if (has_id id) (set_state to ts) db.tasks)
                  ≡ some (set_state to ts row))
                (text_eq id j q)
                (find-update_self (set_state to ts) (λ r. refl) id db.tasks row e) in
            ground (arith, u, TaskState.of_str-as_str to)
        | inr q ↦
            ground
              (arith, find-update_ne (set_state to ts) (λ r. refl) id j db.tasks (text_ne id j q))
      ])

move-IsAudited :
    (id : TaskId) (to : TaskState) (reason : TransitionReason) (ts : ℕ) (db : Db)
    → IsAudited db
    → IsAudited (transition id to reason ts db).1
move-IsAudited id to reason ts db h j = go (transition-Cases id to db)
  where
    go :
        Cases id to db
        → replay j (transition id to reason ts db).1.trace_events
          ≡ current j (transition id to reason ts db).1
    go (missing e) = rw (transition_missing id to reason ts db e) (h j)
    go (corrupt row e d) = rw (transition_corrupt id to reason ts db row e d) (h j)
    go (illegal row from e d c) = rw (transition_illegal id to reason ts db row from e d c) (h j)
    go (legal row from e d c) =
        rw (transition_legal id to reason ts db row from e d c)
          (moved-IsAudited id to reason ts db row from j e (h j))

-- `assign` touches no id and no state.
pub row_state-assign :
    (agent : AgentId) (worktree : Option String) (ts : ℕ) (id j : TaskId) (rows : List TaskRow)
    → row_state (find (has_id j) (update_if (has_id id) (set_assignee agent worktree ts) rows))
      ≡ row_state (find (has_id j) rows)
row_state-assign agent worktree ts id j [] = refl
row_state-assign agent worktree ts id j (x ∷ rows) =
    ground (arith, row_state-assign agent worktree ts id j rows)

give-IsAudited :
    (id : TaskId) (agent : AgentId) (worktree : Option String) (ts : ℕ) (db : Db)
    → IsAudited db
    → IsAudited (assign id agent worktree ts db).1
unfolding assign
give-IsAudited id agent worktree ts db h j =
    ground (arith, h j, row_state-assign agent worktree ts id j db.tasks)

block-IsAudited : (id other : TaskId) (db : Db) → IsAudited db → IsAudited (add_dep id other db).1
unfolding add_dep
block-IsAudited id other db h j = ground (arith, h j)

pub Step-IsAudited : {a b : Db} → IsAudited a → Step a b → IsAudited b
Step-IsAudited {a} h (create t o) = create-IsAudited t a o h
Step-IsAudited {a} h (move id to reason ts) = move-IsAudited id to reason ts a h
Step-IsAudited {a} h (give id agent worktree ts) = give-IsAudited id agent worktree ts a h
Step-IsAudited {a} h (block id other) = block-IsAudited id other a h
Step-IsAudited {a} h (append e o) = λ id.
    rw
      (
        replay-append id none a.trace_events e,
        IsOther-apply id (replay id a.trace_events) e.detail o,
      )
      (h id)
Step-IsAudited h (elsewhere c t e) = λ id. rw (e, t) (h id)

-- From a fresh database, after any operations with any outcomes, replaying the trace log gives the
-- state of every task, and no task for an id that has none.
pub Steps-IsAudited : {db : Db} → Steps fresh db → IsAudited db
Steps-IsAudited here = λ id. refl
Steps-IsAudited (next r s) = Step-IsAudited (Steps-IsAudited r) s
