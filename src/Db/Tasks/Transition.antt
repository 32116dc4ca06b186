-- ===== src/Db/Tasks/Transition.antt =====
-- What `transition` does, on every branch (crates/divan-db/src/tasks.rs).
use Prim.Native.String.{◌++◌ as concat}
use ajan_orkestrasyonu.Prelude.{
  ℕ, ◌≡◌, refl, ◌≢◌, inl, inr, true, false, none, some, [], ◌∷◌, ◌++◌, subst, find, arith,
  Bool-cases, Option-cases, Result, ok, err,
}
use ajan_orkestrasyonu.Core.Ids.{TaskId}
use ajan_orkestrasyonu.Core.TaskState
use ajan_orkestrasyonu.Core.TaskState.{TaskState, can_transition_to}
use ajan_orkestrasyonu.Core.TaskState.Legal.{
  Legal, can_transition_to-Legal, Legal-can_transition_to,
}
use ajan_orkestrasyonu.Core.Task.{Task, TransitionReason}
use ajan_orkestrasyonu.Core.TraceEventKind.{task_transition}
use ajan_orkestrasyonu.Core.Trace.{TraceEvent, new, with_data, transitioned}
use ajan_orkestrasyonu.Core.Error.{illegal_transition}
use ajan_orkestrasyonu.Db.Store.{Db, DbError, TaskRow, domain, not_found, integrity, insert_trace}
use ajan_orkestrasyonu.Db.Tasks.{has_id, row_to_task, set_state, write_state, get_task, transition}
use ajan_orkestrasyonu.Db.Tasks.Rows.{find-update_self, find-update_ne}

-- The event that records an edge.
abbrev pub edge_event : TaskRow → TaskId → TaskState → TaskState → TransitionReason → ℕ → TraceEvent
edge_event row id from to reason ts =
    with_data (new row.trace_id task_transition ts) (transitioned id from to reason)

module _ (id : TaskId) (to : TaskState) (reason : TransitionReason) (ts : ℕ) (db : Db) where
  pub transition_missing :
      find (has_id id) db.tasks ≡ none
      → transition id to reason ts db ≡ (err (not_found (concat "task " id)), db)
  unfolding transition
  transition_missing e = ground arith

  pub transition_corrupt :
      (row : TaskRow)
      → find (has_id id) db.tasks ≡ some row
      → TaskState.of_str row.state ≡ none
      → transition id to reason ts db ≡ (err (integrity (concat "bad state for " id)), db)
  unfolding transition
  transition_corrupt row e d = ground arith

  pub transition_illegal :
      (row : TaskRow) (from : TaskState)
      → find (has_id id) db.tasks ≡ some row
      → TaskState.of_str row.state ≡ some from
      → can_transition_to from to ≡ false
      → transition id to reason ts db ≡ (err (domain (illegal_transition from to)), db)
  unfolding transition
  transition_illegal row from e d c = ground arith

  pub transition_legal :
      (row : TaskRow) (from : TaskState)
      → find (has_id id) db.tasks ≡ some row
      → TaskState.of_str row.state ≡ some from
      → can_transition_to from to ≡ true
      → transition id to reason ts db
        ≡ (ok tt, insert_trace (edge_event row id from to reason ts) (write_state id to ts db))
  unfolding transition
  transition_legal row from e d c =
      ground (arith, find-update_self (set_state to ts) (λ r. refl) id db.tasks row e)

-- The cases of the code: no row, a state text that serde does not know, a refused edge, an edge.
pub data Cases (id : TaskId) (to : TaskState) (db : Db) : Type 0 where
  missing : find (has_id id) db.tasks ≡ none → Cases id to db
  corrupt :
      (row : TaskRow)
      → find (has_id id) db.tasks ≡ some row
      → TaskState.of_str row.state ≡ none
      → Cases id to db
  illegal :
      (row : TaskRow) (from : TaskState)
      → find (has_id id) db.tasks ≡ some row
      → TaskState.of_str row.state ≡ some from
      → can_transition_to from to ≡ false
      → Cases id to db
  legal :
      (row : TaskRow) (from : TaskState)
      → find (has_id id) db.tasks ≡ some row
      → TaskState.of_str row.state ≡ some from
      → can_transition_to from to ≡ true
      → Cases id to db

pub transition-Cases : (id : TaskId) (to : TaskState) (db : Db) → Cases id to db
transition-Cases id to db = elim (Option-cases (find (has_id id) db.tasks)) [
  | inl e ↦ missing e
  | inr (row, e) ↦ elim (Option-cases (TaskState.of_str row.state)) [
    | inl d ↦ corrupt row e d
    | inr (from, d) ↦ elim (Bool-cases (can_transition_to from to)) [
      | inl c ↦ legal row from e d c
      | inr c ↦ illegal row from e d c
    ]
  ]
]

-- What a transition that moves a task leaves.
pub record Moved (id : TaskId) (to : TaskState) (reason : TransitionReason) (ts : ℕ) (db db' : Db)
    : Type 0 where
  pub task : Task
  pub was : (get_task id db).0 ≡ ok (some task)
  pub edge : Legal task.state to
  pub is : (get_task id db').0 ≡ ok (some (record task { state = to; updated_at = ts }))
  pub others : (j : TaskId) → id ≢ j → (get_task j db').0 ≡ (get_task j db).0
  pub traced :
      db'.trace_events
      ≡ db.trace_events
        ++ (with_data (new task.trace_id task_transition ts) (transitioned id task.state to reason)
            ∷ [])

legal-Moved :
    (id : TaskId) (to : TaskState) (reason : TransitionReason) (ts : ℕ) (db : Db) (row : TaskRow)
    (from : TaskState)
    → find (has_id id) db.tasks ≡ some row
    → TaskState.of_str row.state ≡ some from
    → can_transition_to from to ≡ true
    → Moved id to reason ts db
        (insert_trace (edge_event row id from to reason ts) (write_state id to ts db))
unfolding get_task
legal-Moved id to reason ts db row from e d c = record {
  task = row_to_task row;
  was = ground arith;
  edge = can_transition_to-Legal _ to (ground arith);
  is = ground (
    arith,
    find-update_self (set_state to ts) (λ r. refl) id db.tasks row e,
    TaskState.of_str-as_str to,
  );
  others = λ j ne. ground (arith, find-update_ne (set_state to ts) (λ r. refl) id j db.tasks ne);
  traced = ground arith;
}

-- A successful transition found the task, followed an edge of the diagram from its state, changed
-- its state and update time and nothing else of it, left every other task as it was, and appended
-- one event, which names the edge and the reason, to the trace.
pub transition_ok :
    (id : TaskId) (to : TaskState) (reason : TransitionReason) (ts : ℕ) (db : Db)
    → (transition id to reason ts db).0 ≡ ok tt
    → Moved id to reason ts db (transition id to reason ts db).1
transition_ok id to reason ts db h = go (transition-Cases id to db)
  where
    go : Cases id to db → Moved id to reason ts db (transition id to reason ts db).1
    go (missing e) = cc (transition_missing id to reason ts db e)
    go (corrupt row e d) = cc (transition_corrupt id to reason ts db row e d)
    go (illegal row from e d c) = cc (transition_illegal id to reason ts db row from e d c)
    go (legal row from e d c) =
        rw (transition_legal id to reason ts db row from e d c)
          (legal-Moved id to reason ts db row from e d c)

-- Why a transition was refused.
pub data Refused (id : TaskId) (to : TaskState) (db : Db) : DbError → Type 0 where
  unknown : (get_task id db).0 ≡ ok none → Refused id to db (not_found (concat "task " id))
  unreadable :
      (row : TaskRow)
      → find (has_id id) db.tasks ≡ some row
      → TaskState.of_str row.state ≡ none
      → Refused id to db (integrity (concat "bad state for " id))
  no_edge :
      (task : Task)
      → (get_task id db).0 ≡ ok (some task)
      → ¬ Legal task.state to
      → Refused id to db (domain (illegal_transition task.state to))

illegal-Refused :
    (id : TaskId) (to : TaskState) (db : Db) (row : TaskRow) (from : TaskState)
    → find (has_id id) db.tasks ≡ some row
    → TaskState.of_str row.state ≡ some from
    → can_transition_to from to ≡ false
    → Refused id to db (domain (illegal_transition from to))
unfolding get_task
illegal-Refused id to db row from e d c =
    subst (λ s. Refused id to db (domain (illegal_transition s to))) same_state
      (no_edge (row_to_task row) (ground arith)
        (λ l. ground (arith, Legal-can_transition_to l, same_state)))
  where
    same_state : (row_to_task row).state ≡ from
    same_state = ground arith

refuse :
    (id : TaskId) (to : TaskState) (db : Db) (r : Result DbError (Unit {0}) × Db) (x y : DbError)
    → r ≡ (err y, db)
    → Refused id to db y
    → r.0 ≡ err x
    → (r.1 ≡ db) × Refused id to db x
refuse id to db r x y p q h = (cc p, subst (Refused id to db) (cc p) q)

-- A refused transition changed nothing, and its error says why it was refused.
pub transition_err :
    (id : TaskId) (to : TaskState) (reason : TransitionReason) (ts : ℕ) (db : Db) (x : DbError)
    → (transition id to reason ts db).0 ≡ err x
    → ((transition id to reason ts db).1 ≡ db) × Refused id to db x
unfolding get_task
transition_err id to reason ts db x h = go (transition-Cases id to db)
  where
    go : Cases id to db → ((transition id to reason ts db).1 ≡ db) × Refused id to db x
    go (missing e) =
        refuse id to db _ x _ (transition_missing id to reason ts db e) (unknown (ground arith)) h
    go (corrupt row e d) =
        refuse id to db _ x _ (transition_corrupt id to reason ts db row e d) (unreadable row e d) h
    go (illegal row from e d c) =
        refuse id to db _ x _ (transition_illegal id to reason ts db row from e d c)
          (illegal-Refused id to db row from e d c) h
    go (legal row from e d c) = cc (transition_legal id to reason ts db row from e d c)
