-- ===== src/Db/Tasks/Current.antt =====
-- The state that a successful operation leaves its task in (crates/divan-db/src/tasks.rs).
use ajan_orkestrasyonu.Prelude.{
  ℕ, ◌≡◌, refl, inl, inr, true, some, ok, find, arith, Option-cases, eq_refl, ◌∙◌, sym, ap,
}
use ajan_orkestrasyonu.Core.Ids.{TaskId}
use ajan_orkestrasyonu.Core.TaskState
use ajan_orkestrasyonu.Core.TaskState.{TaskState, can_transition_to}
use ajan_orkestrasyonu.Core.Task.{Task, TransitionReason}
use ajan_orkestrasyonu.Db.Store.{Db, TaskRow}
use ajan_orkestrasyonu.Db.Tasks.{has_id, task_to_row, set_state, create_task, transition}
use ajan_orkestrasyonu.Db.Tasks.Rows.{find-update_self, find-append}
use ajan_orkestrasyonu.Db.Tasks.Create.{create_task_cases}
use ajan_orkestrasyonu.Db.Tasks.Transition.{
  Cases, transition-Cases, missing, corrupt, illegal, legal, transition_missing, transition_corrupt,
  transition_illegal, transition_legal,
}
use ajan_orkestrasyonu.Db.Tasks.Audit.{current, row_state}

pub create_task-current :
    (t : Task) (db : Db)
    → (create_task t db).0 ≡ ok tt
    → current t.id (create_task t db).1 ≡ some t.state
create_task-current t db h = elim (create_task_cases t db) [
  | inl (e, p) ↦ cc p
  | inr (free, p) ↦ rw p (
      ground (
        arith,
        find-append t.id db.tasks (task_to_row t),
        eq_refl t.id,
        TaskState.of_str-as_str t.state,
      ))
]

module _ (id : TaskId) (to : TaskState) (reason : TransitionReason) (ts : ℕ) (db : Db) where
  legal_row-current :
      (row : TaskRow) (from : TaskState)
      → find (has_id id) db.tasks ≡ some row
      → TaskState.of_str row.state ≡ some from
      → can_transition_to from to ≡ true
      → current id (transition id to reason ts db).1 ≡ some to
  legal_row-current row from e d c = rw (transition_legal id to reason ts db row from e d c) (
      ground (
        arith,
        find-update_self (set_state to ts) (λ r. refl) id db.tasks row e,
        TaskState.of_str-as_str to,
      ))

  -- A transition that succeeds leaves the task in the state it names.
  pub transition-current :
      (transition id to reason ts db).0 ≡ ok tt
      → current id (transition id to reason ts db).1 ≡ some to
  transition-current h = go (transition-Cases id to db)
    where
      go : Cases id to db → current id (transition id to reason ts db).1 ≡ some to
      go (missing e) = cc (transition_missing id to reason ts db e)
      go (corrupt row e d) = cc (transition_corrupt id to reason ts db row e d)
      go (illegal row from e d c) = cc (transition_illegal id to reason ts db row from e d c)
      go (legal row from e d c) = legal_row-current row from e d c

  -- A transition along an edge of the diagram succeeds.
  pub edge-current :
      (from : TaskState)
      → current id db ≡ some from
      → can_transition_to from to ≡ true
      → current id (transition id to reason ts db).1 ≡ some to
  edge-current from h c = elim (Option-cases (find (has_id id) db.tasks)) [
    | inl e ↦ cc (sym h ∙ ap row_state e)
    | inr (row, e) ↦ legal_row-current row from e (sym (ap row_state e) ∙ h) c
  ]
