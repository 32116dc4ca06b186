-- ===== src/Db/Tasks/Create.antt =====
-- What `create_task`, `assign` and `add_dep` do, on every branch (crates/divan-db/src/tasks.rs).
use ajan_orkestrasyonu.Prelude.{
  ◌≡◌, ◌⊎◌, inl, inr, Bool, true, false, ◌&&◌, some, [], ◌∷◌, ◌++◌, any, arith, Bool-cases, ok, err,
  map_or, eq_refl,
}
use ajan_orkestrasyonu.Core.TaskKind
use ajan_orkestrasyonu.Core.TaskState
use ajan_orkestrasyonu.Core.Task.{Task}
use ajan_orkestrasyonu.Core.TraceEventKind.{task_created}
use ajan_orkestrasyonu.Core.Trace.{TraceEvent, new, with_data, created}
use ajan_orkestrasyonu.Db.Store.{Db, DbError, sqlite, primary_key, foreign_key}
use ajan_orkestrasyonu.Db.Tasks.{has_id, parent_ok, agent_known, task_to_row, get_task, create_task}
use ajan_orkestrasyonu.Db.Tasks.Rows.{find-append}

-- The event of a new task.
abbrev pub created_event : Task → TraceEvent
created_event t = with_data (new t.trace_id task_created t.created_at) (created t.id t.kind)

-- Both foreign keys of the new row hold.
abbrev refs_ok : Task → Db → Bool
refs_ok t db = parent_ok (task_to_row t) db && map_or true (λ a. agent_known a db) t.assignee

-- Either nothing is written, or the row and its event are, and the id was free.
pub create_task_cases :
    (t : Task) (db : Db)
    → ((e : DbError) × (create_task t db ≡ (err e, db)))
      ⊎ ((any (has_id t.id) db.tasks ≡ false)
          × (create_task t db ≡ (
            ok tt,
            record db {
              tasks = db.tasks ++ (task_to_row t ∷ []);
              trace_events = db.trace_events ++ (created_event t ∷ []);
            },
          )))
unfolding create_task
create_task_cases t db = elim (Bool-cases (any (has_id t.id) db.tasks)) [
  | inl used ↦ inl (sqlite primary_key, rw (used))
  | inr free ↦ elim (Bool-cases (refs_ok t db)) [
    | inl found ↦ inr (free, rw (free, found))
    | inr broken ↦ inl (sqlite foreign_key, rw (free, broken))
  ]
]

-- A created task is read back as it was given.
pub create-get :
    (t : Task) (db : Db)
    → (create_task t db).0 ≡ ok tt
    → (get_task t.id (create_task t db).1).0 ≡ ok (some t)
create-get t db h = elim (create_task_cases t db) [
  | inl (e, p) ↦ cc p
  | inr (new, p) ↦ rw p (
      unfold get_task in
      ground (
        arith,
        find-append t.id db.tasks (task_to_row t),
        eq_refl t.id,
        TaskKind.of_str-as_str t.kind,
        TaskState.of_str-as_str t.state,
      ))
]
