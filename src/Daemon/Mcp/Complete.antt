-- ===== src/Daemon/Mcp/Complete.antt =====
-- How `complete_task` walks a task to `done` (crates/divan-daemon/src/rpc.rs).
use ajan_orkestrasyonu.Prelude.{
  ℕ, suc, ◌≡◌, refl, ◌∙◌, true, false, Option, none, some, String, List, [], ◌∷◌, find, ok, err,
  >>=-ok,
}
use ajan_orkestrasyonu.Core.Ids.{TaskId}
use ajan_orkestrasyonu.Core.TaskState
use ajan_orkestrasyonu.Core.TaskState.{TaskState, is_terminal, can_transition_to}
use ajan_orkestrasyonu.Core.Task.{Task, completed}
use ajan_orkestrasyonu.Db.Store.{Db, TaskRow, insert_trace}
use ajan_orkestrasyonu.Db.Tasks.{has_id, get_task, set_state, write_state, transition, row_to_task}
use ajan_orkestrasyonu.Db.Tasks.Rows.{find-update_self}
use ajan_orkestrasyonu.Db.Tasks.Transition.{transition_legal, edge_event}
use ajan_orkestrasyonu.Daemon.Policy.{check, required_cap}
use ajan_orkestrasyonu.Daemon.Mcp.{not_completable, path_to_done, walk, complete_task}

-- Each state of the path is one edge from the one before it.
abbrev IsWalk : TaskState → List TaskState → Type 0
IsWalk from [] = Unit
IsWalk from (s ∷ path) = (can_transition_to from s ≡ true) × IsWalk s path

abbrev end_of : TaskState → List TaskState → TaskState
end_of from [] = from
end_of from (s ∷ path) = end_of s path

-- The task is stored in this state.
abbrev IsStored : TaskId → TaskState → Db → Type 0
IsStored id s db =
    (row : TaskRow) × (find (has_id id) db.tasks ≡ some row) × (TaskState.of_str row.state ≡ some s)

walk_total :
    (id : TaskId) (path : List TaskState) (now : ℕ → ℕ) (k : ℕ) (db : Db) (from : TaskState)
    → IsStored id from db
    → IsWalk from path
    → (after : Db) × (walk id path now k db ≡ (ok tt, after)) × IsStored id (end_of from path) after
unfolding walk
walk_total id [] now k db from at w = (db, refl, at)
walk_total id (s ∷ path) now k db from (row, found, read) w =
    let moved =
      insert_trace (edge_event row id from s completed (now k)) (write_state id s (now k) db) in
    let here : IsStored id s moved = (
      set_state s (now k) row,
      find-update_self (set_state s (now k)) (λ r. refl) id db.tasks row found,
      TaskState.of_str-as_str s,
    ) in
    let (after, walked, there) = walk_total id path now (suc k) moved s here w.1 in
    (
      after,
      >>=-ok (transition id s completed (now k)) (λ u. walk id path now (suc k)) db moved tt
            (transition_legal id s completed (now k) db row from found read w.0)
          ∙ walked,
      there,
    )

path_to_done-IsWalk :
    (from : TaskState)
    → is_terminal from ≡ false
    → (path : List TaskState) × (path_to_done from ≡ some path)
      × IsWalk from path
      × (end_of from path ≡ TaskState.done)
unfolding can_transition_to
path_to_done-IsWalk TaskState.«open» h = (_, refl, (refl, (refl, (refl, tt))), refl)
path_to_done-IsWalk TaskState.claimed h = (_, refl, (refl, (refl, tt)), refl)
path_to_done-IsWalk TaskState.working h = (_, refl, (refl, tt), refl)
path_to_done-IsWalk TaskState.review h = (_, refl, (refl, tt), refl)
path_to_done-IsWalk TaskState.done h = cc
path_to_done-IsWalk TaskState.failed h = cc
path_to_done-IsWalk TaskState.cancelled h = cc

path_to_done-none : (from : TaskState) → is_terminal from ≡ true → path_to_done from ≡ none
path_to_done-none TaskState.done h = refl
path_to_done-none TaskState.failed h = refl
path_to_done-none TaskState.cancelled h = refl
path_to_done-none _ h = cc

-- A task that is stored in a state that is not terminal is completed: the call succeeds, and the
-- task is then stored as done.
pub complete_task-done :
    (id : TaskId) (result : Option String) (now : ℕ → ℕ) (db : Db) (row : TaskRow)
    (from : TaskState)
    → find (has_id id) db.tasks ≡ some row
    → TaskState.of_str row.state ≡ some from
    → is_terminal from ≡ false
    → (after : Db) × (complete_task id result now db ≡ (ok (id, result), after))
      × ((t : Task) × ((get_task id after).0 ≡ ok (some t)) × (t.state ≡ TaskState.done))
unfolding complete_task check required_cap get_task
complete_task-done id result now db row from found read live =
    let (path, p, w, e) = path_to_done-IsWalk from live in
    let (after, walked, there) = walk_total id path now 1 db from (row, found, read) w in
    let (last, at_last, reads) = there in
    (after, rw (found, read, p) (rw walked refl), (row_to_task last, rw at_last refl, rw reads e))

-- A task that is stored in a terminal state is refused, with that state, and nothing changes.
pub complete_task-terminal :
    (id : TaskId) (result : Option String) (now : ℕ → ℕ) (db : Db) (row : TaskRow)
    (from : TaskState)
    → find (has_id id) db.tasks ≡ some row
    → TaskState.of_str row.state ≡ some from
    → is_terminal from ≡ true
    → complete_task id result now db ≡ (err (not_completable from), db)
unfolding complete_task check required_cap get_task
complete_task-terminal id result now db row from found read over =
    rw (found, read, path_to_done-none from over) refl
