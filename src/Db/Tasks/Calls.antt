-- ===== src/Db/Tasks/Calls.antt =====
-- Sequences of operations that create and move only certain tasks (crates/divan-db/src/tasks.rs).
use ajan_orkestrasyonu.Prelude.{◌≡◌, refl, ◌≢◌, inl, inr, ◌∙◌, arith, text_ne_false, subst, ℕ}
use ajan_orkestrasyonu.Core.Ids.{TaskId}
use ajan_orkestrasyonu.Core.TaskState.{TaskState}
use ajan_orkestrasyonu.Core.Task.{Task, TransitionReason}
use ajan_orkestrasyonu.Db.Store.{Db}
use ajan_orkestrasyonu.Db.Tasks.{task_to_row, set_state, create_task, transition, assign, add_dep}
use ajan_orkestrasyonu.Db.Tasks.Rows.{find-update_ne, find-append, find-any}
use ajan_orkestrasyonu.Db.Tasks.Create.{create_task_cases}
use ajan_orkestrasyonu.Db.Tasks.Transition.{
  Cases, transition-Cases, missing, corrupt, illegal, legal, transition_missing, transition_corrupt,
  transition_illegal, transition_legal,
}
use ajan_orkestrasyonu.Db.Tasks.Audit.{
  current, row_state-assign, Step, create, move, give, block, append, elsewhere, Steps, here, next,
}

-- The task that the operation creates or moves, if any, is one of `P`.
abbrev pub Moves : (TaskId → Type 0) → {a b : Db} → Step a b → Type 0
Moves P (create t o) = P t.id
Moves P (move id to reason ts) = P id
Moves P (give id agent worktree ts) = Unit
Moves P (block id other) = Unit
Moves P (append e o) = Unit
Moves P (elsewhere c t e) = Unit

pub data Calls (P : TaskId → Type 0) (db : Db) : Db → Type 0 where
  stop : Calls P db db
  call : {b c : Db} → Calls P db b → (st : Step b c) → Moves P st → Calls P db c

pub Calls-trans : {P : TaskId → Type 0} {a b c : Db} → Calls P a b → Calls P b c → Calls P a c
Calls-trans h stop = h
Calls-trans h (call k st m) = call (Calls-trans h k) st m

pub Calls-Steps : {P : TaskId → Type 0} {a b : Db} → Calls P a b → Steps a b
Calls-Steps stop = here
Calls-Steps (call k st m) = next (Calls-Steps k) st

create-spares :
    (t : Task) (j : TaskId) (db : Db) → t.id ≢ j → current j (create_task t db).1 ≡ current j db
create-spares t j db ne = elim (create_task_cases t db) [
  | inl (e, p) ↦ rw p refl
  | inr (free, p) ↦ rw p (
      ground (
        arith,
        find-append j db.tasks (task_to_row t),
        find-any j db.tasks,
        text_ne_false t.id j ne,
      ))
]

move-spares :
    (id : TaskId) (to : TaskState) (reason : TransitionReason) (ts : ℕ) (j : TaskId) (db : Db)
    → id ≢ j
    → current j (transition id to reason ts db).1 ≡ current j db
move-spares id to reason ts j db ne = go (transition-Cases id to db)
  where
    go : Cases id to db → current j (transition id to reason ts db).1 ≡ current j db
    go (missing e) = rw (transition_missing id to reason ts db e) refl
    go (corrupt row e d) = rw (transition_corrupt id to reason ts db row e d) refl
    go (illegal row from e d c) = rw (transition_illegal id to reason ts db row from e d c) refl
    go (legal row from e d c) =
        rw
          (
            transition_legal id to reason ts db row from e d c,
            find-update_ne (set_state to ts) (λ r. refl) id j db.tasks ne,
          )
          refl

Step-spares :
    (P : TaskId → Type 0) (j : TaskId)
    → ¬ P j
    → {a b : Db} (st : Step a b) → Moves P st
    → current j b ≡ current j a
unfolding add_dep
Step-spares P j other_id {a} (create t o) m = create-spares t j a (λ e. other_id (subst P e m))
Step-spares P j other_id {a} (move id to reason ts) m =
    move-spares id to reason ts j a (λ e. other_id (subst P e m))
Step-spares P j other_id {a} (give id agent worktree ts) m =
    unfold assign in ground (arith, row_state-assign agent worktree ts id j a.tasks)
Step-spares P j other_id {a} (block id other) m = ground arith
Step-spares P j other_id {a} (append e o) m = refl
Step-spares P j other_id {a} (elsewhere c t e) m = rw t refl

-- The other tasks keep their states.
pub Calls-spares :
    {P : TaskId → Type 0} (j : TaskId)
    → ¬ P j
    → {a b : Db} → Calls P a b
    → current j b ≡ current j a
Calls-spares j other_id stop = refl
Calls-spares {P} j other_id (call k st m) =
    Step-spares P j other_id st m ∙ Calls-spares j other_id k

-- A state of the database that differs in other tables only.
abbrev pub SameLog : Db → Db → Type 0
SameLog a b = (b.tasks ≡ a.tasks) × (b.trace_events ≡ a.trace_events)

pub aside : {P : TaskId → Type 0} {a b : Db} → SameLog a b → Calls P a b
aside (t, e) = call stop (elsewhere _ t e) tt
