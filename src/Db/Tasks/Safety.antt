-- ===== src/Db/Tasks/Safety.antt =====
-- Every change of a task's state follows the diagram of spec §4.2, so terminal states are final
-- (crates/divan-db/src/tasks.rs).
use ajan_orkestrasyonu.Prelude.{
  ℕ, ◌≡◌, refl, ◌⊎◌, inl, inr, true, some, ◌==◌, List, [], ◌∷◌, ◌++◌, find, update_if, arith,
  Bool-cases, subst, text_eq, text_ne,
}
use ajan_orkestrasyonu.Core.Ids.{TaskId}
use ajan_orkestrasyonu.Core.TaskState
use ajan_orkestrasyonu.Core.TaskState.{TaskState, is_terminal, can_transition_to}
use ajan_orkestrasyonu.Core.TaskState.Legal.{Legal, can_transition_to-Legal, terminal_stuck}
use ajan_orkestrasyonu.Core.Task.{Task, TransitionReason}
use ajan_orkestrasyonu.Db.Store.{Db, TaskRow}
use ajan_orkestrasyonu.Db.Tasks.{
  has_id, task_to_row, set_state, create_task, assign, add_dep, transition,
}
use ajan_orkestrasyonu.Db.Tasks.Rows.{find-update_self, find-update_ne, find-append, find-any}
use ajan_orkestrasyonu.Db.Tasks.Create.{create_task_cases}
use ajan_orkestrasyonu.Db.Tasks.Transition.{
  Cases, transition-Cases, missing, corrupt, illegal, legal, transition_missing, transition_corrupt,
  transition_illegal, transition_legal,
}
use ajan_orkestrasyonu.Db.Tasks.Audit.{
  current, row_state, row_state-assign, Step, create, move, give, block, append, elsewhere, Steps,
  here, next,
}

-- The state of `id` is `s`, or has moved from `s` along an edge.
abbrev pub Follows : TaskId → TaskState → Db → Type 0
Follows id s db =
    (current id db ≡ some s) ⊎ ((t : TaskState) × (current id db ≡ some t) × Legal s t)

kept-append :
    (t : Task) (id : TaskId) (s : TaskState) (rows : List TaskRow)
    → row_state (find (has_id id) rows) ≡ some s
    → row_state (find (has_id id) (rows ++ (task_to_row t ∷ []))) ≡ some s
kept-append t id s rows h =
    rw (find-append id rows (task_to_row t), find-any id rows) (ground arith)

create-Follows :
    (t : Task) (id : TaskId) (s : TaskState) (db : Db)
    → current id db ≡ some s
    → Follows id s (create_task t db).1
create-Follows t id s db h = elim (create_task_cases t db) [
  | inl (e, p) ↦ inl (rw p h)
  | inr (free, p) ↦ inl (rw p (kept-append t id s db.tasks h))
]

moved-Follows :
    (id : TaskId) (to : TaskState) (ts : ℕ) (row : TaskRow) (from : TaskState) (j : TaskId)
    (s : TaskState) (rows : List TaskRow)
    → find (has_id id) rows ≡ some row
    → TaskState.of_str row.state ≡ some from
    → can_transition_to from to ≡ true
    → row_state (find (has_id j) rows) ≡ some s
    → let now = row_state (find (has_id j) (update_if (has_id id) (set_state to ts) rows)) in
      (now ≡ some s) ⊎ ((t : TaskState) × (now ≡ some t) × Legal s t)
moved-Follows id to ts row from j s rows e d c h = elim (Bool-cases (id == j)) [
  | inl q ↦
      let before = subst (λ i. find (has_id i) rows ≡ some row) (text_eq id j q) e in
      let after =
        subst
          (λ i.
            find (has_id i) (update_if (has_id id) (set_state to ts) rows)
            ≡ some (set_state to ts row))
          (text_eq id j q) (find-update_self (set_state to ts) (λ r. refl) id rows row e) in
      let same : from ≡ s = ground (arith, before) in
      inr (
        to,
        ground (arith, after, TaskState.of_str-as_str to),
        subst (λ x. Legal x to) same (can_transition_to-Legal from to c),
      )
  | inr q ↦
      inl (ground (arith, find-update_ne (set_state to ts) (λ r. refl) id j rows (text_ne id j q)))
]

move-Follows :
    (id : TaskId) (to : TaskState) (reason : TransitionReason) (ts : ℕ) (j : TaskId) (s : TaskState)
    (db : Db)
    → current j db ≡ some s
    → Follows j s (transition id to reason ts db).1
move-Follows id to reason ts j s db h = go (transition-Cases id to db)
  where
    go : Cases id to db → Follows j s (transition id to reason ts db).1
    go (missing e) = rw (transition_missing id to reason ts db e) (inl h)
    go (corrupt row e d) = rw (transition_corrupt id to reason ts db row e d) (inl h)
    go (illegal row from e d c) = rw (transition_illegal id to reason ts db row from e d c) (inl h)
    go (legal row from e d c) =
        rw (transition_legal id to reason ts db row from e d c)
          (moved-Follows id to ts row from j s db.tasks e d c h)

-- Whatever operation runs, and whatever it returns, a task keeps its state or moves along an edge
-- of the diagram.
pub Step-Follows :
    (id : TaskId) (s : TaskState) {a b : Db} → Step a b → current id a ≡ some s → Follows id s b
unfolding add_dep
Step-Follows id s {a} (create t o) h = create-Follows t id s a h
Step-Follows id s {a} (move i to reason ts) h = move-Follows i to reason ts id s a h
Step-Follows id s {a} (give i agent worktree ts) h =
    inl (unfold assign in ground (arith, row_state-assign agent worktree ts i id a.tasks))
Step-Follows id s {a} (block i other) h = inl (ground arith)
Step-Follows id s {a} (append e o) h = inl h
Step-Follows id s {a} (elsewhere c t e) h = inl (rw t h)

-- A task that is done, failed or cancelled stays so, whatever operations follow.
pub terminal_final :
    (id : TaskId) (s : TaskState) {a b : Db}
    → is_terminal s ≡ true
    → Steps a b
    → current id a ≡ some s
    → current id b ≡ some s
terminal_final id s t here h = h
terminal_final id s t (next r st) h = elim (Step-Follows id s st (terminal_final id s t r h)) [
  | inl same ↦ same
  | inr (to, now, edge) ↦ absurd (terminal_stuck t edge)
]
