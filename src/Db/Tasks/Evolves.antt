-- ===== src/Db/Tasks/Evolves.antt =====
-- The abstract state machine of one task, and that the task table refines it with the trace log as
-- its history (crates/divan-db/src/tasks.rs).
use ajan_orkestrasyonu.Prelude.{
  ℕ, ◌≡◌, refl, ◌≢◌, inl, inr, false, Option, none, some, ◌==◌, find, any, arith, ◌∙◌, Bool-cases,
  subst, sym, ap, text_eq, text_ne, List, [], ◌∷◌, ◌++◌, find-none_iff, update_if,
}
use mathlib.Core.List.{append_assoc, append-nil}
use ajan_orkestrasyonu.Core.Ids.{TaskId}
use ajan_orkestrasyonu.Core.TaskKind.{TaskKind}
use ajan_orkestrasyonu.Core.TaskState
use ajan_orkestrasyonu.Core.TaskState.{TaskState, «open», can_transition_to}
use ajan_orkestrasyonu.Core.TaskState.Legal.{Legal, can_transition_to-Legal}
use ajan_orkestrasyonu.Core.Task.{Task, TransitionReason}
use ajan_orkestrasyonu.Core.Trace.{TraceEvent, Detail, created, transitioned}
use ajan_orkestrasyonu.Db.Store.{Db, TaskRow}
use ajan_orkestrasyonu.Db.Tasks.{
  has_id, task_to_row, set_state, create_task, transition, assign, add_dep,
}
use ajan_orkestrasyonu.Db.Tasks.Rows.{find-update_self, find-update_ne, find-append, find-any}
use ajan_orkestrasyonu.Db.Tasks.Create.{created_event, create_task_cases}
use ajan_orkestrasyonu.Db.Tasks.Transition.{
  edge_event, Cases, transition-Cases, missing, corrupt, illegal, legal, transition_missing,
  transition_corrupt, transition_illegal, transition_legal,
}
use ajan_orkestrasyonu.Db.Tasks.Audit.{
  current, row_state, row_state-assign, IsOther, Step, create, move, give, block, append, elsewhere,
  Steps, here, next,
}

-- The event is not about the state of the task `id`.
abbrev pub IsSilent : TaskId → Option Detail → Type 0
IsSilent id (some (created j kind)) = j ≢ id
IsSilent id (some (transitioned j from to reason)) = j ≢ id
IsSilent id d = Unit

-- The specification: one event of the log with the state before it and the state after it. A task
-- that is not there appears, open; one that is there follows an edge of the diagram.
pub data Tells (id : TaskId) (e : TraceEvent) : Option TaskState → Option TaskState → Type 0 where
  silent : {s : Option TaskState} → IsSilent id e.detail → Tells id e s s
  appears : (kind : TaskKind) → e.detail ≡ some (created id kind) → Tells id e none (some «open»)
  follows :
      {s t : TaskState} (reason : TransitionReason)
      → Legal s t
      → e.detail ≡ some (transitioned id s t reason)
      → Tells id e (some s) (some t)

-- The states that a task goes through, one event at a time.
pub data Story (id : TaskId) (s : Option TaskState)
    : List TraceEvent → Option TaskState → Type 0 where
  starts : Story id s [] s
  tells :
      {es : List TraceEvent} {t u : Option TaskState} (e : TraceEvent)
      → Story id s es t
      → Tells id e t u
      → Story id s (es ++ (e ∷ [])) u

-- The log has grown by the events of a run of the machine from the one state to the other.
pub record Evolves (id : TaskId) (a b : Db) : Type 0 where
  pub events : List TraceEvent
  pub logged : b.trace_events ≡ a.trace_events ++ events
  pub story : Story id (current id a) events (current id b)

-- What an operation does: nothing to the log and the task, or one event that tells the change.
data Change (id : TaskId) (a b : Db) : Type 0 where
  still : b.trace_events ≡ a.trace_events → current id b ≡ current id a → Change id a b
  told :
      (e : TraceEvent)
      → b.trace_events ≡ a.trace_events ++ (e ∷ [])
      → Tells id e (current id a) (current id b)
      → Change id a b

created-Tells :
    (t : Task) (id : TaskId) (db : Db)
    → t.state ≡ «open»
    → any (has_id t.id) db.tasks ≡ false
    → Tells id
        (created_event t)
        (current id db)
        (row_state (find (has_id id) (db.tasks ++ (task_to_row t ∷ []))))
created-Tells t id db o free = elim (Bool-cases (t.id == id)) [
  | inl q ↦
      let same = text_eq t.id id q in
      let gone =
        subst (λ s. find (has_id s) db.tasks ≡ none) same
          ((find-none_iff (has_id t.id) db.tasks).1 free) in
      let before : current id db ≡ none = ap row_state gone in
      let after : row_state (find (has_id id) (db.tasks ++ (task_to_row t ∷ []))) ≡ some «open» =
        rw (find-append id db.tasks (task_to_row t), find-any id db.tasks)
          (ground (arith, gone, q, o, TaskState.of_str-as_str t.state)) in
      rw (before, after) (appears t.kind (ap (λ j. some (created j t.kind)) same))
  | inr q ↦
      let after : row_state (find (has_id id) (db.tasks ++ (task_to_row t ∷ []))) ≡ current id db =
        rw (find-append id db.tasks (task_to_row t), find-any id db.tasks) (ground (arith, q)) in
      rw after (silent (text_ne t.id id q))
]

create-Change :
    (t : Task) (id : TaskId) (db : Db) → t.state ≡ «open» → Change id db (create_task t db).1
create-Change t id db o = elim (create_task_cases t db) [
  | inl (e, p) ↦ rw p (still refl refl)
  | inr (free, p) ↦ rw p (told (created_event t) refl (created-Tells t id db o free))
]

moved-Tells :
    (id : TaskId) (to : TaskState) (reason : TransitionReason) (ts : ℕ) (db : Db) (row : TaskRow)
    (from : TaskState) (j : TaskId)
    → find (has_id id) db.tasks ≡ some row
    → TaskState.of_str row.state ≡ some from
    → Legal from to
    → Tells j
        (edge_event row id from to reason ts)
        (current j db)
        (row_state (find (has_id j) (update_if (has_id id) (set_state to ts) db.tasks)))
moved-Tells id to reason ts db row from j e d l = elim (Bool-cases (id == j)) [
  | inl q ↦
      let same = text_eq id j q in
      let before : current j db ≡ some from =
        ap row_state (subst (λ i. find (has_id i) db.tasks ≡ some row) same e) ∙ d in
      let found =
        subst
          (λ i.
            find (has_id i) (update_if (has_id id) (set_state to ts) db.tasks)
            ≡ some (set_state to ts row))
          same (find-update_self (set_state to ts) (λ r. refl) id db.tasks row e) in
      let after = ap row_state found ∙ TaskState.of_str-as_str to in
      rw (before, after) (follows reason l (ap (λ i. some (transitioned i from to reason)) same))
  | inr q ↦
      let after =
        ap row_state
          (find-update_ne (set_state to ts) (λ r. refl) id j db.tasks (text_ne id j q)) in
      rw after (silent (text_ne id j q))
]

move-Change :
    (id : TaskId) (to : TaskState) (reason : TransitionReason) (ts : ℕ) (j : TaskId) (db : Db)
    → Change j db (transition id to reason ts db).1
move-Change id to reason ts j db = go (transition-Cases id to db)
  where
    go : Cases id to db → Change j db (transition id to reason ts db).1
    go (missing e) = rw (transition_missing id to reason ts db e) (still refl refl)
    go (corrupt row e d) = rw (transition_corrupt id to reason ts db row e d) (still refl refl)
    go (illegal row from e d c) =
        rw (transition_illegal id to reason ts db row from e d c) (still refl refl)
    go (legal row from e d c) = rw (transition_legal id to reason ts db row from e d c) (
        told (edge_event row id from to reason ts) refl
          (moved-Tells id to reason ts db row from j e d (can_transition_to-Legal from to c)))

IsOther-IsSilent : (id : TaskId) (d : Option Detail) → IsOther d → IsSilent id d
IsOther-IsSilent id (some (created j kind)) o = absurd o
IsOther-IsSilent id (some (transitioned j from to reason)) o = absurd o
IsOther-IsSilent id none o = tt
IsOther-IsSilent id (some _) o = tt

Step-Change : (id : TaskId) {a b : Db} → Step a b → Change id a b
unfolding add_dep
Step-Change id {a} (create t o) = create-Change t id a o
Step-Change id {a} (move i to reason ts) = move-Change i to reason ts id a
Step-Change id {a} (give i agent worktree ts) =
    still (unfold assign in ground arith)
      (unfold assign in ground (arith, row_state-assign agent worktree ts i id a.tasks))
Step-Change id {a} (block i other) = still (ground arith) (ground arith)
Step-Change id {a} (append e o) = told e refl (silent (IsOther-IsSilent id e.detail o))
Step-Change id {a} (elsewhere c t e) = still e (ap (λ rows. row_state (find (has_id id) rows)) t)

-- The table refines the machine: over any operations, the log grows by the events of a run of it.
pub Steps-Evolves : (id : TaskId) {a b : Db} → Steps a b → Evolves id a b
Steps-Evolves id {a} here = record {
  events = [];
  logged = sym (append-nil a.trace_events);
  story = starts;
}
Steps-Evolves id {a} (next r st) =
    let before = Steps-Evolves id r in
    elim (Step-Change id st) [
      | still log same ↦ record {
        events = before.events;
        logged = log ∙ before.logged;
        story = subst (Story id (current id a) before.events) (sym same) before.story;
      }
      | told e log change ↦ record {
        events = before.events ++ (e ∷ []);
        logged =
            log
            ∙ ap (λ l. l ++ (e ∷ [])) before.logged
            ∙ append_assoc a.trace_events before.events (e ∷ []);
        story = tells e before.story change;
      }
    ]
