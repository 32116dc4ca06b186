-- ===== src/Daemon/Handlers/Working.antt =====
-- The worktree that an agent works in (crates/divan-daemon/src/rpc.rs).
use ajan_orkestrasyonu.Prelude.{
  holds_iff, List, [], ◌∷◌, All, find, map_or, Option-cases, same_iff, arith, ◌≡◌, refl, ◌⊎◌, inl,
  inr, true, false, Bool-cases, sym, ◌∙◌, Option, none, some, String, ◌∙◌, sym,
}
use ajan_orkestrasyonu.Core.Ids.{AgentId}
use ajan_orkestrasyonu.Core.TaskState
use ajan_orkestrasyonu.Core.Task.{Task}
use ajan_orkestrasyonu.Daemon.Handlers.{is_worked_by}

-- The agent works on the task in the worktree.
abbrev pub WorksIn : AgentId → String → Task → Type 0
WorksIn agent worktree t =
    (t.assignee ≡ some agent) × (t.state ≡ TaskState.working) × (t.worktree ≡ some worktree)

abbrev pub IsIdle : AgentId → Task → Type 0
IsIdle agent t = (worktree : String) → ¬ WorksIn agent worktree t

-- The agent works on none of the tasks in a worktree.
abbrev pub IsUnbound : AgentId → List Task → Type 0
IsUnbound agent tasks = All (IsIdle agent) tasks

-- The first of the tasks that the agent works on in a worktree is in this one.
abbrev pub IsBound : AgentId → String → List Task → Type 0
IsBound agent worktree [] = ⊥
IsBound agent worktree (t ∷ tasks) =
    WorksIn agent worktree t ⊎ (IsIdle agent t × IsBound agent worktree tasks)

abbrev pub first_worktree : AgentId → List Task → Option String
first_worktree agent tasks = map_or none (λ t. t.worktree) (find (is_worked_by agent) tasks)

worked-WorksIn :
    (agent : AgentId) (t : Task)
    → is_worked_by agent t ≡ true
    → (worktree : String) × WorksIn agent worktree t
worked-WorksIn agent t h = elim (Option-cases t.worktree) [
  | inl e ↦ ground arith
  | inr (wt, e) ↦ (
    wt,
    (
      (holds_iff t.assignee agent).0 (ground arith),
      (same_iff TaskState.discrete t.state TaskState.working).0 (ground arith),
      e,
    ),
  )
]

WorksIn-worked :
    (agent : AgentId) (worktree : String) (t : Task)
    → WorksIn agent worktree t
    → is_worked_by agent t ≡ true
WorksIn-worked agent worktree t (a, s, w) = ground (
  arith,
  (holds_iff t.assignee agent).1 a,
  (same_iff TaskState.discrete t.state TaskState.working).1 s,
  w,
)

idle : (agent : AgentId) (t : Task) → is_worked_by agent t ≡ false → IsIdle agent t
idle agent t h worktree w = cc (sym h ∙ WorksIn-worked agent worktree t w)

IsIdle-worked : (agent : AgentId) (t : Task) → IsIdle agent t → is_worked_by agent t ≡ false
IsIdle-worked agent t h = elim (Bool-cases (is_worked_by agent t)) [
  | inl e ↦ let (wt, w) = worked-WorksIn agent t e in absurd (h wt w)
  | inr e ↦ e
]

pub IsUnbound-first :
    (agent : AgentId) (tasks : List Task)
    → IsUnbound agent tasks
    → first_worktree agent tasks ≡ none
IsUnbound-first agent [] u = refl
IsUnbound-first agent (t ∷ tasks) (i, u) =
    rw (IsIdle-worked agent t i) (IsUnbound-first agent tasks u)

pub IsBound-first :
    (agent : AgentId) (worktree : String) (tasks : List Task)
    → IsBound agent worktree tasks
    → first_worktree agent tasks ≡ some worktree
IsBound-first agent worktree [] b = absurd b
IsBound-first agent worktree (t ∷ tasks) (inl w) = rw (WorksIn-worked agent worktree t w) w.2
IsBound-first agent worktree (t ∷ tasks) (inr (i, b)) =
    rw (IsIdle-worked agent t i) (IsBound-first agent worktree tasks b)

pub first_cases :
    (agent : AgentId) (tasks : List Task)
    → (IsUnbound agent tasks × (first_worktree agent tasks ≡ none))
      ⊎ ((worktree : String) × IsBound agent worktree tasks
          × (first_worktree agent tasks ≡ some worktree))
first_cases agent [] = inl (tt, refl)
first_cases agent (t ∷ tasks) = elim (Bool-cases (is_worked_by agent t)) [
  | inl e ↦ let (wt, w) = worked-WorksIn agent t e in inr (wt, inl w, rw e w.2)
  | inr e ↦ elim (first_cases agent tasks) [
    | inl (u, n) ↦ inl ((idle agent t e, u), rw e n)
    | inr (wt, b, n) ↦ inr (wt, inr (idle agent t e, b), rw e n)
  ]
]
