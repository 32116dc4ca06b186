-- ===== src/Daemon/Mcp/Claim.antt =====
-- Which task `claim_task` gives, and to whom (crates/divan-daemon/src/rpc.rs).
use ajan_orkestrasyonu.Prelude.{
  ℕ, ◌≡◌, refl, sym, ap, ◌∙◌, ◌↔◌, inl, inr, true, false, Option, none, some, String, map, find,
  arith, IsIn, find-map, find-map-none, find-IsIn, find-none_iff, any_of_none, same_iff, same,
  Option-cases, subst, ◌⊎◌, Result, ok, err, >>=-eq-ok,
}
use ajan_orkestrasyonu.Prelude.Order.{text_leb_refl, text_leb_total, text_leb_trans}
use ajan_orkestrasyonu.Prelude.Sort.{sort, sort-IsSorted, IsIn-sort, find-le}
use ajan_orkestrasyonu.Core.Ids.{AgentId, TaskId}
use ajan_orkestrasyonu.Core.TaskKind
use ajan_orkestrasyonu.Core.TaskKind.{TaskKind}
use ajan_orkestrasyonu.Core.TaskState
use ajan_orkestrasyonu.Core.TaskState.{TaskState, can_transition_to}
use ajan_orkestrasyonu.Core.Task.{Task, other}
use ajan_orkestrasyonu.Db.Store.{Db, TaskRow}
use ajan_orkestrasyonu.Db.Tasks.{
  has_id, row_to_task, row_le, get_task, list_tasks, assign, set_assignee, transition,
}
use ajan_orkestrasyonu.Db.Tasks.Rows.{find-update_self}
use ajan_orkestrasyonu.Db.Tasks.Transition.{transition_ok}
use ajan_orkestrasyonu.Daemon.Policy.{check, required_cap}
use ajan_orkestrasyonu.Daemon.Mcp.{
  McpError, relabel, on_store, store_error, parse_kind, is_claimable, take_task, claim_task,
}

row_le_refl : (a : TaskRow) → row_le a a ≡ true
row_le_refl a = ground (arith, text_leb_refl a.id)

row_le_total : (a b : TaskRow) → row_le a b ≡ false → row_le b a ≡ true
row_le_total a b h = ground (arith, text_leb_total a.id b.id)

row_le_trans : (a b c : TaskRow) → row_le a b ≡ true → row_le b c ≡ true → row_le a c ≡ true
row_le_trans a b c p q = ground (arith, text_leb_trans a.id b.id c.id)

-- An open task, of the kind that is asked for, if one is.
abbrev pub IsClaimable : Option TaskKind → Task → Type 0
IsClaimable kind t = (t.state ≡ TaskState.«open») × ((k : TaskKind) → kind ≡ some k → t.kind ≡ k)

pub is_claimable_iff :
    (kind : Option TaskKind) (t : Task) → (is_claimable kind t ≡ true) ↔ IsClaimable kind t
is_claimable_iff none t =
    let s = same_iff TaskState.discrete t.state TaskState.«open» in
    (λ h. (s.0 (ground arith), λ k e. cc), λ h. ground (arith, s.1 h.0))
is_claimable_iff (some k) t =
    let s = same_iff TaskState.discrete t.state TaskState.«open» in
    let q = same_iff TaskKind.discrete t.kind k in
    (
      λ h. (s.0 (ground arith), λ j e. ground (arith, q.0 (ground arith))),
      λ h. ground (arith, s.1 h.0, q.1 (h.1 k refl)),
    )

relabel_ok :
    {E A : Type 0} (f : E → McpError) (r : Result E A × Db) (a : A)
    → (relabel f r).0 ≡ ok a
    → (r.0 ≡ ok a) × ((relabel f r).1 ≡ r.1)
relabel_ok f (ok b, db) a h = (ground arith, refl)
relabel_ok f (err e, db) a h = cc

-- The task is stored as claimed by the agent.
abbrev pub IsClaimedBy : AgentId → TaskId → Db → Type 0
IsClaimedBy agent id db =
    (t : Task) × ((get_task id db).0 ≡ ok (some t))
    × (t.state ≡ TaskState.claimed)
    × (t.assignee ≡ some agent)

-- After an assignment that succeeds the task, if it is there, has the agent.
assigned :
    (id : TaskId) (agent : AgentId) (ts : ℕ) (db : Db) (t : Task)
    → (assign id agent none ts db).0 ≡ ok tt
    → (get_task id (assign id agent none ts db).1).0 ≡ ok (some t)
    → t.assignee ≡ some agent
unfolding assign get_task
assigned id agent ts db t h g = elim (Option-cases (find (has_id id) db.tasks)) [
  | inl e ↦ ground (arith, (find-none_iff (has_id id) db.tasks).0 e)
  | inr (row, e) ↦
      let found = find-update_self (set_assignee agent none ts) (λ r. refl) id db.tasks row e in
      ground arith
]

take_task_ok :
    (id : TaskId) (agent : AgentId) (now : ℕ → ℕ) (db : Db) (out : Option TaskId)
    → (take_task id agent now db).0 ≡ ok out
    → (out ≡ some id) × IsClaimedBy agent id (take_task id agent now db).1
take_task_ok id agent now db out h =
    let reason = other "claimed via MCP" in
    let give = on_store (assign id agent none (now 1)) in
    let move = on_store (transition id TaskState.claimed reason (now 2)) in
    let (u, h1, g1, q1) = >>=-eq-ok give _ db out h in
    let (given, at1) = relabel_ok store_error (assign id agent none (now 1) db) u h1 in
    let (v, h2, g2, q2) = >>=-eq-ok move _ (give db).1 out g1 in
    let (moved, at2) =
      relabel_ok store_error (transition id TaskState.claimed reason (now 2) (give db).1) v h2 in
    let m = transition_ok id TaskState.claimed reason (now 2) (give db).1 moved in
    let after = ap (λ r. r.1) q1 ∙ ap (λ r. r.1) q2 ∙ at2 in
    (
      ground arith,
      subst (IsClaimedBy agent id) (sym after) (
        record m.task { state = TaskState.claimed; updated_at = now 2 },
        m.is,
        refl,
        assigned id agent (now 1) db m.task given (ap (λ d. (get_task id d).0) (sym at1) ∙ m.was),
      ),
    )

-- A claim that succeeds with a task: the task was the oldest claimable one, ties by id, and it is
-- now stored as claimed by the agent. A claim that succeeds with none: no task was claimable, and
-- nothing has changed.
pub claim_task-oldest :
    (agent : AgentId) (kind : Option String) (now : ℕ → ℕ) (db : Db) (out : Option TaskId)
    → (claim_task (some agent) kind now db).0 ≡ ok out
    → ((row : TaskRow) × (out ≡ some row.id)
        × IsIn row db.tasks
        × IsClaimable (parse_kind kind) (row_to_task row)
        × ((r : TaskRow)
            → IsIn r db.tasks
            → IsClaimable (parse_kind kind) (row_to_task r)
            → row_le row r ≡ true)
        × IsClaimedBy agent row.id (claim_task (some agent) kind now db).1)
      ⊎ ((out ≡ none)
          × ((claim_task (some agent) kind now db).1 ≡ db)
          × ((r : TaskRow) → IsIn r db.tasks → IsClaimable (parse_kind kind) (row_to_task r) → ⊥))
unfolding claim_task check required_cap list_tasks
claim_task-oldest agent kind now db out h =
    let test = is_claimable (parse_kind kind) in
    let rows = sort row_le db.tasks in
    let sorted = sort-IsSorted row_le row_le_total row_le_trans db.tasks in
    elim (Option-cases (find test (map row_to_task rows))) [
      | inl e ↦
          let nothing = rw e at h in
          inr (
            ground arith,
            rw e refl,
            λ r i c.
                let no =
                  any_of_none (λ a. test (row_to_task a)) r rows
                    (find-map-none test row_to_task rows e) ((IsIn-sort row_le r db.tasks).1 i) in
                let yes = (is_claimable_iff (parse_kind kind) (row_to_task r)).1 c in cc,
          )
      | inr (t, e) ↦
          let (row, found, same) = find-map test row_to_task rows t e in
          let (here, ok_row) = find-IsIn (λ r. test (row_to_task r)) rows row found in
          let (q, done) = take_task_ok t.id agent now db out (rw e at h) in
          let id_same = ap (λ x. x.id) same in
          inl (
            row,
            q ∙ ap some id_same,
            (IsIn-sort row_le row db.tasks).0 here,
            (is_claimable_iff (parse_kind kind) (row_to_task row)).0 ok_row,
            (λ r i c.
                find-le row_le row_le_refl (λ a. test (row_to_task a)) rows row r sorted found
                  ((IsIn-sort row_le r db.tasks).1 i)
                  ((is_claimable_iff (parse_kind kind) (row_to_task r)).1 c)),
            rw (e, ← id_same) done,
          )
    ]
