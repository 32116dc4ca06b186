-- ===== src/Daemon/Lifecycle/Reconciled.antt =====
-- What holds after the reconciliation (crates/divan-daemon/src/lifecycle.rs).
use ajan_orkestrasyonu.Core.TaskState
use ajan_orkestrasyonu.Prelude.{
  ◌==◌, ◌||◌, String, map_or, ℕ, suc, ◌≡◌, refl, sym, ap, ◌∙◌, subst, inl, inr, Bool, true, false,
  List, [], ◌∷◌, map, count_if, update_if, arith, none, count_if-map, IsIn, IsIn-update_if,
  map-IsIn, Bool-cases, same_iff, eq_iff, ok, >>=-eq-ok, >>=-ok,
}
use ajan_orkestrasyonu.Prelude.Sort.{sort, IsIn-sort, count_if-sort}
use ajan_orkestrasyonu.Core.Ids.{TaskId}
use ajan_orkestrasyonu.Core.TaskState.{TaskState}
use ajan_orkestrasyonu.Core.Task.{Task, TransitionReason, orphaned}
use ajan_orkestrasyonu.Core.Agent.{AgentCard}
use ajan_orkestrasyonu.Core.AgentStatus
use ajan_orkestrasyonu.Db.Store.{Db, TaskRow}
use ajan_orkestrasyonu.Db.Tasks.{has_id, row_to_task, row_le, set_state, transition, list_tasks}
use ajan_orkestrasyonu.Db.Tasks.Transition.{
  Cases, transition-Cases, missing, corrupt, illegal, legal, transition_missing, transition_corrupt,
  transition_illegal, transition_legal,
}
use ajan_orkestrasyonu.Db.Agents.{list_agents, agent_le, is_agent, set_status, set_agent_status}
use ajan_orkestrasyonu.Daemon.Lifecycle.{
  is_active, fail_orphans, is_offline, retire_agents, reconcile,
}

-- A transition that succeeds writes the task rows and leaves the agents.
transition_writes :
    (id : TaskId) (to : TaskState) (reason : TransitionReason) (ts : ℕ) (db : Db)
    → (transition id to reason ts db).0 ≡ ok tt
    → ((transition id to reason ts db).1.tasks ≡ update_if (has_id id) (set_state to ts) db.tasks)
      × ((transition id to reason ts db).1.agents ≡ db.agents)
transition_writes id to reason ts db h = go (transition-Cases id to db)
  where
    go :
        Cases id to db
        → ((transition id to reason ts db).1.tasks
            ≡ update_if (has_id id) (set_state to ts) db.tasks)
          × ((transition id to reason ts db).1.agents ≡ db.agents)
    go (missing e) = cc (transition_missing id to reason ts db e)
    go (corrupt row e d) = cc (transition_corrupt id to reason ts db row e d)
    go (illegal row from e d c) = cc (transition_illegal id to reason ts db row from e d c)
    go (legal row from e d c) = rw (transition_legal id to reason ts db row from e d c) (refl, refl)

abbrev pub active_row : TaskRow → Bool
active_row r = is_active (row_to_task r).state

-- Every active row has its task in the list, as active.
abbrev IsListed : List Task → List TaskRow → Type 0
IsListed tasks rows =
    (r : TaskRow)
    → IsIn r rows
    → active_row r ≡ true
    → (t : Task) × IsIn t tasks × (is_active t.state ≡ true) × (t.id ≡ r.id)

IsListed-step :
    (t : Task) (tasks : List Task) (ts : ℕ) (rows : List TaskRow)
    → IsListed (t ∷ tasks) rows
    → IsListed tasks (update_if (has_id t.id) (set_state TaskState.failed ts) rows)
IsListed-step t tasks ts rows l r i a =
    elim (IsIn-update_if (has_id t.id) (set_state TaskState.failed ts) r rows i) [
      | inl (j, ne) ↦
          let (u, k, live, same) = l r j a in
          elim k [ inl e ↦ ground (arith, eq_iff r.id t.id) | inr m ↦ (u, m, live, same) ]
      | inr (x, j, q, e) ↦ cc (ap active_row e)
    ]

IsListed-skip :
    (t : Task) (tasks : List Task) (rows : List TaskRow)
    → is_active t.state ≡ false
    → IsListed (t ∷ tasks) rows
    → IsListed tasks rows
IsListed-skip t tasks rows idle l r i a =
    let (u, k, live, same) = l r i a in
    elim k [ inl e ↦ cc (ap (λ x. is_active x.state) e) | inr m ↦ (u, m, live, same) ]

fail_orphans_ok :
    (tasks : List Task) (now : ℕ → ℕ) (k : ℕ) (db : Db) (n : ℕ)
    → (fail_orphans tasks now k db).0 ≡ ok n
    → IsListed tasks db.tasks
    → (n ≡ count_if (λ t. is_active t.state) tasks)
      × ((fail_orphans tasks now k db).1.agents ≡ db.agents)
      × ((r : TaskRow) → IsIn r (fail_orphans tasks now k db).1.tasks → active_row r ≡ false)
unfolding fail_orphans
fail_orphans_ok [] now k db n h l = (
  ground arith,
  refl,
  λ r i. elim (Bool-cases (active_row r)) [ inl a ↦ absurd ((l r i a).1) | inr a ↦ a ],
)
fail_orphans_ok (t ∷ tasks) now k db n h l = elim (Bool-cases (is_active t.state)) [
  | inr e ↦ rw e (fail_orphans_ok tasks now k db n (rw e at h) (IsListed-skip t tasks db.tasks e l))
  | inl e ↦
      let move = transition t.id TaskState.failed orphaned (now k) in
      let (u, h1, g1, q1) = >>=-eq-ok move _ db n (rw e at h) in
      let (rows, agents) = transition_writes t.id TaskState.failed orphaned (now k) db h1 in
      let (m, h2, g2, q2) = >>=-eq-ok (fail_orphans tasks now (suc k)) _ (move db).1 n g1 in
      let (count, kept, settled) =
        fail_orphans_ok tasks now (suc k) (move db).1 m h2
          (subst (IsListed tasks) (sym rows) (IsListed-step t tasks (now k) db.tasks l)) in
      let after = ap (λ r. r.1) q1 ∙ ap (λ r. r.1) q2 in
      (
        ground (arith, count),
        rw e (ap (λ d. d.agents) after ∙ kept ∙ agents),
        λ r i. settled r (subst (λ d. IsIn r d.tasks) after (rw e at i)),
      )
]

-- Every agent that is not offline is in the list, as not offline.
abbrev pub IsPresent : List AgentCard → List AgentCard → Type 0
IsPresent cards agents =
    (a : AgentCard)
    → IsIn a agents
    → is_offline a ≡ false
    → (c : AgentCard) × IsIn c cards × (is_offline c ≡ false) × (c.id ≡ a.id)

IsPresent-step :
    (c : AgentCard) (cards agents : List AgentCard)
    → IsPresent (c ∷ cards) agents
    → IsPresent cards (update_if (is_agent c.id) (set_status AgentStatus.offline none) agents)
unfolding AgentStatus.discrete
IsPresent-step c cards agents l a i live =
    elim (IsIn-update_if (is_agent c.id) (set_status AgentStatus.offline none) a agents i) [
      | inl (j, ne) ↦
          let (d, k, awake, same) = l a j live in
          elim k [ inl e ↦ ground (arith, eq_iff a.id c.id) | inr m ↦ (d, m, awake, same) ]
      | inr (x, j, q, e) ↦ cc (ap is_offline e)
    ]

IsPresent-skip :
    (c : AgentCard) (cards agents : List AgentCard)
    → is_offline c ≡ true
    → IsPresent (c ∷ cards) agents
    → IsPresent cards agents
IsPresent-skip c cards agents off l a i live =
    let (d, k, awake, same) = l a i live in
    elim k [ inl e ↦ cc (ap is_offline e) | inr m ↦ (d, m, awake, same) ]

pub retire_agents_ok :
    (cards : List AgentCard) (db : Db)
    → IsPresent cards db.agents
    → (after : Db) × (retire_agents cards db ≡ (ok tt, after))
      × (after.tasks ≡ db.tasks)
      × ((a : AgentCard) → IsIn a after.agents → is_offline a ≡ true)
unfolding retire_agents set_agent_status
retire_agents_ok [] db l = (
  db,
  refl,
  refl,
  λ a i. elim (Bool-cases (is_offline a)) [ inl e ↦ e | inr e ↦ absurd ((l a i e).1) ],
)
retire_agents_ok (c ∷ cards) db l = elim (Bool-cases (is_offline c)) [
  | inl e ↦ rw e (retire_agents_ok cards db (IsPresent-skip c cards db.agents e l))
  | inr e ↦
      let (after, done, kept, off) =
        retire_agents_ok cards
          (record db {
            agents = update_if (is_agent c.id) (set_status AgentStatus.offline none) db.agents;
          })
          (IsPresent-step c cards db.agents l) in
      (after, rw e done, kept, off)
]

pub present : (agents : List AgentCard) → IsPresent (sort agent_le agents) agents
present agents a i live = (a, (IsIn-sort agent_le a agents).1 i, live, refl)

-- A row whose stored word is one of the three.
abbrev pub is_orphan : TaskRow → Bool
is_orphan r = r.state == "claimed" || (r.state == "working" || r.state == "review")

read_active : String → Bool
read_active s = is_active (map_or TaskState.«open» (λ t. t) (TaskState.of_str s))

spelled : String → Bool
spelled s = s == "claimed" || (s == "working" || s == "review")

-- The two tests agree at every word that is read, and at all others.
read_active-spelled : (s : String) → read_active s ≡ spelled s
unfolding read_active spelled
read_active-spelled s = elim (Bool-cases (s == "open")) [
  | inl e ↦ rw ((eq_iff s "open").0 e) refl
  | inr n1 ↦ elim (Bool-cases (s == "claimed")) [
    | inl e ↦ rw ((eq_iff s "claimed").0 e) refl
    | inr n2 ↦ elim (Bool-cases (s == "working")) [
      | inl e ↦ rw ((eq_iff s "working").0 e) refl
      | inr n3 ↦ elim (Bool-cases (s == "review")) [
        | inl e ↦ rw ((eq_iff s "review").0 e) refl
        | inr n4 ↦ ground arith
      ]
    ]
  ]
]

active_row-is_orphan : (r : TaskRow) → active_row r ≡ is_orphan r
unfolding read_active spelled
active_row-is_orphan r = read_active-spelled r.state

count-is_orphan : (rows : List TaskRow) → count_if active_row rows ≡ count_if is_orphan rows
count-is_orphan [] = refl
count-is_orphan (r ∷ rows) = rw (active_row-is_orphan r, count-is_orphan rows) refl

-- A reconciliation that succeeds returns the number of tasks that were stored as claimed, working
-- or in review, and leaves no task stored so and no agent that is not offline.
pub reconcile_ok :
    (now : ℕ → ℕ) (db : Db) (n : ℕ)
    → (reconcile now db).0 ≡ ok n
    → (n ≡ count_if is_orphan db.tasks)
      × ((r : TaskRow) → IsIn r (reconcile now db).1.tasks → is_orphan r ≡ false)
      × ((a : AgentCard) → IsIn a (reconcile now db).1.agents → a.status ≡ AgentStatus.offline)
unfolding reconcile list_tasks list_agents
reconcile_ok now db n h =
    let tasks = map row_to_task (sort row_le db.tasks) in
    let agents = sort agent_le (fail_orphans tasks now 0 db).1.agents in
    let (m, h1, g1, q1) = >>=-eq-ok (fail_orphans tasks now 0) _ db n h in
    let failed = (fail_orphans tasks now 0 db).1 in
    let (count, kept, settled) = fail_orphans_ok tasks now 0 db m h1 (listed db.tasks) in
    let (after, retired, same, off) = retire_agents_ok agents failed (present failed.agents) in
    let done = q1 ∙ >>=-ok (retire_agents agents) _ failed after tt retired in
    let counted = count_if-map (λ t. is_active t.state) row_to_task (sort row_le db.tasks) in
    let sorted = count_if-sort row_le active_row db.tasks in
    (
      ground (arith, count, counted, sorted, count-is_orphan db.tasks, ap (λ r. r.0) done),
      (λ r i.
          sym (active_row-is_orphan r)
          ∙ settled r (subst (λ l. IsIn r l) (ap (λ d. d.1.tasks) done ∙ same) i)),
      λ a i.
          (same_iff AgentStatus.discrete a.status AgentStatus.offline).0
            (off a (subst (λ d. IsIn a d.1.agents) done i)),
    )
  where
    listed : (rows : List TaskRow) → IsListed (map row_to_task (sort row_le rows)) rows
    listed rows r i a = (
      row_to_task r,
      map-IsIn row_to_task r (sort row_le rows) ((IsIn-sort row_le r rows).1 i),
      a,
      refl,
    )
