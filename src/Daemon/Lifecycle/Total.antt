-- ===== src/Daemon/Lifecycle/Total.antt =====
-- When the reconciliation succeeds (crates/divan-daemon/src/lifecycle.rs).
use ajan_orkestrasyonu.Prelude.{
  ℕ, suc, ◌≡◌, refl, sym, ap, subst, ◌∙◌, inl, inr, Bool, true, false, Option, none, some, List, [],
  ◌∷◌, map, find, count_if, arith, All, All-get, Distinct, IsIn, IsIn-map, map-IsIn, Bool-cases,
  eq_refl, text_ne_false, ok, >>=-ok, map_or,
}
use ajan_orkestrasyonu.Prelude.Sort.{sort, insert, IsIn-sort}
use ajan_orkestrasyonu.Core.TaskState
use ajan_orkestrasyonu.Core.TaskState.{TaskState, can_transition_to}
use ajan_orkestrasyonu.Core.Task.{Task, orphaned}
use ajan_orkestrasyonu.Core.Agent.{AgentCard}
use ajan_orkestrasyonu.Core.AgentStatus.{AgentStatus}
use ajan_orkestrasyonu.Db.Store.{Db, TaskRow, insert_trace}
use ajan_orkestrasyonu.Db.Tasks.{
  has_id, row_to_task, row_le, set_state, write_state, transition, list_tasks,
}
use ajan_orkestrasyonu.Db.Tasks.Rows.{find-update_ne}
use ajan_orkestrasyonu.Db.Tasks.Transition.{transition_legal, edge_event}
use ajan_orkestrasyonu.Db.Agents.{list_agents, agent_le}
use ajan_orkestrasyonu.Daemon.Lifecycle.{is_active, fail_orphans, retire_agents, reconcile}
use ajan_orkestrasyonu.Daemon.Lifecycle.Reconciled.{
  is_orphan, reconcile_ok, retire_agents_ok, present,
}

module _ {A B : Type 0} (le : A → A → Bool) (f : A → B) where
  All-insert :
      (P : B → Type 0) (x : A) (xs : List A)
      → P (f x)
      → All P (map f xs)
      → All P (map f (insert le x xs))
  All-insert P x [] p h = (p, tt)
  All-insert P x (y ∷ xs) p h = elim (Bool-cases (le x y)) [
    | inl e ↦ rw e (p, h)
    | inr e ↦ rw e (h.0, All-insert P x xs p h.1)
  ]

  Distinct-insert :
      (x : A) (xs : List A)
      → All (λ b. f x ≡ b → ⊥) (map f xs)
      → Distinct (map f xs)
      → Distinct (map f (insert le x xs))
  Distinct-insert x [] a d = (tt, tt)
  Distinct-insert x (y ∷ xs) a d = elim (Bool-cases (le x y)) [
    | inl e ↦ rw e (a, d)
    | inr e ↦
        rw e
          (All-insert (λ b. f y ≡ b → ⊥) x xs (λ q. a.0 (sym q)) d.0, Distinct-insert x xs a.1 d.1)
  ]

  All-sort : (P : B → Type 0) (xs : List A) → All P (map f xs) → All P (map f (sort le xs))
  All-sort P [] h = tt
  All-sort P (x ∷ xs) h = All-insert P x (sort le xs) h.0 (All-sort P xs h.1)

  Distinct-sort : (xs : List A) → Distinct (map f xs) → Distinct (map f (sort le xs))
  Distinct-sort [] d = tt
  Distinct-sort (x ∷ xs) d =
      Distinct-insert x (sort le xs) (All-sort (λ b. f x ≡ b → ⊥) xs d.0) (Distinct-sort xs d.1)

-- With distinct ids each row is found under its id.
find-Distinct :
    (r : TaskRow) (rows : List TaskRow)
    → Distinct (map (λ x. x.id) rows)
    → IsIn r rows
    → find (has_id r.id) rows ≡ some r
find-Distinct r [] d i = absurd i
find-Distinct r (x ∷ rows) d i = elim i [
  | inl e ↦ rw e (rw (eq_refl x.id) refl)
  | inr j ↦
      let ne = text_ne_false x.id r.id (
        All-get (λ b. x.id ≡ b → ⊥) r.id (map (λ y. y.id) rows) d.0
          (map-IsIn (λ (y : TaskRow). y.id) r rows j)) in
      rw ne (find-Distinct r rows d.1 j)
]

-- Every active task of the list is stored in an active state.
abbrev IsReady : List Task → Db → Type 0
IsReady tasks db =
    (t : Task)
    → IsIn t tasks
    → is_active t.state ≡ true
    → (row : TaskRow) × (s : TaskState) × (find (has_id t.id) db.tasks ≡ some row)
      × (TaskState.of_str row.state ≡ some s)
      × (is_active s ≡ true)

active_fails : (s : TaskState) → is_active s ≡ true → can_transition_to s TaskState.failed ≡ true
unfolding can_transition_to
active_fails s h = ground arith

fail_orphans_total :
    (tasks : List Task) (now : ℕ → ℕ) (k : ℕ) (db : Db)
    → Distinct (map (λ t. t.id) tasks)
    → IsReady tasks db
    → (n : ℕ) × (after : Db) × (fail_orphans tasks now k db ≡ (ok n, after))
unfolding fail_orphans
fail_orphans_total [] now k db d r = (0, db, refl)
fail_orphans_total (t ∷ tasks) now k db d r = elim (Bool-cases (is_active t.state)) [
  | inr e ↦
      let (n, after, q) = fail_orphans_total tasks now k db d.1 (λ u i. r u (inr i)) in
      (n, after, rw e q)
  | inl e ↦
      let (row, s, found, read, live) = r t (inl refl) e in
      let moved =
        insert_trace (edge_event row t.id s TaskState.failed orphaned (now k))
          (write_state t.id TaskState.failed (now k) db) in
      let one =
        transition_legal t.id TaskState.failed orphaned (now k) db row s found read
          (active_fails s live) in
      let ready : IsReady tasks moved = λ u i a.
        let (row', s', found', read', live') = r u (inr i) a in
        let ne =
          All-get (λ b. t.id ≡ b → ⊥) u.id (map (λ y. y.id) tasks) d.0
            (map-IsIn (λ (y : Task). y.id) u tasks i) in
        (
          row',
          s',
          find-update_ne (set_state TaskState.failed (now k)) (λ x. refl) t.id u.id db.tasks ne
              ∙ found',
          read',
          live',
        ) in
      let (n, after, q) = fail_orphans_total tasks now (suc k) moved d.1 ready in
      (
        suc n,
        after,
        rw e (
            >>=-ok (transition t.id TaskState.failed orphaned (now k)) _ db moved tt one
            ∙ >>=-ok (fail_orphans tasks now (suc k)) _ moved after n q),
      )
]

read_active :
    (o : Option TaskState)
    → is_active (map_or TaskState.«open» (λ s. s) o) ≡ true
    → (s : TaskState) × (o ≡ some s) × (is_active s ≡ true)
read_active none h = cc
read_active (some s) h = (s, refl, h)

map-map_id : (rows : List TaskRow) → map (λ t. t.id) (map row_to_task rows) ≡ map (λ r. r.id) rows
map-map_id [] = refl
map-map_id (r ∷ rows) = ap (λ l. r.id ∷ l) (map-map_id rows)

-- If the ids of the tasks are distinct, as the primary key makes them, the reconciliation succeeds.
-- It returns the number of tasks that were stored as claimed, working or in review, and leaves no
-- task stored so and no agent that is not offline.
pub reconcile_total :
    (now : ℕ → ℕ) (db : Db)
    → Distinct (map (λ r. r.id) db.tasks)
    → (n : ℕ) × (after : Db) × (reconcile now db ≡ (ok n, after))
      × (n ≡ count_if is_orphan db.tasks)
      × ((r : TaskRow) → IsIn r after.tasks → is_orphan r ≡ false)
      × ((a : AgentCard) → IsIn a after.agents → a.status ≡ AgentStatus.offline)
unfolding reconcile list_tasks list_agents
reconcile_total now db d =
    let rows = sort row_le db.tasks in
    let tasks = map row_to_task rows in
    let distinct = Distinct-sort row_le (λ (r : TaskRow). r.id) db.tasks d in
    let ready : IsReady tasks db = λ t i a.
      let (row, j, e) = IsIn-map row_to_task t rows i in
      let stored = find-Distinct row db.tasks d ((IsIn-sort row_le row db.tasks).0 j) in
      let (s, q, live) = read_active (TaskState.of_str row.state) (rw e at a) in
      (row, s, rw e stored, q, live) in
    let (n, failed, q) = fail_orphans_total tasks now 0 db (rw (map-map_id rows) distinct) ready in
    let (after, retired, same, off) =
      retire_agents_ok (sort agent_le failed.agents) failed (present failed.agents) in
    let done : reconcile now db ≡ (ok n, after) =
      >>=-ok (fail_orphans tasks now 0) _ db failed n q
      ∙ >>=-ok (retire_agents (sort agent_le failed.agents)) _ failed after tt retired in
    let (count, settled, offline) = reconcile_ok now db n (ap (λ r. r.0) done) in
    (
      n,
      after,
      done,
      count,
      (λ r i. settled r (subst (λ x. IsIn r x.1.tasks) (sym done) i)),
      λ a i. offline a (subst (λ x. IsIn a x.1.agents) (sym done) i),
    )
