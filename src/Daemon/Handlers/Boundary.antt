-- ===== src/Daemon/Handlers/Boundary.antt =====
-- The write boundary that the hook of a tool enforces (crates/divan-daemon/src/rpc.rs).
use ajan_orkestrasyonu.Prelude.{
  List, ok, ℕ, ◌≡◌, refl, ◌⊎◌, inl, inr, true, false, Bool-cases, sym, ◌∙◌, subst, eq_refl, Option,
  none, some, String, ◌==◌, text_eq, eq_refl, subst, ◌∙◌, sym,
}
use ajan_orkestrasyonu.Core.Ids.{AgentId}
use ajan_orkestrasyonu.Core.Capability
use ajan_orkestrasyonu.Core.Task.{Task}
use ajan_orkestrasyonu.Db.Tasks.{list_tasks}
use ajan_orkestrasyonu.Db.Store.{Db}
use ajan_orkestrasyonu.Daemon.Paths.{FilePath, path_within}
use ajan_orkestrasyonu.Daemon.Policy.{PolicyDenied, check_write}
use ajan_orkestrasyonu.Daemon.Policy.Checks.{Holds, Decides, denial, check_write_exact}
use ajan_orkestrasyonu.Daemon.Handlers.{Verdict, verdict, active_worktree, enforce, hook_pretooluse}
use ajan_orkestrasyonu.Daemon.Handlers.Working.{
  IsUnbound, IsBound, first_worktree, IsUnbound-first, IsBound-first, first_cases,
}

module _ (read : String → FilePath) (cwd : FilePath) where
  -- Writing inside the worktree, with the capability.
  abbrev pub Inside : AgentId → String → String → Db → Type 0
  Inside agent path worktree db =
      Holds agent Capability.write db × (path_within cwd (read path) (read worktree) ≡ true)

  -- The same in the words of the code.
  abbrev CodePermits : AgentId → String → Db → Type 0
  CodePermits agent path db =
      (path ≡ "")
      ⊎ ((active_worktree agent db ≡ none)
          ⊎ ((worktree : String) × (active_worktree agent db ≡ some worktree)
              × Inside agent path worktree db))

  -- Allowed with the database as it was, or refused with the one event of the denial.
  abbrev pub Bounded : Type 0 → Verdict × Db → ℕ → Db → Type 0
  Bounded Allowed r ts db =
      ((r.0.allow ≡ true) × (r.1 ≡ db) × Allowed)
      ⊎ ((d : PolicyDenied) × (r.0 ≡ record { allow = false; reason = some d.reason })
          × (r.1 ≡ denial d ts db)
          × ¬ Allowed)

  outside :
      (agent : AgentId) (path worktree : String) (db : Db)
      → (path == "") ≡ false
      → active_worktree agent db ≡ some worktree
      → ¬ Inside agent path worktree db
      → ¬ CodePermits agent path db
  outside agent path worktree db p w h (inl q) =
      cc (sym (subst (λ x. (x == "") ≡ false) q p) ∙ eq_refl "")
  outside agent path worktree db p w h (inr (inl q)) = cc (sym w ∙ q)
  outside agent path worktree db p w h (inr (inr (other, q, i))) =
      let e : other ≡ worktree = cc (sym q ∙ w) in h (subst (λ x. Inside agent path x db) e i)

  decided :
      (agent : AgentId) (path worktree : String) (ts : ℕ) (db : Db)
      → (path == "") ≡ false
      → active_worktree agent db ≡ some worktree
      → Decides
          (Inside agent path worktree db)
          (check_write cwd agent (read path) (read worktree) ts db)
          ts
          db
      → Bounded
          (CodePermits agent path db)
          (verdict (check_write cwd agent (read path) (read worktree) ts db))
          ts
          db
  decided agent path worktree ts db p w (inl (e, h)) =
      rw e (inl (refl, refl, inr (inr (worktree, w, h))))
  decided agent path worktree ts db p w (inr (d, e, h)) =
      rw e (inr (d, refl, refl, outside agent path worktree db p w h))

  bounded :
      (agent : AgentId) (path : String) (ts : ℕ) (db : Db) (o : Option String)
      → (path == "") ≡ false
      → active_worktree agent db ≡ o
      → Bounded (CodePermits agent path db) (enforce read cwd o agent path ts db) ts db
  bounded agent path ts db none p w = inl (refl, refl, inr (inl w))
  bounded agent path ts db (some worktree) p w =
      decided agent path worktree ts db p w
        (check_write_exact cwd agent (read path) (read worktree) ts db)

  code-Bounded :
      (agent : AgentId) (path : String) (ts : ℕ) (db : Db)
      → Bounded (CodePermits agent path db) (hook_pretooluse read cwd agent path ts db) ts db
  unfolding hook_pretooluse
  code-Bounded agent path ts db = elim (Bool-cases (path == "")) [
    | inl e ↦ rw e (inl (refl, refl, inl (text_eq path "" e)))
    | inr e ↦ rw e (bounded agent path ts db (active_worktree agent db) e refl)
  ]

  -- There is no path, or the agent works in no worktree, or the write is inside the worktree of the
  -- first task that the agent works on in one.
  abbrev pub Permitted : AgentId → String → List Task → Db → Type 0
  Permitted agent path tasks db =
      (path ≡ "")
      ⊎ (IsUnbound agent tasks
          ⊎ ((worktree : String) × IsBound agent worktree tasks × Inside agent path worktree db))

  permits :
      (agent : AgentId) (path : String) (tasks : List Task) (db : Db)
      → active_worktree agent db ≡ first_worktree agent tasks
      → CodePermits agent path db
      → Permitted agent path tasks db
  permits agent path tasks db w (inl e) = inl e
  permits agent path tasks db w (inr (inl n)) = elim (first_cases agent tasks) [
    | inl (u, e) ↦ inr (inl u)
    | inr (wt, b, e) ↦ cc (sym n ∙ w ∙ e)
  ]
  permits agent path tasks db w (inr (inr (wt, n, i))) = elim (first_cases agent tasks) [
    | inl (u, e) ↦ cc (sym n ∙ w ∙ e)
    | inr (other, b, e) ↦
        let same : other ≡ wt = cc (sym e ∙ sym w ∙ n) in
        inr (inr (wt, subst (λ x. IsBound agent x tasks) same b, i))
  ]

  permitted :
      (agent : AgentId) (path : String) (tasks : List Task) (db : Db)
      → active_worktree agent db ≡ first_worktree agent tasks
      → Permitted agent path tasks db
      → CodePermits agent path db
  permitted agent path tasks db w (inl e) = inl e
  permitted agent path tasks db w (inr (inl u)) = inr (inl (w ∙ IsUnbound-first agent tasks u))
  permitted agent path tasks db w (inr (inr (wt, b, i))) =
      inr (inr (wt, w ∙ IsBound-first agent wt tasks b, i))

  -- The hook allows a write exactly when it names no path, or the agent works on no task that has a
  -- worktree, or the agent holds the write capability and the path is inside the worktree of the
  -- first listed task that is working, is assigned to the agent and has a worktree. When it allows,
  -- it leaves the database as it is; otherwise it refuses with the reason of the policy and appends
  -- the one event of that denial.
  pub hook_pretooluse_exact :
      (agent : AgentId) (path : String) (ts : ℕ) (tasks : List Task) (db : Db)
      → (list_tasks db).0 ≡ ok tasks
      → Bounded (Permitted agent path tasks db) (hook_pretooluse read cwd agent path ts db) ts db
  unfolding active_worktree
  hook_pretooluse_exact agent path ts tasks db h =
      let w : active_worktree agent db ≡ first_worktree agent tasks = rw h refl in
      elim (code-Bounded agent path ts db) [
        | inl (a, e, p) ↦ inl (a, e, permits agent path tasks db w p)
        | inr (d, v, e, n) ↦ inr (d, v, e, λ p. n (permitted agent path tasks db w p))
      ]
