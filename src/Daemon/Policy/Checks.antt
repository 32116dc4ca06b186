-- ===== src/Daemon/Policy/Checks.antt =====
-- What the policy checks allow, and what they record (crates/divan-daemon/src/policy.rs).
use ajan_orkestrasyonu.Prelude.{
  ℕ, ◌≤◌, ◌≡◌, refl, ap, subst, ◌↔◌, ◌⊎◌, inl, inr, true, false, Option, none, some, ◌==◌, eq_iff,
  arith, find, IsIn, IsIn-of_any, any_of_IsIn, same, same_iff, Result, ok, err, Option-cases,
  Bool-cases, ltb, text_ne,
}
use ajan_orkestrasyonu.Core.Ids.{AgentId}
use ajan_orkestrasyonu.Core.Capability
use ajan_orkestrasyonu.Core.Capability.{Capability}
use ajan_orkestrasyonu.Core.Agent.{AgentCard, CostClass, has}
use ajan_orkestrasyonu.Core.TraceEventKind.{policy_denied}
use ajan_orkestrasyonu.Core.Trace.{new, with_data, denied}
use ajan_orkestrasyonu.Db.Store.{Db, insert_trace}
use ajan_orkestrasyonu.Db.Agents.{get_agent, is_agent}
use ajan_orkestrasyonu.Daemon.Paths.{FilePath, path_within}
use ajan_orkestrasyonu.Daemon.Policy.{
  Action, required_cap, PolicyDenied, has_cap, check, check_write, check_kill, check_spawn,
  caller_cost, check_cap, refusal, action_str, lacks, owned_by, outside, too_expensive,
}

-- The agent is registered with the capability.
pub record Holds (agent : AgentId) (needed : Capability) (db : Db) : Type 0 where
  pub card : AgentCard
  pub registered : (get_agent agent db).0 ≡ ok (some card)
  pub granted : IsIn needed card.capabilities

pub has_iff :
    (c : AgentCard) (needed : Capability) → (has c needed ≡ true) ↔ IsIn needed c.capabilities
unfolding has
has_iff c needed = (
  λ h.
      let (x, i, e) = IsIn-of_any (λ y. same Capability.discrete y needed) c.capabilities h in
      subst (λ y. IsIn y c.capabilities) ((same_iff Capability.discrete x needed).0 e) i,
  λ i.
      any_of_IsIn (λ y. same Capability.discrete y needed) needed c.capabilities i
        ((same_iff Capability.discrete needed needed).1 refl),
)

has_cap_iff :
    (agent : AgentId) (needed : Capability) (db : Db)
    → (has_cap agent needed db ≡ true) ↔ Holds agent needed db
unfolding has_cap get_agent
has_cap_iff agent needed db = elim (Option-cases (find (is_agent agent) db.agents)) [
  | inl e ↦ (λ h. ground arith, λ h. ground (arith, h.registered))
  | inr (c, e) ↦ (
    λ h. record { card = c; registered = ap ok e; granted = (has_iff c needed).0 (ground arith) },
    λ h. ground (arith, h.registered, (has_iff h.card needed).1 h.granted),
  )
]

abbrev pub denial : PolicyDenied → ℕ → Db → Db
denial d ts db =
    insert_trace (with_data (new "policy" policy_denied ts) (denied d.agent d.action d.reason)) db

-- The check decides `Allowed`: it allows and leaves the database as it is, or it denies and
-- appends the one event that says who was denied what and why.
abbrev pub Decides : Type 0 → Result PolicyDenied (Unit {0}) × Db → ℕ → Db → Type 0
Decides Allowed r ts db =
    ((r ≡ (ok tt, db)) × Allowed) ⊎ ((d : PolicyDenied) × (r ≡ (err d, denial d ts db)) × ¬ Allowed)

not_held :
    (agent : AgentId) (needed : Capability) (db : Db)
    → has_cap agent needed db ≡ false
    → ¬ Holds agent needed db
not_held agent needed db f h = cc ((has_cap_iff agent needed db).1 h)

gated :
    (agent : Option AgentId) (action : Action) (needed : Capability) (ts : ℕ) (db : Db)
    → Decides
        ((a : AgentId) × (agent ≡ some a) × Holds a needed db)
        (check_cap agent action (some needed) ts db)
        ts
        db
gated none action needed ts db =
    inr (refusal "" (action_str action) (lacks needed), refl, λ h. cc (h.1))
gated (some a) action needed ts db = elim (Bool-cases (has_cap a needed db)) [
  | inl t ↦ inl (rw t, (a, refl, (has_cap_iff a needed db).0 t))
  | inr f ↦ inr (
    refusal a (action_str action) (lacks needed),
    rw f,
    λ h. not_held a needed db f (subst (λ x. Holds x needed db) (cc (h.1)) h.2),
  )
]

-- A tool action is allowed exactly when it needs no capability, or the caller is known, registered
-- and holds it. An allowed check changes nothing; a denial appends the one event that says why.
pub check_exact :
    (agent : Option AgentId) (action : Action) (ts : ℕ) (db : Db)
    → Decides
        ((needed : Capability)
          → required_cap action ≡ some needed
          → (a : AgentId) × (agent ≡ some a) × Holds a needed db)
        (check agent action ts db)
        ts
        db
unfolding check
check_exact agent action ts db = elim (Option-cases (required_cap action)) [
  | inl e ↦ inl (ground arith, λ needed q. cc)
  | inr (needed, e) ↦ elim (gated agent action needed ts db) [
    | inl (r, h) ↦
        inl (rw e r, λ other q. subst (λ c. (a : AgentId) × (agent ≡ some a) × Holds a c db) (cc) h)
    | inr (d, r, n) ↦ inr (d, rw e r, λ all. n (all needed e))
  ]
]

-- Killing is allowed exactly when the caller holds the capability and owns the session. An allowed
-- check changes nothing; a denial appends the one event that says why.
pub check_kill_exact :
    (caller owner : AgentId) (ts : ℕ) (db : Db)
    → Decides
        (Holds caller Capability.kill db × (caller ≡ owner))
        (check_kill caller owner ts db)
        ts
        db
unfolding check_kill
check_kill_exact caller owner ts db = elim (Bool-cases (has_cap caller Capability.kill db)) [
  | inr f ↦ inr (
    refusal caller "kill" "lacks kill capability",
    rw f,
    λ h. not_held caller Capability.kill db f h.0,
  )
  | inl t ↦ elim (Bool-cases (caller == owner)) [
    | inr f ↦
        inr (refusal caller "kill" (owned_by owner), rw (t, f), λ h. text_ne caller owner f h.1)
    | inl e ↦
        inl (rw (t, e), ((has_cap_iff caller Capability.kill db).0 t, (eq_iff caller owner).0 e))
  ]
]

-- Writing is allowed exactly when the agent holds the capability and the path is within the
-- worktree. An allowed check changes nothing; a denial appends the one event that says why.
pub check_write_exact :
    (cwd : FilePath) (agent : AgentId) (path worktree : FilePath) (ts : ℕ) (db : Db)
    → Decides
        (Holds agent Capability.write db × (path_within cwd path worktree ≡ true))
        (check_write cwd agent path worktree ts db)
        ts
        db
unfolding check_write
check_write_exact cwd agent path worktree ts db =
    elim (Bool-cases (has_cap agent Capability.write db)) [
      | inr f ↦ inr (
        refusal agent "write" "lacks write capability",
        rw f,
        λ h. not_held agent Capability.write db f h.0,
      )
      | inl t ↦ elim (Bool-cases (path_within cwd path worktree)) [
        | inr f ↦ inr (refusal agent "write" (outside path), rw (t, f), λ h. cc (h.1))
        | inl e ↦ inl (rw (t, e), ((has_cap_iff agent Capability.write db).0 t, e))
      ]
    ]

caller_cost_of :
    (caller : AgentId) (db : Db) (card : AgentCard)
    → (get_agent caller db).0 ≡ ok (some card)
    → caller_cost caller db ≡ card.cost_class
unfolding get_agent
caller_cost_of caller db card e = ground arith

-- Spawning is allowed exactly when the caller holds the capability and the target is no more
-- expensive than the caller itself. An allowed check changes nothing; a denial appends the one
-- event that says why.
pub check_spawn_exact :
    (caller : AgentId) (target_cost : CostClass) (ts : ℕ) (db : Db)
    → Decides
        ((h : Holds caller Capability.spawn db) × (target_cost ≤ h.card.cost_class))
        (check_spawn caller target_cost ts db)
        ts
        db
unfolding check_spawn
check_spawn_exact caller target_cost ts db =
    elim (Bool-cases (has_cap caller Capability.spawn db)) [
      | inr f ↦ inr (
        refusal caller "spawn" "lacks spawn capability",
        rw f,
        λ h. not_held caller Capability.spawn db f h.0,
      )
      | inl t ↦
          let h = (has_cap_iff caller Capability.spawn db).0 t in
          elim (Bool-cases (ltb (caller_cost caller db) target_cost)) [
            | inr f ↦
                inl (rw (t, f), (h, ground (arith, caller_cost_of caller db h.card h.registered)))
            | inl e ↦ inr (
              refusal caller "spawn" (too_expensive target_cost (caller_cost caller db)),
              rw (t, e),
              λ g. ground (arith, caller_cost_of caller db g.0.card g.0.registered, g.1),
            )
          ]
    ]
