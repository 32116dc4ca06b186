-- ===== src/Daemon/Lifecycle.antt =====
-- The reconciliation at startup (crates/divan-daemon/src/lifecycle.rs). The lock file is not
-- modelled: it is files and process ids of the operating system.
pub mod Reconciled
pub mod Total
use ajan_orkestrasyonu.Prelude.{
  ℕ, suc, Bool, true, false, not, none, List, [], ◌∷◌, same, if◌then◌else◌, pure, ◌>>=◌, ◌>>◌,
}
use ajan_orkestrasyonu.Core.TaskState
use ajan_orkestrasyonu.Core.TaskState.{TaskState}
use ajan_orkestrasyonu.Core.Task.{Task, orphaned}
use ajan_orkestrasyonu.Core.Agent.{AgentCard}
use ajan_orkestrasyonu.Core.AgentStatus
use ajan_orkestrasyonu.Db.Store.{DbExec}
use ajan_orkestrasyonu.Db.Tasks.{transition, list_tasks}
use ajan_orkestrasyonu.Db.Agents.{list_agents, set_agent_status}

abbrev pub is_active : TaskState → Bool
is_active TaskState.claimed = true
is_active TaskState.working = true
is_active TaskState.review = true
is_active _ = false

-- The loop over the tasks: how many were orphaned. `now k` is the k-th reading of the clock.
unfoldable pub fail_orphans : List Task → (ℕ → ℕ) → ℕ → DbExec ℕ
fail_orphans [] now k = pure 0
fail_orphans (t ∷ tasks) now k =
    let rest = fail_orphans tasks now in
    if is_active t.state
    then (do transition t.id TaskState.failed orphaned (now k); n ← rest (suc k); pure (suc n))
    else rest k

abbrev pub is_offline : AgentCard → Bool
is_offline c = same AgentStatus.discrete c.status AgentStatus.offline

unfoldable pub retire_agents : List AgentCard → DbExec (Unit {0})
retire_agents [] = pure tt
retire_agents (c ∷ agents) =
    let rest = retire_agents agents in
    if not (is_offline c) then set_agent_status c.id AgentStatus.offline none >> rest else rest

unfoldable pub reconcile : (ℕ → ℕ) → DbExec ℕ
reconcile now = do
  tasks ← list_tasks
  n ← fail_orphans tasks now 0
  agents ← list_agents
  retire_agents agents
  pure n
