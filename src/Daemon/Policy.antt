-- ===== src/Daemon/Policy.antt =====
-- The policy engine (crates/divan-daemon/src/policy.rs). A check leaves the database as it is when
-- it allows, and appends one `policy_denied` event when it denies; `ts` is the denial's `now_ms()`.
pub mod Checks
use Prim.Native.String.{◌++◌ as concat}
use ajan_orkestrasyonu.Prelude.{
  ℕ, Bool, true, false, not, Option, none, some, String, ◌==◌, map_or, ltb, if◌then◌else◌, Exec, ok,
  err,
}
use ajan_orkestrasyonu.Prelude.Decimal.{show}
use ajan_orkestrasyonu.Core.Ids.{AgentId}
use ajan_orkestrasyonu.Core.Capability
use ajan_orkestrasyonu.Core.Capability.{Capability}
use ajan_orkestrasyonu.Core.Agent.{AgentCard, CostClass, has}
use ajan_orkestrasyonu.Core.TraceEventKind.{policy_denied}
use ajan_orkestrasyonu.Core.Trace.{new, with_data, denied}
use ajan_orkestrasyonu.Db.Store.{Db, insert_trace}
use ajan_orkestrasyonu.Db.Agents.{get_agent}
use ajan_orkestrasyonu.Daemon.Paths.{FilePath, path_within}

pub data Action : Type 0 where
  send_direct broadcast delegate claim complete publish get_artifact subscribe list_agents : Action

abbrev pub action_str : Action → String
action_str send_direct = "send_direct"
action_str broadcast = "broadcast"
action_str delegate = "delegate"
action_str claim = "claim"
action_str complete = "complete"
action_str publish = "publish"
action_str get_artifact = "get_artifact"
action_str subscribe = "subscribe"
action_str list_agents = "list_agents"

unfoldable pub required_cap : Action → Option Capability
required_cap broadcast = some Capability.broadcast
required_cap delegate = some Capability.delegate
required_cap subscribe = some Capability.read
required_cap _ = none

pub record PolicyDenied : Type 0 where
  pub agent : String
  pub action : String
  pub reason : String

abbrev pub PolicyExec : Type 0
PolicyExec = Exec Db PolicyDenied (Unit {0})

abbrev pub refusal : String → String → String → PolicyDenied
refusal agent action reason = record { agent = agent; action = action; reason = reason }

abbrev pub deny : String → String → String → ℕ → PolicyExec
deny agent action reason ts db = (
  err (refusal agent action reason),
  insert_trace (with_data (new "policy" policy_denied ts) (denied agent action reason)) db,
)

-- `db.get_agent(agent).ok().flatten()`
abbrev pub card_of : AgentId → Db → Option AgentCard
card_of agent db = elim (get_agent agent db).0 [ ok c ↦ c | err e ↦ none ]

unfoldable pub has_cap : AgentId → Capability → Db → Bool
has_cap agent needed db = map_or false (λ c. has c needed) (card_of agent db)

-- `matches!(agent, Some(a) if has_cap(db, a, cap))`
abbrev allowed : Option AgentId → Capability → Db → Bool
allowed agent needed db = map_or false (λ a. has_cap a needed db) agent

-- `format!("lacks {} capability", cap.as_str())`
abbrev pub lacks : Capability → String
lacks needed = concat "lacks " (concat (Capability.as_str needed) " capability")

abbrev pub check_cap : Option AgentId → Action → Option Capability → ℕ → PolicyExec
check_cap agent action none ts db = (ok tt, db)
check_cap agent action (some needed) ts db =
    if allowed agent needed db
    then (ok tt, db)
    else deny (map_or "" (λ a. a) agent) (action_str action) (lacks needed) ts db

unfoldable pub check : Option AgentId → Action → ℕ → PolicyExec
check agent action ts = check_cap agent action (required_cap action) ts

abbrev pub outside : FilePath → String
outside path = concat "path " (concat path.text " is outside the assigned worktree")

unfoldable pub check_write : FilePath → AgentId → FilePath → FilePath → ℕ → PolicyExec
check_write cwd agent path worktree ts db =
    if not (has_cap agent Capability.write db)
    then deny agent "write" "lacks write capability" ts db
    else if not (path_within cwd path worktree)
    then deny agent "write" (outside path) ts db
    else (ok tt, db)

abbrev pub owned_by : AgentId → String
owned_by owner = concat "session is owned by " (concat owner ", not the caller")

unfoldable pub check_kill : AgentId → AgentId → ℕ → PolicyExec
check_kill caller session_owner ts db =
    if not (has_cap caller Capability.kill db)
    then deny caller "kill" "lacks kill capability" ts db
    else if not (caller == session_owner)
    then deny caller "kill" (owned_by session_owner) ts db
    else (ok tt, db)

-- The caller's own cost class, 0 for an unknown caller.
abbrev pub caller_cost : AgentId → Db → CostClass
caller_cost caller db = map_or 0 (λ c. c.cost_class) (card_of caller db)

abbrev pub too_expensive : CostClass → CostClass → String
too_expensive target limit =
    concat "target cost_class "
      (concat (show target) (concat " exceeds caller limit " (show limit)))

unfoldable pub check_spawn : AgentId → CostClass → ℕ → PolicyExec
check_spawn caller target_cost ts db =
    if not (has_cap caller Capability.spawn db)
    then deny caller "spawn" "lacks spawn capability" ts db
    else if ltb (caller_cost caller db) target_cost
    then deny caller "spawn" (too_expensive target_cost (caller_cost caller db)) ts db
    else (ok tt, db)
