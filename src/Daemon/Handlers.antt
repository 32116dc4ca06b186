-- ===== src/Daemon/Handlers.antt =====
-- The handlers of the hooks and of the other tools of the daemon (crates/divan-daemon/src/rpc.rs).
-- A parameter is what `as_str` reads of the JSON value, the empty text where it is missing; the
-- answers are the values that the JSON objects show.
pub mod Working
pub mod Boundary
use ajan_orkestrasyonu.Prelude.{
  ℕ, Bool, true, false, ◌&&◌, Option, none, some, is_some, map_or, holds, same, String, ◌==◌, List,
  [], ◌∷◌, find, filter, Result, Exec, ok, err, pure, raise, ◌>>=◌, ◌>>◌, if◌then◌else◌,
}
use ajan_orkestrasyonu.Core.Ids.{AgentId, MessageId}
use ajan_orkestrasyonu.Core.AgentStatus
use ajan_orkestrasyonu.Core.Agent.{AgentCard, has}
use ajan_orkestrasyonu.Core.Capability
use ajan_orkestrasyonu.Core.MessageKind
use ajan_orkestrasyonu.Core.MessageKind.{MessageKind}
use ajan_orkestrasyonu.Core.Subscription.{Subscription, EventFilter, event_kind_any}
use ajan_orkestrasyonu.Core.TaskState
use ajan_orkestrasyonu.Core.Task.{Task}
use ajan_orkestrasyonu.Db.Store.{Db, DbError}
use ajan_orkestrasyonu.Db.Agents.{set_agent_status, list_agents}
use ajan_orkestrasyonu.Db.Subscriptions.{subscribe}
use ajan_orkestrasyonu.Db.Tasks.{list_tasks}
use ajan_orkestrasyonu.Daemon.Paths.{FilePath}
use ajan_orkestrasyonu.Daemon.Policy.{Action, PolicyDenied, check, check_write, check_kill}
use ajan_orkestrasyonu.Daemon.Bus.{
  MessageBus, BusError, SendRequest, SendOutcome, InjectionBatch, send, pending_batch,
  confirm_delivery,
}

-- The errors of an answer, by what their text shows.
pub data Refusal : Type 0 where
  missing : (text : String) → Refusal
  policy_refused : PolicyDenied → Refusal
  bus_refused : BusError → Refusal
  store_refused : DbError → Refusal

abbrev answered : {E A S : Type 0} → (E → Refusal) → Result E A × S → Result Refusal A × S
answered f (ok a, s) = (ok a, s)
answered f (err e, s) = (err (f e), s)

abbrev on_bus_db : {A : Type 0} → ℕ → Result Refusal A × Db → Result Refusal A × MessageBus
on_bus_db seq (r, db) = (r, record { db = db; seq = seq })

-- A policy check of the database that the bus holds too.
abbrev checked : Option AgentId → Action → ℕ → Exec MessageBus Refusal (Unit {0})
checked agent action ts bus =
    on_bus_db bus.seq (answered policy_refused (check agent action ts bus.db))

abbrev require : {A S : Type 0} → String → Option A → Exec S Refusal A
require what none = raise (missing what)
require what (some a) = pure a

abbrev kind_of : Option String → Option MessageKind
kind_of none = none
kind_of (some s) = MessageKind.of_str s

-- The text parameters of `send_message`; its other fields are those of the request.
unfoldable pub mcp_send_message :
    Option AgentId
    → Option String
    → (AgentId → MessageKind → SendRequest)
    → (ℕ → ℕ)
    → Exec MessageBus Refusal SendOutcome
mcp_send_message from kind request now = do
  sender ← require "send_message: `from` required" from
  k ← require "send_message: invalid `kind`" (kind_of kind)
  checked (some sender) Action.send_direct (now 0)
  (λ bus. answered bus_refused (send (request sender k) (now 1) (now 2) bus))

unfoldable pub mcp_subscribe :
    Option AgentId → Option String → Option EventFilter → ℕ → Exec Db Refusal (Unit {0})
mcp_subscribe agent_id event_kind filter ts = do
  agent ← require "subscribe: `agent_id` required" agent_id
  (λ db. answered policy_refused (check (some agent) Action.subscribe ts db))
  (λ db. answered store_refused (
      subscribe
        (record {
          agent_id = agent;
          event_kind = map_or event_kind_any (λ k. k) event_kind;
          filter = filter;
        })
        db))

abbrev capability_of : Option String → Option Capability.Capability
capability_of none = none
capability_of (some s) = Capability.of_str s

-- `cap_filter.map(|c| a.has(c)).unwrap_or(true)`
abbrev pub has_all_of : Option Capability.Capability → AgentCard → Bool
has_all_of cap a = map_or true (λ c. has a c) cap

-- The cards whose fields the answer shows.
unfoldable pub mcp_list_agents : Option String → ℕ → Exec Db Refusal (List AgentCard)
mcp_list_agents capability ts = do
  (λ db. answered policy_refused (check none Action.list_agents ts db))
  agents ← (λ db. answered store_refused (list_agents db))
  pure (filter (has_all_of (capability_of capability)) agents)

-- The owner is what the answer shows; nothing else happens.
unfoldable pub kill_session : AgentId → AgentId → ℕ → Exec Db Refusal AgentId
kill_session caller owner ts = do
  (λ db. answered policy_refused (check_kill caller owner ts db))
  pure owner

-- `let _ = db.set_agent_status(..)`
unfoldable pub hook_activity : AgentId → Option String → Db → Db
hook_activity agent session db = (set_agent_status agent AgentStatus.busy session db).1

unfoldable pub hook_pending_batch : AgentId → Exec MessageBus Refusal (Option InjectionBatch)
hook_pending_batch agent bus = answered bus_refused (pending_batch agent bus)

unfoldable pub hook_confirm : AgentId → List MessageId → ℕ → Exec MessageBus Refusal ℕ
hook_confirm agent ids ts bus = answered bus_refused (confirm_delivery ids agent ts bus)

-- `{allow, reason}`
pub record Verdict : Type 0 where
  pub allow : Bool
  pub reason : Option String

abbrev pub allowed : Option String → Verdict
allowed reason = record { allow = true; reason = reason }

-- The task that the agent works on in a worktree.
abbrev pub is_worked_by : AgentId → Task → Bool
is_worked_by agent t =
    holds t.assignee agent
    && (same TaskState.discrete t.state TaskState.working && is_some t.worktree)

abbrev worktree_in : AgentId → Result DbError (List Task) → Option String
worktree_in agent (ok tasks) = map_or none (λ t. t.worktree) (find (is_worked_by agent) tasks)
worktree_in agent (err e) = none

unfoldable pub active_worktree : AgentId → Db → Option String
active_worktree agent db = worktree_in agent (list_tasks db).0

abbrev pub verdict : Result PolicyDenied (Unit {0}) × Db → Verdict × Db
verdict (ok u, db) = (allowed none, db)
verdict (err e, db) = (record { allow = false; reason = some e.reason }, db)

-- `read` is what `std::path` reads from a text.
module _ (read : String → FilePath) (cwd : FilePath) where
  abbrev pub enforce : Option String → AgentId → String → ℕ → Db → Verdict × Db
  enforce none agent path ts db = (allowed (some "no active worktree"), db)
  enforce (some worktree) agent path ts db =
      verdict (check_write cwd agent (read path) (read worktree) ts db)

  unfoldable pub hook_pretooluse : AgentId → String → ℕ → Db → Verdict × Db
  hook_pretooluse agent path ts db =
      if path == "" then (allowed none, db) else enforce (active_worktree agent db) agent path ts db
