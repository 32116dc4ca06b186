-- ===== src/Db/Agents.antt =====
-- The agent registry (crates/divan-db/src/agents.rs).
use ajan_orkestrasyonu.Prelude.{
  Bool, Option, none, some, String, ◌==◌, List, [], ◌∷◌, ◌++◌, any, find, update_if, ok, gets,
  if◌then◌else◌,
}
use ajan_orkestrasyonu.Prelude.Order.{text_leb}
use ajan_orkestrasyonu.Prelude.Sort.{sort}
use ajan_orkestrasyonu.Core.Ids.{AgentId}
use ajan_orkestrasyonu.Core.Agent.{AgentCard}
use ajan_orkestrasyonu.Core.AgentStatus.{AgentStatus}
use ajan_orkestrasyonu.Db.Store.{DbExec}

abbrev pub is_agent : AgentId → AgentCard → Bool
is_agent id c = c.id == id

-- `ON CONFLICT(id) DO UPDATE SET`: every column but `registered_at`.
abbrev pub overwrite : AgentCard → AgentCard → AgentCard
overwrite new old = record new { id = old.id; registered_at = old.registered_at }

unfoldable pub upsert_agent : AgentCard → DbExec (Unit {0})
upsert_agent card db =
    if any (is_agent card.id) db.agents
    then (ok tt, record db { agents = update_if (is_agent card.id) (overwrite card) db.agents })
    else (ok tt, record db { agents = db.agents ++ (card ∷ []) })

unfoldable pub get_agent : AgentId → DbExec (Option AgentCard)
get_agent id = gets (λ db. find (is_agent id) db.agents)

abbrev pub agent_le : AgentCard → AgentCard → Bool
agent_le a b = text_leb a.id b.id

unfoldable pub list_agents : DbExec (List AgentCard)
list_agents = gets (λ db. sort agent_le db.agents)

-- `SET status = ?2, session_id = COALESCE(?3, session_id)`
abbrev pub set_status : AgentStatus → Option String → AgentCard → AgentCard
set_status status session_id c = record c {
  status = status;
  session_id = elim session_id [ none ↦ c.session_id | some s ↦ some s ];
}

-- An unknown agent is no error.
unfoldable pub set_agent_status : AgentId → AgentStatus → Option String → DbExec (Unit {0})
set_agent_status id status session_id db =
    (ok tt, record db { agents = update_if (is_agent id) (set_status status session_id) db.agents })
