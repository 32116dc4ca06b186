-- ===== src/Core/Subscription.antt =====
-- Scoped subscriptions (crates/divan-core/src/subscription.rs).
use ajan_orkestrasyonu.Prelude.{
  Bool, true, false, ◌&&◌, ◌||◌, Option, none, some, String, ◌==◌, holds, is_none, if◌then◌else◌,
}
use ajan_orkestrasyonu.Core.Ids.{AgentId}

abbrev pub event_kind_any : String
event_kind_any = "*"

pub record EventFilter : Type 0 where
  pub task_id : Option String
  pub from_agent : Option String

-- `if let Some(want) = &self.task_id { if Some(want) != task_id { return false; } }`
abbrev pub task_id_ok : Option String → Option String → Bool
task_id_ok none task_id = true
task_id_ok (some want) task_id = holds task_id want

-- `if let Some(want) = &self.from_agent { if want != from_agent { return false; } }`
abbrev pub from_agent_ok : Option String → String → Bool
from_agent_ok none from_agent = true
from_agent_ok (some want) from_agent = want == from_agent

-- `EventFilter::matches`
unfoldable pub filter_matches : EventFilter → Option String → String → Bool
filter_matches f task_id from_agent =
    if task_id_ok f.task_id task_id then from_agent_ok f.from_agent from_agent else false

-- `EventFilter::is_empty`
unfoldable pub filter_is_empty : EventFilter → Bool
filter_is_empty f = is_none f.task_id && is_none f.from_agent

pub record Subscription : Type 0 where
  pub agent_id : AgentId
  pub event_kind : String
  pub filter : Option EventFilter

-- `Subscription::matches`
unfoldable pub matches : Subscription → String → Option String → String → Bool
unfolding filter_matches
matches s kind task_id from_agent =
    if s.event_kind == event_kind_any || s.event_kind == kind
    then elim s.filter [ none ↦ true | some f ↦ filter_matches f task_id from_agent ]
    else false
