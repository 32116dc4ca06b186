-- ===== src/Core/Agent.antt =====
-- Agent cards (crates/divan-core/src/agent.rs).
use ajan_orkestrasyonu.Prelude.{ℕ, Bool, Option, String, List, any, same}
use ajan_orkestrasyonu.Core.Ids.{AgentId}
use ajan_orkestrasyonu.Core.AgentTool.{AgentTool}
use ajan_orkestrasyonu.Core.AgentStatus.{AgentStatus}
use ajan_orkestrasyonu.Core.Capability
use ajan_orkestrasyonu.Core.Capability.{Capability}

pub data DeliveryKind : Type 0 where
  hook mcp resume : DeliveryKind

-- u8
abbrev pub CostClass : Type 0
CostClass = ℕ

pub record AgentCard : Type 0 where
  pub id : AgentId
  pub tool : AgentTool
  pub display_name : Option String
  pub capabilities : List Capability
  pub cost_class : CostClass
  pub skills : List String
  pub delivery : List DeliveryKind
  pub multi_turn : Bool
  pub status : AgentStatus
  pub session_id : Option String
  pub registered_at : ℕ

-- `AgentCard::has`
unfoldable pub has : AgentCard → Capability → Bool
has card needed = any (λ c. same Capability.discrete c needed) card.capabilities
