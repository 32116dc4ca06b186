-- ===== src/Core/AgentStatus.antt =====
-- The runtime status of an agent (crates/divan-core/src/agent.rs); the words are those of serde.
use ajan_orkestrasyonu.Prelude.{◌≡◌, refl, Option, none, some, String, ◌==◌, if◌then◌else◌}

pub data AgentStatus : Type 0 where
  idle busy offline : AgentStatus

unfoldable pub discrete : Discrete AgentStatus
discrete = hlevel

abbrev pub as_str : AgentStatus → String
as_str idle = "idle"
as_str busy = "busy"
as_str offline = "offline"

-- serde reads the same words back.
abbrev pub of_str : String → Option AgentStatus
of_str s =
    if s == "idle"
    then some idle
    else if s == "busy"
    then some busy
    else if s == "offline"
    then some offline
    else none

pub of_str-as_str : (x : AgentStatus) → of_str (as_str x) ≡ some x
of_str-as_str idle = refl
of_str-as_str _ = refl
