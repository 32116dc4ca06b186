-- ===== src/Core/AgentTool.antt =====
-- The coding-agent tools (crates/divan-core/src/agent.rs).
use ajan_orkestrasyonu.Prelude.{◌≡◌, refl, Option, none, some, String, ◌==◌, if◌then◌else◌}

pub data AgentTool : Type 0 where
  claude codex copilot agy opencode : AgentTool

unfoldable pub discrete : Discrete AgentTool
discrete = hlevel

abbrev pub as_str : AgentTool → String
as_str claude = "claude"
as_str codex = "codex"
as_str copilot = "copilot"
as_str agy = "agy"
as_str opencode = "opencode"

-- serde reads the same words back.
abbrev pub of_str : String → Option AgentTool
of_str s =
    if s == "claude"
    then some claude
    else if s == "codex"
    then some codex
    else if s == "copilot"
    then some copilot
    else if s == "agy"
    then some agy
    else if s == "opencode"
    then some opencode
    else none

pub of_str-as_str : (x : AgentTool) → of_str (as_str x) ≡ some x
of_str-as_str claude = refl
of_str-as_str _ = refl
