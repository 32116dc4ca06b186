-- ===== src/Core/Capability.antt =====
-- Capabilities (crates/divan-core/src/agent.rs).
use ajan_orkestrasyonu.Prelude.{◌≡◌, refl, Option, none, some, String, ◌==◌, if◌then◌else◌}

pub data Capability : Type 0 where
  read write spawn kill delegate broadcast : Capability

unfoldable pub discrete : Discrete Capability
discrete = hlevel

abbrev pub as_str : Capability → String
as_str read = "read"
as_str write = "write"
as_str spawn = "spawn"
as_str kill = "kill"
as_str delegate = "delegate"
as_str broadcast = "broadcast"

-- serde reads the same words back.
abbrev pub of_str : String → Option Capability
of_str s =
    if s == "read"
    then some read
    else if s == "write"
    then some write
    else if s == "spawn"
    then some spawn
    else if s == "kill"
    then some kill
    else if s == "delegate"
    then some delegate
    else if s == "broadcast"
    then some broadcast
    else none

pub of_str-as_str : (x : Capability) → of_str (as_str x) ≡ some x
of_str-as_str read = refl
of_str-as_str _ = refl
