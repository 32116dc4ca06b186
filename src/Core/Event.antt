-- ===== src/Core/Event.antt =====
-- Normalised adapter events (crates/divan-core/src/event.rs).
use ajan_orkestrasyonu.Prelude.{ℕ, Bool, Option, String}

pub data FileChangeKind : Type 0 where
  added modified deleted : FileChangeKind

-- `{kind:?}`
abbrev pub debug : FileChangeKind → String
debug added = "Added"
debug modified = "Modified"
debug deleted = "Deleted"

pub record Usage : Type 0 where
  pub input_tokens : ℕ
  pub output_tokens : ℕ
  pub cache_read_tokens : ℕ

pub data AgentErrorClass : Type 0 where
  retryable fatal : AgentErrorClass

-- The input of a tool call is its JSON text.
pub data NormalizedEvent : Type 0 where
  tool_call : (name : String) → (input : Option String) → NormalizedEvent
  file_edit : (path : String) → FileChangeKind → NormalizedEvent
  turn_end session_idle : NormalizedEvent
  session_end : (ok : Bool) → Usage → (final_text : Option String) → NormalizedEvent
  error : AgentErrorClass → (message : String) → NormalizedEvent
