-- ===== src/Core/Ids.antt =====
-- The identifier newtypes (crates/divan-core/src/ids.rs): each wraps a text.
use Prim.Native.String.{String}

abbrev pub AgentId : Type 0
AgentId = String

abbrev pub TaskId : Type 0
TaskId = String

abbrev pub MessageId : Type 0
MessageId = String

abbrev pub ArtifactRef : Type 0
ArtifactRef = String

abbrev pub TraceId : Type 0
TraceId = String

abbrev pub SpanId : Type 0
SpanId = String
