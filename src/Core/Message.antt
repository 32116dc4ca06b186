-- ===== src/Core/Message.antt =====
-- Pointer messages and the summary contract (crates/divan-core/src/message.rs). A JSON payload is
-- held as its serialised text: the database stores that text and the size check measures it.
use ajan_orkestrasyonu.Prelude.{ℕ, Option, String, ◌==◌, count, ltb, if◌then◌else◌}
use ajan_orkestrasyonu.Core.Ids.{AgentId, ArtifactRef, MessageId, TaskId, TraceId}
use ajan_orkestrasyonu.Core.MessageKind.{MessageKind}

abbrev pub max_summary_len : ℕ
max_summary_len = 400

-- The two reasons of `InvalidSummary`; the text of the second shows the length.
pub data SummaryFault : Type 0 where
  empty : SummaryFault
  too_long : ℕ → SummaryFault

-- `Option.none` is `Ok(())`.
unfoldable pub validate_summary : String → Option SummaryFault
validate_summary summary =
    if summary == ""
    then Option.some empty
    else if ltb max_summary_len (count summary)
    then Option.some (too_long (count summary))
    else Option.none

pub record Message : Type 0 where
  pub id : MessageId
  pub origin_message_id : Option MessageId
  pub from_agent : AgentId
  pub to_agent : Option AgentId
  pub kind : MessageKind
  pub summary : String
  pub payload : Option String
  pub artifact_ref : Option ArtifactRef
  pub task_id : Option TaskId
  pub trace_id : Option TraceId
  pub created_at : ℕ
  pub delivered_at : Option ℕ
