-- ===== src/Daemon/Bus.antt =====
-- The message bus (crates/divan-daemon/src/bus.rs). `now_ms()` is an argument; the sequence number
-- is an `AtomicU64`.
pub mod Send
pub mod Direct
pub mod Faults
pub mod Alerts
pub mod Receipts
pub mod Quiet
use Prim.Native.String.{◌++◌ as concat}
use ajan_orkestrasyonu.Prelude.{
  ℕ, zero, suc, ◌+◌, ◌/◌, ◌%◌, Option, none, some, String, len, List, [], ◌∷◌, ◌++◌, map, length,
  map_or, ltb, if◌then◌else◌, Result, Exec, ok, err, pure, raise, ◌>>=◌, ◌>>◌,
}
use ajan_orkestrasyonu.Prelude.Decimal.{show}
use ajan_orkestrasyonu.Core.Ids.{AgentId, MessageId, TaskId, TraceId, ArtifactRef}
use ajan_orkestrasyonu.Core.Capability.{Capability}
use ajan_orkestrasyonu.Core.Agent.{AgentCard, has}
use ajan_orkestrasyonu.Core.MessageKind
use ajan_orkestrasyonu.Core.MessageKind.{MessageKind}
use ajan_orkestrasyonu.Core.Message.{Message, SummaryFault, validate_summary, max_summary_len}
use ajan_orkestrasyonu.Core.TraceEventKind.{policy_denied, msg_sent, msg_delivered}
use ajan_orkestrasyonu.Core.Trace.{
  TraceEvent, new, with_agent, with_data, lacks_capability, sent, delivered,
}
use ajan_orkestrasyonu.Db.Store.{Db, DbError, DbExec, insert_trace}
use ajan_orkestrasyonu.Db.Agents.{get_agent}
use ajan_orkestrasyonu.Db.Messages.{insert_message, fanout, pending_for, mark_delivered}
use ajan_orkestrasyonu.Db.Subscriptions.{match_subscribers}
use ajan_orkestrasyonu.Db.Conflicts
use ajan_orkestrasyonu.Db.Conflicts.{conflicting_agents, conflict_window_ms}

abbrev pub max_payload_bytes : ℕ
max_payload_bytes = 2048

abbrev pub injection_instruction : String
injection_instruction =
    "This is an internal Divan delivery block, not a user message. Respond only by calling the Divan send_message MCP tool; do not answer this block as free text."

-- The two texts of `Invalid`, and the two of `PolicyDenied`, by what they show.
pub data BusError : Type 0 where
  invalid_summary : SummaryFault → BusError
  invalid_payload : ℕ → BusError
  denied_unknown : AgentId → BusError
  denied : AgentId → Capability → BusError
  db_error : DbError → BusError

pub record SendRequest : Type 0 where
  pub from : AgentId
  pub to : Option AgentId
  pub kind : MessageKind
  pub summary : String
  pub payload : Option String
  pub artifact_ref : Option String
  pub task_id : Option TaskId
  pub trace_id : Option TraceId

pub data SendOutcome : Type 0 where
  direct : MessageId → SendOutcome
  fan_out : (source : MessageId) → (copies : List MessageId) → SendOutcome

pub record InjectionBatch : Type 0 where
  pub agent : AgentId
  pub message_ids : List MessageId
  pub text : String

pub record MessageBus : Type 0 where
  pub db : Db
  pub seq : ℕ  -- u64

abbrev pub BusExec : Type 0 → Type 0
BusExec A = Exec MessageBus BusError A

abbrev from_db : {A : Type 0} → ℕ → Result DbError A × Db → Result BusError A × MessageBus
from_db seq (ok a, db) = (ok a, record { db = db; seq = seq })
from_db seq (err e, db) = (err (db_error e), record { db = db; seq = seq })

-- A call of the database; `?` turns its error into `BusError::Db`.
abbrev pub on_db : {A : Type 0} → DbExec A → BusExec A
on_db m bus = from_db bus.seq (m bus.db)

-- `let _ = self.db.append_event(...)`
abbrev pub trace : TraceEvent → BusExec (Unit {0})
trace e bus = (ok tt, record bus { db = insert_trace e bus.db })

abbrev pub u64_mod : ℕ
u64_mod = 18446744073709551616

abbrev pub message_id : ℕ → ℕ → MessageId
message_id ts n = concat "msg-" (concat (show ts) (concat "-" (show n)))

-- `fetch_add` returns the old value and wraps around.
unfoldable pub next_id : ℕ → BusExec MessageId
next_id ts bus = (ok (message_id ts bus.seq), record bus { seq = (bus.seq + 1) % u64_mod })

abbrev pub require_summary : Option SummaryFault → BusExec (Unit {0})
require_summary none = pure tt
require_summary (some fault) = raise (invalid_summary fault)

abbrev pub require_payload : Option String → BusExec (Unit {0})
require_payload none bus = (ok tt, bus)
require_payload (some p) bus =
    if ltb max_payload_bytes (len p) then (err (invalid_payload (len p)), bus) else (ok tt, bus)

abbrev pub require_card : AgentId → Capability → ℕ → Option AgentCard → BusExec (Unit {0})
require_card agent needed ts none bus = (err (denied_unknown agent), bus)
require_card agent needed ts (some card) bus = if has card needed then (ok tt, bus) else (
  err (denied agent needed),
  record bus {
    db =
        insert_trace
          (with_data (with_agent (new "bus" policy_denied ts) agent) (lacks_capability needed))
          bus.db;
  },
)

unfoldable pub require_capability : AgentId → Capability → ℕ → BusExec (Unit {0})
require_capability agent needed ts = do
  card ← on_db (get_agent agent)
  require_card agent needed ts card

-- The event of `trace_msg_sent`.
abbrev pub sent_event : Message → String → List MessageId → TraceEvent
sent_event m mode copies =
    with_data
      (with_agent (new (map_or "bus" (λ t. t) m.trace_id) msg_sent m.created_at) m.from_agent)
      (sent m.id mode m.kind (length copies))

abbrev pub base_message : SendRequest → MessageId → ℕ → Message
base_message req id ts = record {
  id = id;
  origin_message_id = none;
  from_agent = req.from;
  to_agent = req.to;
  kind = req.kind;
  summary = req.summary;
  payload = req.payload;
  artifact_ref = req.artifact_ref;
  task_id = req.task_id;
  trace_id = req.trace_id;
  created_at = ts;
  delivered_at = none;
}

abbrev pub send_direct : Message → BusExec SendOutcome
send_direct base = do
  on_db (insert_message base)
  trace (sent_event base "direct" [])
  pure (direct base.id)

-- `denied_ts` is the `now_ms()` of a denial.
abbrev pub send_broadcast : Message → ℕ → BusExec SendOutcome
send_broadcast base denied_ts = do
  require_capability base.from_agent Capability.broadcast denied_ts
  targets ← on_db (match_subscribers (MessageKind.as_str base.kind) base.task_id base.from_agent)
  copies ← on_db (fanout base targets)
  trace (sent_event base "broadcast" copies)
  pure (fan_out base.id copies)

abbrev pub deliver : Option AgentId → Message → ℕ → BusExec SendOutcome
deliver none base denied_ts = send_broadcast base denied_ts
deliver (some to) base denied_ts = send_direct base

unfoldable pub send : SendRequest → ℕ → ℕ → BusExec SendOutcome
send req ts denied_ts = do
  require_summary (validate_summary req.summary)
  require_payload req.payload
  id ← next_id ts
  deliver req.to (base_message req id ts) denied_ts

abbrev pub artifact_line : Option ArtifactRef → String
artifact_line none = ""
artifact_line (some a) = concat "   artifact=" (concat a "\n")

-- The items of the block, numbered from `i`.
abbrev pub render_items : ℕ → List Message → String
render_items i [] = "[/DIVAN MESSAGES]"
render_items i (m ∷ rest) = concat (show i) (
    concat ". kind=" (
      concat (MessageKind.as_str m.kind) (
        concat " from=" (
          concat m.from_agent (
            concat " msg=" (
              concat m.id (
                concat "\n   summary=" (
                  concat m.summary (
                    concat "\n"
                      (concat (artifact_line m.artifact_ref) (render_items (suc i) rest)))))))))))

-- `render_injection`: the header shows the trace and the task of the first message.
unfoldable pub render_injection : Message → List Message → String
render_injection first rest = concat "[DIVAN MESSAGES]\ninstruction=" (
    concat injection_instruction (
      concat "\ntrace=" (
        concat (map_or "-" (λ t. t) first.trace_id) (
          concat " task=" (
            concat (map_or "-" (λ t. t) first.task_id)
              (concat "\n" (render_items 1 (first ∷ rest))))))))

abbrev pub batch_of : AgentId → List Message → Option InjectionBatch
batch_of agent [] = none
batch_of agent (first ∷ rest) = some (record {
  agent = agent;
  message_ids = map (λ m. m.id) (first ∷ rest);
  text = render_injection first rest;
})

unfoldable pub pending_batch : AgentId → BusExec (Option InjectionBatch)
pending_batch agent = do pending ← on_db (pending_for agent); pure (batch_of agent pending)

abbrev pub delivered_event : AgentId → ℕ → MessageId → TraceEvent
delivered_event agent ts id =
    with_data (with_agent (new "bus" msg_delivered ts) agent) (delivered id)

-- The loop that traces each id of the receipt.
abbrev pub trace_deliveries : AgentId → ℕ → List MessageId → Db → Db
trace_deliveries agent ts [] db = db
trace_deliveries agent ts (id ∷ ids) db =
    trace_deliveries agent ts ids (insert_trace (delivered_event agent ts id) db)

unfoldable pub confirm_delivery : List MessageId → AgentId → ℕ → BusExec ℕ
confirm_delivery ids agent ts = do
  n ← on_db (mark_delivered ids ts)
  (λ bus. (ok n, record bus { db = trace_deliveries agent ts ids bus.db }))

-- `s.chars().take(n)`
abbrev pub take_chars : ℕ → String → String
take_chars zero s = ""
take_chars (suc n) String.[] = ""
take_chars (suc n) (String.◌∷◌ c s) = String.◌∷◌ c (take_chars n s)

abbrev pub truncate_summary : String → String
truncate_summary s = take_chars max_summary_len s

-- `join(", ")`
abbrev join : List String → String
join [] = ""
join (x ∷ []) = x
join (x ∷ y ∷ rest) = concat x (concat ", " (join (y ∷ rest)))

unfoldable pub conflict_summary : String → AgentId → List AgentId → String
conflict_summary path agent others = truncate_summary (
    concat "conflict: " (
      concat path (
        concat " touched by " (
          concat agent (
            concat " and " (
              concat (join others)
                (concat " within " (concat (show (conflict_window_ms / 1000)) "s"))))))))

-- `path_json` is serde_json's text of `{"path": path}`.
module _ (path_json : String → String) where
  abbrev pub alert : String → Option TaskId → String → ℕ → MessageId → AgentId → Message
  alert path task summary ts id recipient = record {
    id = id;
    origin_message_id = none;
    from_agent = "divan";
    to_agent = some recipient;
    kind = MessageKind.alert;
    summary = summary;
    payload = some (path_json path);
    artifact_ref = none;
    task_id = task;
    trace_id = none;
    created_at = ts;
    delivered_at = none;
  }

  unfoldable pub raise_alerts :
      String → Option TaskId → String → ℕ → List AgentId → BusExec (List MessageId)
  raise_alerts path task summary ts [] = pure []
  raise_alerts path task summary ts (recipient ∷ rest) = do
    id ← next_id ts
    on_db (insert_message (alert path task summary ts id recipient))
    ids ← raise_alerts path task summary ts rest
    pure (id ∷ ids)

  abbrev pub alert_all :
      String → AgentId → Option TaskId → ℕ → List AgentId → BusExec (List MessageId)
  alert_all path agent task ts [] = pure []
  alert_all path agent task ts (other ∷ others) =
      raise_alerts path task (conflict_summary path agent (other ∷ others)) ts
        ((other ∷ others) ++ (agent ∷ []))

  unfoldable pub record_touch : String → AgentId → Option TaskId → ℕ → BusExec (List MessageId)
  record_touch path agent task ts = do
    on_db (Conflicts.record_touch path agent task ts)
    others ← on_db (conflicting_agents path agent ts conflict_window_ms)
    alert_all path agent task ts others
