-- ===== src/Daemon/Bus/Direct.antt =====
-- What a direct send stores (crates/divan-daemon/src/bus.rs).
use ajan_orkestrasyonu.Prelude.{
  map_or, ℕ, ◌+◌, ◌%◌, ◌≡◌, refl, ap, ◌∙◌, inl, inr, false, none, some, [], ◌∷◌, ◌++◌, any, ok,
  subst, pure, ◌>>=◌, ◌>>◌,
}
use ajan_orkestrasyonu.Core.Ids.{AgentId}
use ajan_orkestrasyonu.Core.TraceEventKind.{msg_sent}
use ajan_orkestrasyonu.Core.Trace.{TraceEvent, sent}
use ajan_orkestrasyonu.Core.Message.{Message, validate_summary}
use ajan_orkestrasyonu.Db.Store.{Db, insert_trace}
use ajan_orkestrasyonu.Db.Messages.{
  require_summary as require_row_summary, insert_message, has_message_id,
}
use ajan_orkestrasyonu.Db.Messages.Total.{insert_source}
use ajan_orkestrasyonu.Daemon.Bus.{
  MessageBus, SendRequest, direct, send, deliver, message_id, u64_mod, sent_event, from_db, trace,
}
use ajan_orkestrasyonu.Daemon.Bus.Send.{IsValid, sent_message, advanced, send_cases}

pub insert_message_ok :
    (m : Message) (db : Db)
    → validate_summary m.summary ≡ none
    → m.origin_message_id ≡ none
    → any (has_message_id m.id) db.messages ≡ false
    → insert_message m db ≡ (ok tt, record db { messages = db.messages ++ (m ∷ []) })
unfolding insert_message
insert_message_ok m db v o free = rw (v, require_row_summary) (insert_source m db v o free)

send-stored :
    (req : SendRequest) (ts denied_ts : ℕ) (bus : MessageBus) (to : AgentId)
    → req.to ≡ some to
    → IsValid req
    → any (has_message_id (message_id ts bus.seq)) bus.db.messages ≡ false
    → let m = sent_message req ts bus in
      send req ts denied_ts bus ≡ (
        ok (direct m.id),
        record {
          db =
              insert_trace
                (sent_event m "direct" [])
                (record bus.db { messages = bus.db.messages ++ (m ∷ []) });
          seq = (bus.seq + 1) % u64_mod;
        },
      )
send-stored req ts denied_ts bus to e v free = elim (send_cases req ts denied_ts bus) [
  | inr (x, bad, q) ↦ absurd (bad v)
  | inl (w, q) ↦
      let m = sent_message req ts bus in
      q
      ∙ ap (λ t. deliver t m denied_ts (advanced bus)) e
      ∙ ap
          (λ r.
            ((λ s. from_db (advanced bus).seq r) >>= λ u.
            trace (sent_event m "direct" []) >> pure (direct m.id))
              bus)
          (insert_message_ok m bus.db v.summary_ok refl free)
]

-- The row of a direct message, field by field.
abbrev pub direct_message : SendRequest → ℕ → MessageBus → AgentId → Message
direct_message req ts bus to = record {
  id = message_id ts bus.seq;
  origin_message_id = none;
  from_agent = req.from;
  to_agent = some to;
  kind = req.kind;
  summary = req.summary;
  payload = req.payload;
  artifact_ref = req.artifact_ref;
  task_id = req.task_id;
  trace_id = req.trace_id;
  created_at = ts;
  delivered_at = none;
}

-- The event of a direct send, field by field.
abbrev pub direct_event : SendRequest → ℕ → MessageBus → TraceEvent
direct_event req ts bus = record {
  trace_id = map_or "bus" (λ t. t) req.trace_id;
  span_id = none;
  parent_span = none;
  agent_id = some req.from;
  event = msg_sent;
  detail = some (sent (message_id ts bus.seq) "direct" req.kind 0);
  ts = ts;
}

-- A direct send of a valid request succeeds if its id is free: behind the messages stands one to the
-- agent that the request names, from its sender, with the kind, the summary, the payload and the
-- references of the request, not delivered and without an origin. One event of the sender names the
-- message, its kind and the direct mode, in the trace of the request or in that of the bus. The
-- counter of ids advances, and nothing else changes.
pub send-direct :
    (req : SendRequest) (ts denied_ts : ℕ) (bus : MessageBus) (to : AgentId)
    → req.to ≡ some to
    → IsValid req
    → any (has_message_id (message_id ts bus.seq)) bus.db.messages ≡ false
    → send req ts denied_ts bus ≡ (
      ok (direct (message_id ts bus.seq)),
      record {
        db = record bus.db {
          messages = bus.db.messages ++ (direct_message req ts bus to ∷ []);
          trace_events = bus.db.trace_events ++ (direct_event req ts bus ∷ []);
        };
        seq = (bus.seq + 1) % u64_mod;
      },
    )
send-direct req ts denied_ts bus to e v free =
    subst
      (λ o. send req ts denied_ts bus ≡ (
        ok (direct (message_id ts bus.seq)),
        record {
          db = record bus.db {
            messages =
                bus.db.messages ++ (record (direct_message req ts bus to) { to_agent = o } ∷ []);
            trace_events = bus.db.trace_events ++ (direct_event req ts bus ∷ []);
          };
          seq = (bus.seq + 1) % u64_mod;
        },
      ))
      e (send-stored req ts denied_ts bus to e v free)
