-- ===== src/Daemon/Bus/Receipts.antt =====
-- The injection batch and its receipt (crates/divan-daemon/src/bus.rs).
use Prim.Native.String.{◌++◌ as concat}
use Prim.Native.String.append
use text.Mathlib.TextLemmas as Text
use ajan_orkestrasyonu.Prelude.{
  ℕ, suc, ◌≡◌, sym, ap, ◌∙◌, List, [], ◌∷◌, ◌++◌, map, IsIn, String, subst, update_if, ok, >>=-ok,
}
use mathlib.Core.List.{append_assoc, append-nil}
use ajan_orkestrasyonu.Core.Ids.{AgentId, MessageId}
use ajan_orkestrasyonu.Core.Message.{Message}
use ajan_orkestrasyonu.Db.Store.{Db}
use ajan_orkestrasyonu.Db.Messages.{mark_delivered, stamp}
use ajan_orkestrasyonu.Db.Messages.Delivery.{
  is_covered, mark_delivered_exact, marked, mark_delivered_again,
}
use ajan_orkestrasyonu.Daemon.Bus.{
  MessageBus, InjectionBatch, render_items, artifact_line, confirm_delivery, trace_deliveries,
  delivered_event, on_db, from_db,
}

trace_deliveries-events :
    (agent : AgentId) (ts : ℕ) (ids : List MessageId) (db : Db)
    → trace_deliveries agent ts ids db
      ≡ record db { trace_events = db.trace_events ++ map (delivered_event agent ts) ids }
trace_deliveries-events agent ts [] db =
    ap (λ l. record db { trace_events = l }) (sym (append-nil db.trace_events))
trace_deliveries-events agent ts (id ∷ ids) db =
    trace_deliveries-events agent ts ids _
    ∙ ap (λ l. record db { trace_events = l })
        (append_assoc db.trace_events (delivered_event agent ts id ∷ [])
          (map (delivered_event agent ts) ids))

confirmed :
    (ids : List MessageId) (agent : AgentId) (ts n : ℕ) (bus : MessageBus) (after : Db)
    → mark_delivered ids ts bus.db ≡ (ok n, after)
    → confirm_delivery ids agent ts bus ≡ (
      ok n,
      record {
        db = record after {
          trace_events = after.trace_events ++ map (delivered_event agent ts) ids;
        };
        seq = bus.seq;
      },
    )
unfolding confirm_delivery
confirmed ids agent ts n bus after h =
    >>=-ok (on_db (mark_delivered ids ts)) _ bus (record { db = after; seq = bus.seq }) n
      (ap (from_db bus.seq) h)
    ∙ ap (λ d. (ok n, record { db = d; seq = bus.seq }))
        (trace_deliveries-events agent ts ids after)

-- A receipt that is confirmed a second time stamps no message, and still appends one
-- `msg_delivered` event for each id that it names.
pub confirm_delivery-again :
    (ids : List MessageId) (agent : AgentId) (ts later : ℕ) (bus : MessageBus)
    → let once = (confirm_delivery ids agent ts bus).1 in
      confirm_delivery ids agent later once ≡ (
        ok 0,
        record once {
          db = record once.db {
            trace_events = once.db.trace_events ++ map (delivered_event agent later) ids;
          };
        },
      )
confirm_delivery-again ids agent ts later bus =
    let (n, first, count) = mark_delivered_exact ids ts bus.db in
    let events = map (delivered_event agent ts) ids in
    let traced = record bus.db { trace_events = bus.db.trace_events ++ events } in
    let d = record traced { messages = update_if (is_covered ids) (stamp ts) bus.db.messages } in
    let o : MessageBus = record { db = d; seq = bus.seq } in
    let second =
      subst (λ x. mark_delivered ids later x ≡ (ok 0, x)) (marked ids ts traced)
        (mark_delivered_again ids ts later traced) in
    let made : (confirm_delivery ids agent ts bus).1 ≡ o =
      ap (λ r. r.1) (confirmed ids agent ts n bus _ first) in
    subst
      (λ (x : MessageBus). confirm_delivery ids agent later x ≡ (
        ok 0,
        record x {
          db = record x.db {
            trace_events = x.db.trace_events ++ map (delivered_event agent later) ids;
          };
        },
      ))
      (sym made) (confirmed ids agent later 0 o d second)

-- The text shows the id of the message and then its summary.
abbrev pub IsShown : Message → String → Type 0
IsShown m text =
    (before after : String) × (text
      ≡ concat before (concat m.id (concat "\n   summary=" (concat m.summary after))))

-- An item from the id of its message on, with the items behind it.
abbrev item : Message → List Message → ℕ → String
item first rest i = concat first.id (
    concat "\n   summary=" (
      concat first.summary
        (concat "\n" (concat (artifact_line first.artifact_ref) (render_items (suc i) rest)))))

-- A batch of the agent that names exactly the messages of the queue, in order, and whose text shows
-- each of them: its id, and its summary behind it.
pub record IsBatch (agent : AgentId) (queue : List Message) (b : InjectionBatch) : Type 0 where
  pub for_agent : b.agent ≡ agent
  pub names : b.message_ids ≡ map (λ m. m.id) queue
  pub shows : (m : Message) → IsIn m queue → IsShown m b.text
