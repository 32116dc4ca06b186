-- ===== src/Db/Traces.antt =====
-- The trace log (crates/divan-db/src/trace_store.rs).
use ajan_orkestrasyonu.Prelude.{ℕ, Bool, ◌==◌, List, filter, take, leb, ok, gets}
use mathlib.Core.List.{reverse}
use ajan_orkestrasyonu.Prelude.Sort.{sort}
use ajan_orkestrasyonu.Core.Ids.{TraceId}
use ajan_orkestrasyonu.Core.Trace.{TraceEvent}
use ajan_orkestrasyonu.Db.Store.{DbExec, insert_trace}

unfoldable pub append_event : TraceEvent → DbExec (Unit {0})
append_event e db = (ok tt, insert_trace e db)

-- `ORDER BY ts, id`: the sort is stable and the ids follow the insertion order.
abbrev pub event_le : TraceEvent → TraceEvent → Bool
event_le a b = leb a.ts b.ts

unfoldable pub timeline : TraceId → DbExec (List TraceEvent)
timeline trace_id =
    gets (λ db. sort event_le (filter (λ e. e.trace_id == trace_id) db.trace_events))

-- The newest `limit` events by id, then oldest first.
unfoldable pub recent_events : ℕ → DbExec (List TraceEvent)
recent_events limit = gets (λ db. reverse (take limit (reverse db.trace_events)))
