-- ===== src/Daemon/Bus/Quiet.antt =====
-- A recorded touch and its alerts write neither tasks nor trace events
-- (crates/divan-daemon/src/bus.rs).
use ajan_orkestrasyonu.Prelude.{
  ℕ, refl, ◌∙◌, Option, String, List, [], ◌∷◌, Result, ok, err, ◌>>=◌, proceed, arith,
}
use ajan_orkestrasyonu.Core.Ids.{AgentId, TaskId}
use ajan_orkestrasyonu.Db.Store.{Db, DbError, DbExec}
use ajan_orkestrasyonu.Db.Tasks.Calls.{SameLog}
use ajan_orkestrasyonu.Db.Messages.{insert_message, insert_row}
use ajan_orkestrasyonu.Db.Conflicts
use ajan_orkestrasyonu.Db.Conflicts.{conflicting_agents, conflict_window_ms}
use ajan_orkestrasyonu.Core.Message.{Message}
use ajan_orkestrasyonu.Daemon.Bus.{
  MessageBus, BusExec, BusError, on_db, from_db, next_id, raise_alerts, alert, alert_all,
  record_touch,
}

record Quiet {A : Type 0} (m : BusExec A) : Type 0 where
  same : (bus : MessageBus) → SameLog bus.db (m bus).1.db

module _ {A B : Type 0} where
  proceed-SameLog :
      (a : Db) (f : A → BusExec B) (r : Result BusError A × MessageBus)
      → SameLog a r.1.db
      → ((x : A) → Quiet (f x))
      → SameLog a (proceed f r).1.db
  proceed-SameLog a f (ok x, s) (t, e) h = let (u, v) = (h x).same s in (u ∙ t, v ∙ e)
  proceed-SameLog a f (err x, s) c h = c

  >>=-Quiet :
      (m : BusExec A) (f : A → BusExec B) → Quiet m → ((x : A) → Quiet (f x)) → Quiet (m >>= f)
  >>=-Quiet m f h k = record { same = λ bus. proceed-SameLog bus.db f (m bus) (h.same bus) k }

from_db-SameLog :
    {A : Type 0} (a : Db) (seq : ℕ) (r : Result DbError A × Db)
    → SameLog a r.1
    → SameLog a (from_db seq r).1.db
from_db-SameLog a seq (ok x, db) c = c
from_db-SameLog a seq (err e, db) c = c

on_db-Quiet : {A : Type 0} (m : DbExec A) → ((db : Db) → SameLog db (m db).1) → Quiet (on_db m)
on_db-Quiet m h = record { same = λ bus. from_db-SameLog bus.db bus.seq (m bus.db) (h bus.db) }

next_id-Quiet : (ts : ℕ) → Quiet (next_id ts)
unfolding next_id
next_id-Quiet ts = record { same = λ bus. (refl, refl) }

insert_message-SameLog : (m : Message) (db : Db) → SameLog db (insert_message m db).1
unfolding insert_message insert_row
insert_message-SameLog m db = ground arith

touch-SameLog :
    (path : String) (agent : AgentId) (task : Option TaskId) (ts : ℕ) (db : Db)
    → SameLog db (Conflicts.record_touch path agent task ts db).1
unfolding Conflicts.record_touch
touch-SameLog path agent task ts db = ground arith

module _ (path_json : String → String) where
  raise_alerts-Quiet :
      (path : String) (task : Option TaskId) (summary : String) (ts : ℕ) (to : List AgentId)
      → Quiet (raise_alerts path_json path task summary ts to)
  unfolding raise_alerts
  raise_alerts-Quiet path task summary ts [] = record { same = λ bus. (refl, refl) }
  raise_alerts-Quiet path task summary ts (x ∷ rest) =
      >>=-Quiet (next_id ts) _ (next_id-Quiet ts) (λ id.
        >>=-Quiet (on_db (insert_message (alert path_json path task summary ts id x))) _
          (on_db-Quiet _ (insert_message-SameLog _))
          (λ u.
            >>=-Quiet (raise_alerts path_json path task summary ts rest) _
              (raise_alerts-Quiet path task summary ts rest)
              (λ ids. record { same = λ bus. (refl, refl) })))

  alert_all-Quiet :
      (path : String) (agent : AgentId) (task : Option TaskId) (ts : ℕ) (others : List AgentId)
      → Quiet (alert_all path_json path agent task ts others)
  alert_all-Quiet path agent task ts [] = record { same = λ bus. (refl, refl) }
  alert_all-Quiet path agent task ts (x ∷ xs) = raise_alerts-Quiet path task _ ts _

  pub record_touch-SameLog :
      (path : String) (agent : AgentId) (task : Option TaskId) (ts : ℕ) (bus : MessageBus)
      → SameLog bus.db (record_touch path_json path agent task ts bus).1.db
  unfolding record_touch
  record_touch-SameLog path agent task ts bus =
      (>>=-Quiet (on_db (Conflicts.record_touch path agent task ts)) _
          (on_db-Quiet _ (touch-SameLog path agent task ts))
          (λ u.
            >>=-Quiet (on_db (conflicting_agents path agent ts conflict_window_ms)) _
              (on_db-Quiet _ (λ db. unfold conflicting_agents in (refl, refl)))
              (alert_all-Quiet path agent task ts))).same
        bus
