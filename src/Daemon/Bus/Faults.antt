-- ===== src/Daemon/Bus/Faults.antt =====
-- A send that fails (crates/divan-daemon/src/bus.rs).
use ajan_orkestrasyonu.Prelude.{
  ℕ, ◌≡◌, refl, sym, ap, ◌∙◌, inl, inr, none, some, find, List, arith, Result, ok, err, Bool-cases,
  Option, Option-cases, >>=-eq-err, >>=-ok,
}
use ajan_orkestrasyonu.Core.Ids.{AgentId}
use ajan_orkestrasyonu.Core.Capability.{Capability}
use ajan_orkestrasyonu.Core.Agent.{has}
use ajan_orkestrasyonu.Core.MessageKind
use ajan_orkestrasyonu.Core.Message.{Message, validate_summary}
use ajan_orkestrasyonu.Db.Store.{Db, DbError, DbExec}
use ajan_orkestrasyonu.Db.Agents.{get_agent, is_agent}
use ajan_orkestrasyonu.Db.Messages.{insert_message, insert_row, fanout}
use ajan_orkestrasyonu.Db.Messages.Fanout.{fanout_err}
use ajan_orkestrasyonu.Db.Subscriptions.{match_subscribers}
use ajan_orkestrasyonu.Db.Subscriptions.Matching.{match_subscribers_exact}
use ajan_orkestrasyonu.Daemon.Bus.{
  BusError, MessageBus, SendRequest, send, deliver, send_broadcast, send_direct, on_db, from_db,
  require_capability,
}
use ajan_orkestrasyonu.Daemon.Bus.Send.{spread, send_cases, sent_message, advanced}

on_db_err :
    {A : Type 0} (m : DbExec A) (bus : MessageBus) (e : BusError)
    → (on_db m bus).0 ≡ err e
    → (x : DbError) × ((m bus.db).0 ≡ err x)
      × ((on_db m bus).1 ≡ record { db = (m bus.db).1; seq = bus.seq })
on_db_err m bus e h = from_db_err bus.seq (m bus.db) e h
  where
    from_db_err :
        {A : Type 0} (seq : ℕ) (r : Result DbError A × Db) (e : BusError)
        → (from_db seq r).0 ≡ err e
        → (x : DbError) × (r.0 ≡ err x) × ((from_db seq r).1 ≡ record { db = r.1; seq = seq })
    from_db_err seq (ok b, db) e h = cc
    from_db_err seq (err x, db) e h = (x, refl, refl)

insert_message_err :
    (m : Message) (db : Db) (e : DbError)
    → (insert_message m db).0 ≡ err e
    → (insert_message m db).1 ≡ db
unfolding insert_message insert_row
insert_message_err m db e h = elim (Option-cases (validate_summary m.summary)) [
  | inl v ↦ ground arith
  | inr (f, v) ↦ rw v refl
]

direct_err :
    (m : Message) (bus : MessageBus) (e : BusError)
    → (send_direct m bus).0 ≡ err e
    → (send_direct m bus).1.db ≡ bus.db
direct_err m bus e h = elim (>>=-eq-err (on_db (insert_message m)) _ bus e h) [
  | inl (f, s) ↦
      let (x, g, after) = on_db_err (insert_message m) bus e f in
      ap (λ b. b.db) (s ∙ after) ∙ insert_message_err m bus.db x g
  | inr (u, f, g, s) ↦ cc
]

capability_messages :
    (agent : AgentId) (needed : Capability) (ts : ℕ) (bus : MessageBus)
    → (require_capability agent needed ts bus).1.db.messages ≡ bus.db.messages
unfolding require_capability get_agent
capability_messages agent needed ts bus =
    elim (Option-cases (find (is_agent agent) bus.db.agents)) [
      | inl e ↦ rw e refl
      | inr (c, e) ↦ elim (Bool-cases (has c needed)) [
        | inl g ↦ rw (e, g) refl
        | inr g ↦ rw (e, g) refl
      ]
    ]

spread_err :
    (m : Message) (targets : List AgentId) (bus : MessageBus) (e : BusError)
    → (spread m targets bus).0 ≡ err e
    → (spread m targets bus).1.db ≡ bus.db
spread_err m targets bus e h = elim (>>=-eq-err (on_db (fanout m targets)) _ bus e h) [
  | inl (f, s) ↦
      let (x, g, after) = on_db_err (fanout m targets) bus e f in
      ap (λ b. b.db) (s ∙ after) ∙ fanout_err m targets bus.db x g
  | inr (u, f, g, s) ↦ cc
]

broadcast_err :
    (m : Message) (ts : ℕ) (bus : MessageBus) (e : BusError)
    → (send_broadcast m ts bus).0 ≡ err e
    → (send_broadcast m ts bus).1.db.messages ≡ bus.db.messages
broadcast_err m ts bus e h =
    let check = require_capability m.from_agent Capability.broadcast ts in
    let find_targets =
      on_db (match_subscribers (MessageKind.as_str m.kind) m.task_id m.from_agent) in
    let kept = capability_messages m.from_agent Capability.broadcast ts bus in
    elim (>>=-eq-err check _ bus e h) [
      | inl (f, s) ↦ ap (λ b. b.db.messages) s ∙ kept
      | inr (u, f, g, s) ↦
          let checked = (check bus).1 in
          let (targets, found, asc, exact) =
            match_subscribers_exact (MessageKind.as_str m.kind) m.task_id m.from_agent checked.db in
          let searched =
            >>=-ok find_targets (spread m) checked checked targets
              (ap (from_db checked.seq) found) in
          ap (λ r. r.1.db.messages) (s ∙ searched)
          ∙ ap (λ d. d.messages) (spread_err m targets checked e (ap (λ r. r.0) (sym searched) ∙ g))
          ∙ kept
    ]

-- A send that fails, on whatever check or write, stores no message: neither the source row of a
-- broadcast nor any copy is left behind.
pub send_err :
    (req : SendRequest) (ts denied_ts : ℕ) (bus : MessageBus) (e : BusError)
    → (send req ts denied_ts bus).0 ≡ err e
    → (send req ts denied_ts bus).1.db.messages ≡ bus.db.messages
send_err req ts denied_ts bus e h = elim (send_cases req ts denied_ts bus) [
  | inr (x, bad, q) ↦ ap (λ r. r.1.db.messages) q
  | inl (v, q) ↦ ap (λ r. r.1.db.messages) q ∙ delivered req.to (ap (λ r. r.0) (sym q) ∙ h)
]
  where
    delivered :
        (to : Option AgentId)
        → (deliver to (sent_message req ts bus) denied_ts (advanced bus)).0 ≡ err e
        → (deliver to (sent_message req ts bus) denied_ts (advanced bus)).1.db.messages
          ≡ bus.db.messages
    delivered none g = broadcast_err (sent_message req ts bus) denied_ts (advanced bus) e g
    delivered (some to) g =
        ap (λ d. d.messages) (direct_err (sent_message req ts bus) (advanced bus) e g)
