-- ===== src/Daemon/Bus/Send.antt =====
-- What a send does (crates/divan-daemon/src/bus.rs).
use ajan_orkestrasyonu.Prelude.{
  ℕ, ◌+◌, ◌%◌, ◌≤◌, ◌≡◌, refl, sym, ap, ◌∙◌, ◌≢◌, ◌↔◌, inl, inr, not, Option, none, some, String,
  len, List, ◌∷◌, ◌++◌, map, find, filter_all, IsIn, arith, Result, ok, err, Bool-cases,
  Option-cases, >>=-eq-ok, >>=-ok, subst, text_ne_false, ◌==◌, ltb, pure, ◌>>=◌, ◌>>◌, ◌⊎◌,
}
use ajan_orkestrasyonu.Prelude.Set.{IsAscending}
use ajan_orkestrasyonu.Core.Ids.{AgentId}
use ajan_orkestrasyonu.Core.Capability.{Capability}
use ajan_orkestrasyonu.Core.Agent.{has}
use ajan_orkestrasyonu.Core.MessageKind
use ajan_orkestrasyonu.Core.Message.{Message, SummaryFault, validate_summary}
use ajan_orkestrasyonu.Core.Subscription.{Subscription}
use ajan_orkestrasyonu.Db.Store.{Db, DbError, DbExec, insert_trace}
use ajan_orkestrasyonu.Db.Agents.{get_agent, is_agent}
use ajan_orkestrasyonu.Db.Messages.{fanout, copy_id, copy_for}
use ajan_orkestrasyonu.Db.Messages.Fanout.{receivers, fanout_ok}
use ajan_orkestrasyonu.Db.Subscriptions.{match_subscribers}
use ajan_orkestrasyonu.Db.Subscriptions.Matching.{Covers, match_subscribers_exact}
use ajan_orkestrasyonu.Daemon.Policy.Checks.{Holds, has_iff}
use ajan_orkestrasyonu.Daemon.Bus.{
  BusError, invalid_summary, invalid_payload, BusExec, MessageBus, SendRequest, SendOutcome,
  fan_out, send, send_broadcast, deliver, base_message, message_id, next_id, u64_mod,
  max_payload_bytes, sent_event, on_db, from_db, require_capability, require_summary,
  require_payload, trace,
}

from_db_ok :
    {A : Type 0} (seq : ℕ) (r : Result DbError A × Db) (a : A)
    → (from_db seq r).0 ≡ ok a
    → (r.0 ≡ ok a) × ((from_db seq r).1 ≡ record { db = r.1; seq = seq })
from_db_ok seq (ok b, db) a h = (ground arith, refl)
from_db_ok seq (err e, db) a h = cc

pub on_db_ok :
    {A : Type 0} (m : DbExec A) (bus : MessageBus) (a : A)
    → (on_db m bus).0 ≡ ok a
    → ((m bus.db).0 ≡ ok a) × ((on_db m bus).1 ≡ record { db = (m bus.db).1; seq = bus.seq })
on_db_ok m bus a h = from_db_ok bus.seq (m bus.db) a h

capability_ok :
    (agent : AgentId) (needed : Capability) (ts : ℕ) (bus : MessageBus)
    → (require_capability agent needed ts bus).0 ≡ ok tt
    → Holds agent needed bus.db × ((require_capability agent needed ts bus).1 ≡ bus)
unfolding require_capability get_agent
capability_ok agent needed ts bus h = elim (Option-cases (find (is_agent agent) bus.db.agents)) [
  | inl e ↦ ground arith
  | inr (c, e) ↦ elim (Bool-cases (has c needed)) [
    | inl g ↦ (
      record { card = c; registered = ap ok e; granted = (has_iff c needed).0 g },
      rw (e, g) refl,
    )
    | inr g ↦ ground arith
  ]
]

-- The two checks in front of a send: both pass, or one fails and nothing has changed.
checks :
    {A : Type 0} (o : Option SummaryFault) (payload : Option String) (rest : BusExec A)
    (bus : MessageBus)
    → ((o ≡ none)
        × ((p : String) → payload ≡ some p → len p ≤ max_payload_bytes)
        × ((require_summary o >> (require_payload payload >> rest)) bus ≡ rest bus))
      ⊎ ((e : BusError) × (o ≡ none
            → ((p : String) → payload ≡ some p → len p ≤ max_payload_bytes)
            → ⊥)
          × ((require_summary o >> (require_payload payload >> rest)) bus ≡ (err e, bus)))
checks none none rest bus = inl (refl, (λ p e. cc), refl)
checks none (some p) rest bus = elim (Bool-cases (ltb max_payload_bytes (len p))) [
  | inl e ↦ inr (invalid_payload (len p), (λ n f. ground (arith, f p refl)), rw e refl)
  | inr e ↦ inl (refl, (λ q w. ground arith), rw e refl)
]
checks (some fault) payload rest bus = inr (invalid_summary fault, (λ n f. cc), refl)

-- The request passes the checks of its contents.
pub record IsValid (req : SendRequest) : Type 0 where
  pub summary_ok : validate_summary req.summary ≡ none
  pub payload_ok : (p : String) → req.payload ≡ some p → len p ≤ max_payload_bytes

-- The message that a send at `ts` stores.
abbrev pub sent_message : SendRequest → ℕ → MessageBus → Message
sent_message req ts bus = base_message req (message_id ts bus.seq) ts

abbrev pub advanced : MessageBus → MessageBus
advanced bus = record bus { seq = (bus.seq + 1) % u64_mod }

-- A send delivers a valid request, or fails with nothing changed.
pub send_cases :
    (req : SendRequest) (ts denied_ts : ℕ) (bus : MessageBus)
    → (IsValid req
        × (send req ts denied_ts bus
            ≡ deliver req.to (sent_message req ts bus) denied_ts (advanced bus)))
      ⊎ ((e : BusError) × (IsValid req → ⊥) × (send req ts denied_ts bus ≡ (err e, bus)))
unfolding send next_id
send_cases req ts denied_ts bus =
    let rest = next_id ts >>= λ id. deliver req.to (base_message req id ts) denied_ts in
    elim (checks (validate_summary req.summary) req.payload rest bus) [
      | inl (v, f, q) ↦ inl (record { summary_ok = v; payload_ok = f }, q)
      | inr (e, bad, q) ↦ inr (e, (λ v. bad v.summary_ok v.payload_ok), q)
    ]

receivers_all :
    (source : Message) (targets : List AgentId)
    → ((a : AgentId) → IsIn a targets → a ≢ source.from_agent)
    → receivers source targets ≡ targets
receivers_all source targets h =
    filter_all (λ t. not (t == source.from_agent)) targets
      (λ t i. ground (arith, text_ne_false t source.from_agent (h t i)))

-- What a broadcast leaves: the source and the copies behind the messages, and one event.
abbrev pub broadcasted : Message → List AgentId → MessageBus → MessageBus
broadcasted source targets bus = record {
  db =
      insert_trace (sent_event source "broadcast" (map (copy_id source.id) targets))
        (record bus.db { messages = bus.db.messages ++ (source ∷ map (copy_for source) targets) });
  seq = bus.seq;
}

-- The agents that a broadcast of the message reaches.
abbrev pub IsReached : Message → Db → AgentId → Type 0
IsReached m db a =
    (s : Subscription) × IsIn s db.subscriptions
    × (s.agent_id ≡ a)
    × (a ≢ m.from_agent)
    × Covers s (MessageKind.as_str m.kind) m.task_id m.from_agent

-- The part of a broadcast that follows the search of the subscriptions.
abbrev pub spread : Message → List AgentId → BusExec SendOutcome
spread m targets = do
  copies ← on_db (fanout m targets)
  trace (sent_event m "broadcast" copies)
  pure (fan_out m.id copies)

spread_ok :
    (m : Message) (targets : List AgentId) (bus : MessageBus) (out : SendOutcome)
    → (spread m targets bus).0 ≡ ok out
    → spread m targets bus ≡ (
      ok (fan_out m.id (map (copy_id m.id) (receivers m targets))),
      broadcasted m (receivers m targets) bus,
    )
spread_ok m targets bus out h =
    let (ids, h1, g1, q1) = >>=-eq-ok (on_db (fanout m targets)) _ bus out h in
    let (done, after) = on_db_ok (fanout m targets) bus ids h1 in
    let (names, rows) = fanout_ok m targets bus.db ids done in q1 ∙ rw (after, rows, names) refl

broadcast_ok :
    (m : Message) (ts : ℕ) (bus : MessageBus) (out : SendOutcome)
    → (send_broadcast m ts bus).0 ≡ ok out
    → Holds m.from_agent Capability.broadcast bus.db
      × ((targets : List AgentId) × IsAscending targets
          × ((a : AgentId) → IsIn a targets ↔ IsReached m bus.db a)
          × (send_broadcast m ts bus
              ≡ (ok (fan_out m.id (map (copy_id m.id) targets)), broadcasted m targets bus)))
broadcast_ok m ts bus out h =
    let kind = MessageKind.as_str m.kind in
    let find_targets = on_db (match_subscribers kind m.task_id m.from_agent) in
    let (u, h1, g1, q1) =
      >>=-eq-ok (require_capability m.from_agent Capability.broadcast ts) _ bus out h in
    let (holds, same) = capability_ok m.from_agent Capability.broadcast ts bus h1 in
    let (targets, found, asc, exact) = match_subscribers_exact kind m.task_id m.from_agent bus.db in
    let searched : find_targets bus ≡ (ok targets, bus) = ap (from_db bus.seq) found in
    let goes : send_broadcast m ts bus ≡ spread m targets bus =
      q1
      ∙ ap (find_targets >>= spread m) same
      ∙ >>=-ok find_targets (spread m) bus bus targets searched in
    let all = receivers_all m targets (λ a i. ((exact a).0 i).3) in
    let spreads = goes ∙ spread_ok m targets bus out (ap (λ r. r.0) (sym goes) ∙ h) in
    (
      holds,
      (
        targets,
        asc,
        exact,
        subst
            (λ l.
              send_broadcast m ts bus
              ≡ (ok (fan_out m.id (map (copy_id m.id) l)), broadcasted m l bus))
            all spreads,
      ),
    )

-- A broadcast that succeeds had a valid request and a sender with the broadcast capability. It
-- stores the message and one copy for each agent other than the sender that has a subscription
-- covering it, in ascending order with no repetition, and returns the ids of the copies.
pub send-broadcast :
    (req : SendRequest) (ts denied_ts : ℕ) (bus : MessageBus) (out : SendOutcome)
    → req.to ≡ none
    → (send req ts denied_ts bus).0 ≡ ok out
    → IsValid req
      × Holds req.from Capability.broadcast bus.db
      × ((targets : List AgentId) × IsAscending targets
          × ((a : AgentId) → IsIn a targets ↔ IsReached (sent_message req ts bus) bus.db a)
          × (send req ts denied_ts bus ≡ (
            ok (fan_out (message_id ts bus.seq) (map (copy_id (message_id ts bus.seq)) targets)),
            broadcasted (sent_message req ts bus) targets (advanced bus),
          )))
send-broadcast req ts denied_ts bus out to h = elim (send_cases req ts denied_ts bus) [
  | inr (e, bad, q) ↦ cc
  | inl (v, q) ↦
      let m = sent_message req ts bus in
      let d = q ∙ ap (λ t. deliver t m denied_ts (advanced bus)) to in
      let (holds, reached) =
        broadcast_ok m denied_ts (advanced bus) out (ap (λ r. r.0) (sym d) ∙ h) in
      (
        v,
        record { card = holds.card; registered = holds.registered; granted = holds.granted },
        let (targets, asc, exact, spreads) = reached in (targets, asc, exact, d ∙ spreads),
      )
]
