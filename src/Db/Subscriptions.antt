-- ===== src/Db/Subscriptions.antt =====
-- Subscriptions and their matching (crates/divan-db/src/subscriptions.rs).
pub mod Matching
use ajan_orkestrasyonu.Prelude.{
  Bool, not, ◌&&◌, Option, String, ◌==◌, List, [], ◌∷◌, ◌++◌, map, any, filter, update_if, ok, gets,
  if◌then◌else◌,
}
use ajan_orkestrasyonu.Prelude.Order.{text_leb}
use ajan_orkestrasyonu.Prelude.Sort.{sort}
use ajan_orkestrasyonu.Prelude.Set.{set_of}
use ajan_orkestrasyonu.Core.Ids.{AgentId}
use ajan_orkestrasyonu.Core.Subscription.{Subscription, matches}
use ajan_orkestrasyonu.Db.Store.{DbExec}

abbrev pub same_key : AgentId → String → Subscription → Bool
same_key agent_id event_kind s = s.agent_id == agent_id && s.event_kind == event_kind

-- `ON CONFLICT(agent_id, event_kind) DO UPDATE SET filter = excluded.filter`
unfoldable pub subscribe : Subscription → DbExec (Unit {0})
subscribe sub db =
    if any (same_key sub.agent_id sub.event_kind) db.subscriptions
    then (
      ok tt,
      record db {
        subscriptions =
            update_if (same_key sub.agent_id sub.event_kind) (λ s. record s { filter = sub.filter })
              db.subscriptions;
      },
    )
    else (ok tt, record db { subscriptions = db.subscriptions ++ (sub ∷ []) })

unfoldable pub unsubscribe : AgentId → String → DbExec (Unit {0})
unsubscribe agent_id event_kind db = (
  ok tt,
  record db { subscriptions = filter (λ s. not (same_key agent_id event_kind s)) db.subscriptions },
)

-- `ORDER BY agent_id, event_kind`
abbrev pub subscription_le : Subscription → Subscription → Bool
subscription_le a b =
    if a.agent_id == b.agent_id
    then text_leb a.event_kind b.event_kind
    else text_leb a.agent_id b.agent_id

unfoldable pub list_subscriptions : DbExec (List Subscription)
list_subscriptions = gets (λ db. sort subscription_le db.subscriptions)

abbrev pub wants : String → Option String → AgentId → Subscription → Bool
wants kind task_id from_agent s =
    not (s.agent_id == from_agent) && matches s kind task_id from_agent

-- The loop inserts the agents into a `BTreeSet`, which drops repetitions and sorts.
unfoldable pub match_subscribers : String → Option String → AgentId → DbExec (List AgentId)
match_subscribers kind task_id from_agent = gets (λ db. set_of (
    map (λ s. s.agent_id)
      (filter (wants kind task_id from_agent) (sort subscription_le db.subscriptions))))
