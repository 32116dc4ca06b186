-- ===== src/Db/Subscriptions/Matching.antt =====
-- Who receives a broadcast (crates/divan-db/src/subscriptions.rs).
use ajan_orkestrasyonu.Prelude.{
  ◌≡◌, refl, sym, ap, ◌∙◌, ◌≢◌, ◌↔◌, ◌⊎◌, inl, inr, true, ◌||◌, Option, none, some, String, ◌==◌,
  eq_iff, List, map, filter, arith, ok, IsIn, IsIn-filter, IsIn-map, map-IsIn, text_ne_false,
  text_ne, subst, holds_iff, Option-cases,
}
use ajan_orkestrasyonu.Prelude.Sort.{sort, IsIn-sort}
use ajan_orkestrasyonu.Prelude.Set.{set_of, IsIn-set_of, IsAscending, set_of-IsAscending}
use ajan_orkestrasyonu.Core.Ids.{AgentId}
use ajan_orkestrasyonu.Core.Subscription.{
  Subscription, EventFilter, matches, filter_matches, event_kind_any, task_id_ok, from_agent_ok,
}
use ajan_orkestrasyonu.Db.Store.{Db}
use ajan_orkestrasyonu.Db.Subscriptions.{subscription_le, wants, match_subscribers}

-- A constraint that is absent, or met.
abbrev pub Meets : Option String → Option String → Type 0
Meets want got = (want ≡ none) ⊎ ((w : String) × (want ≡ some w) × (got ≡ some w))

-- The subscription covers the message: its kind is the message's or the wildcard, and its filter,
-- if it has one, constrains nothing that the message does not meet.
pub record Covers (s : Subscription) (kind : String) (task_id : Option String) (from : String)
    : Type 0 where
  pub kind_ok : (s.event_kind ≡ event_kind_any) ⊎ (s.event_kind ≡ kind)
  pub filter_ok :
      (f : EventFilter)
      → s.filter ≡ some f
      → Meets f.task_id task_id × Meets f.from_agent (some from)

task_id_iff : (want got : Option String) → (task_id_ok want got ≡ true) ↔ Meets want got
task_id_iff none got = (λ _. inl refl, λ _. refl)
task_id_iff (some w) got = (
  λ h. inr (w, refl, (holds_iff got w).0 h),
  λ h. elim h [ inl e ↦ cc | inr (v, e, g) ↦ (holds_iff got w).1 (g ∙ sym e) ],
)

from_agent_iff :
    (want : Option String) (from : String)
    → (from_agent_ok want from ≡ true) ↔ Meets want (some from)
from_agent_iff none from = (λ _. inl refl, λ _. refl)
from_agent_iff (some w) from = (
  λ h. inr (w, refl, ap some (sym ((eq_iff w from).0 h))),
  λ h. elim h [ inl e ↦ cc | inr (v, e, g) ↦ (eq_iff w from).1 (ground arith) ],
)

filter_iff :
    (f : EventFilter) (task_id : Option String) (from : String)
    → (filter_matches f task_id from ≡ true)
      ↔ (Meets f.task_id task_id × Meets f.from_agent (some from))
unfolding filter_matches
filter_iff f task_id from =
    let t = task_id_iff f.task_id task_id in
    let a = from_agent_iff f.from_agent from in
    (λ h. (t.0 (ground arith), a.0 (ground arith)), λ h. ground (arith, t.1 h.0, a.1 h.1))

kind_iff :
    (have kind : String)
    → ((have == event_kind_any || have == kind) ≡ true) ↔ ((have ≡ event_kind_any) ⊎ (have ≡ kind))
kind_iff have kind = (
  λ h. ground (arith, eq_iff have event_kind_any, eq_iff have kind),
  λ h. ground (arith, eq_iff have event_kind_any, eq_iff have kind),
)

-- `Subscription::matches` decides `Covers`.
pub matches_iff :
    (s : Subscription) (kind : String) (task_id : Option String) (from : String)
    → (matches s kind task_id from ≡ true) ↔ Covers s kind task_id from
unfolding matches
matches_iff s kind task_id from =
    let k = kind_iff s.event_kind kind in
    elim (Option-cases s.filter) [
      | inl e ↦ (
        λ h. record { kind_ok = k.0 (ground arith); filter_ok = λ f q. cc },
        λ c. ground (arith, k.1 c.kind_ok),
      )
      | inr (g, e) ↦
          let f = filter_iff g task_id from in
          (
            λ h. record {
              kind_ok = k.0 (ground arith);
              filter_ok = λ f' q.
                  subst
                    (λ (x : EventFilter). Meets x.task_id task_id × Meets x.from_agent (some from))
                    (cc) (f.0 (ground arith));
            },
            λ c. ground (arith, k.1 c.kind_ok, f.1 (c.filter_ok g e)),
          )
    ]

wants_iff :
    (s : Subscription) (kind : String) (task_id : Option String) (from : AgentId)
    → (wants kind task_id from s ≡ true) ↔ ((s.agent_id ≢ from) × Covers s kind task_id from)
wants_iff s kind task_id from =
    let m = matches_iff s kind task_id from in
    (
      λ h. (text_ne s.agent_id from (ground arith), m.0 (ground arith)),
      λ h. ground (arith, text_ne_false s.agent_id from h.0, m.1 h.1),
    )

-- The receivers of a broadcast are listed in ascending order with no repetition, and they are
-- exactly the agents other than the sender that have a subscription which covers the message.
pub match_subscribers_exact :
    (kind : String) (task_id : Option String) (from : AgentId) (db : Db)
    → (out : List AgentId) × (match_subscribers kind task_id from db ≡ (ok out, db))
      × IsAscending out
      × ((a : AgentId)
          → IsIn a out ↔ (
              (s : Subscription) × IsIn s db.subscriptions
              × (s.agent_id ≡ a)
              × (a ≢ from)
              × Covers s kind task_id from))
unfolding match_subscribers
match_subscribers_exact kind task_id from db =
    let kept = filter (wants kind task_id from) (sort subscription_le db.subscriptions) in
    let names = map (λ s. s.agent_id) kept in
    (
      set_of names,
      refl,
      set_of-IsAscending names,
      λ a. (
        λ h.
            let (s, i, e) =
              IsIn-map (λ (x : Subscription). x.agent_id) a kept ((IsIn-set_of a names).0 h) in
            let (j, w) = (IsIn-filter (wants kind task_id from) s _).0 i in
            let (ne, c) = (wants_iff s kind task_id from).0 w in
            (
              s,
              (IsIn-sort subscription_le s db.subscriptions).0 j,
              sym e,
              (λ q. ne (sym e ∙ q)),
              c,
            ),
        λ h.
            let w = (wants_iff h.0 kind task_id from).1 ((λ q. h.3 (sym h.2 ∙ q)), h.4) in
            let i =
              (IsIn-filter (wants kind task_id from) h.0 (sort subscription_le db.subscriptions)).1
                ((IsIn-sort subscription_le h.0 db.subscriptions).1 h.1, w) in
            (IsIn-set_of a names).1 (
              subst (λ x. IsIn x names) h.2
                (map-IsIn (λ (x : Subscription). x.agent_id) h.0 kept i)),
      ),
    )
