-- ===== src/Examples/Messages.antt =====
-- The message, subscription and conflict theorems at the sample.

use ajan_orkestrasyonu.Prelude.{
  ℕ, ◌+◌, ◌≡◌, refl, ◌≢◌, ◌↔◌, inl, none, some, not, filter, ◌==◌, ◌++◌, List, [], ◌∷◌, map,
  count_if, update_if, IsIn, ok,
}
use ajan_orkestrasyonu.Prelude.{text_ne}
use ajan_orkestrasyonu.Core.Ids.{AgentId}
use ajan_orkestrasyonu.Core.Message.{validate_summary}
use ajan_orkestrasyonu.Core.Subscription.{Subscription}
use ajan_orkestrasyonu.Db.Messages.{copy_id, fanout, stamp, stamp_all, mark_delivered}
use ajan_orkestrasyonu.Db.Messages.Total.{fanout_total}
use ajan_orkestrasyonu.Db.Messages.Delivery.{is_covered, is_queued, mark_delivered_exact}
use ajan_orkestrasyonu.Db.Subscriptions.{match_subscribers}
use ajan_orkestrasyonu.Db.Subscriptions.Matching.{Covers, match_subscribers_exact}
use ajan_orkestrasyonu.Prelude.Set.{IsAscending}
use ajan_orkestrasyonu.Examples.Data.{bob, carol, message, news, sample}

news_valid : validate_summary news.summary ≡ none
unfolding validate_summary
news_valid = refl

two_names : bob ≢ carol
two_names = text_ne "bob" "carol" refl

fanout_total_example :
    let reached = filter (λ t. not (t == news.from_agent)) ("bob" ∷ "carol" ∷ []) in
    fanout news ("bob" ∷ "carol" ∷ []) sample ≡ (
      ok (map (copy_id news.id) reached),
      record sample {
        messages =
            sample.messages
            ++ (news
                ∷ map
                    (λ t. record news {
                      id = copy_id news.id t;
                      origin_message_id = some news.id;
                      to_agent = some t;
                      delivered_at = none;
                    })
                    reached);
      },
    )
fanout_total_example =
    fanout_total news ("bob" ∷ "carol" ∷ []) sample news_valid refl ((two_names, tt), (tt, tt)) refl
      (refl, (refl, tt))

mark_delivered_exact_example :
    (n : ℕ) × (mark_delivered ("m1" ∷ []) 8 sample ≡ (
      ok n,
      record sample { messages = update_if (is_covered ("m1" ∷ [])) (stamp 8) sample.messages },
    ))
    × (count_if is_queued sample.messages
        ≡ n + count_if is_queued (mark_delivered ("m1" ∷ []) 8 sample).1.messages)
mark_delivered_exact_example = mark_delivered_exact ("m1" ∷ []) 8 sample

delivered-IsIn :
    IsIn
      (record (message "m1") { delivered_at = some 8 })
      (mark_delivered ("m1" ∷ []) 8 sample).1.messages
unfolding mark_delivered stamp_all
delivered-IsIn = inl refl

match_subscribers_exact_example :
    (out : List AgentId) × (match_subscribers "alert" none "alice" sample ≡ (ok out, sample))
    × IsAscending out
    × ((a : AgentId)
        → IsIn a out ↔ (
            (s : Subscription) × IsIn s sample.subscriptions
            × (s.agent_id ≡ a)
            × (a ≢ "alice")
            × Covers s "alert" none "alice"))
match_subscribers_exact_example = match_subscribers_exact "alert" none "alice" sample
