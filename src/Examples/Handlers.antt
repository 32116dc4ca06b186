-- ===== src/Examples/Handlers.antt =====
-- The theorems on the bus, the task tools and the reconciliation at the sample.

use ajan_orkestrasyonu.Prelude.{
  find, ℕ, ◌+◌, ◌%◌, ◌≡◌, refl, ◌↔◌, ◌⊎◌, true, false, Option, none, some, String, List, [], ◌∷◌,
  ◌++◌, map, any, count_if, IsIn, Distinct, ok, err,
}
use ajan_orkestrasyonu.Core.TaskState
use ajan_orkestrasyonu.Core.TaskState.{TaskState}
use ajan_orkestrasyonu.Core.Capability
use ajan_orkestrasyonu.Core.Capability.{Capability}
use ajan_orkestrasyonu.Core.AgentStatus.{AgentStatus}
use ajan_orkestrasyonu.Prelude.{text_ne}
use ajan_orkestrasyonu.Daemon.Bus.{denied}
use ajan_orkestrasyonu.Daemon.Policy.{check}
use ajan_orkestrasyonu.Db.Conflicts
use ajan_orkestrasyonu.Core.Ids.{AgentId, TaskId}
use ajan_orkestrasyonu.Core.Message.{validate_summary, Message}
use ajan_orkestrasyonu.Core.Agent.{AgentCard, has}
use ajan_orkestrasyonu.Core.Subscription.{matches}
use ajan_orkestrasyonu.Core.Error.{illegal_transition}
use ajan_orkestrasyonu.Core.Task.{Task}
use ajan_orkestrasyonu.Db.Store.{TaskRow, Db, domain}
use ajan_orkestrasyonu.Db.Tasks.{row_to_task, get_task, transition, assign, row_le, list_tasks}
use ajan_orkestrasyonu.Db.Messages.{has_message_id, insert_row, copy_id, copy_to, fanout}
use ajan_orkestrasyonu.Db.Subscriptions.{match_subscribers}
use ajan_orkestrasyonu.Db.Agents.{get_agent}
use ajan_orkestrasyonu.Prelude.Set.{IsAscending}
use ajan_orkestrasyonu.Prelude.Decimal.{show_fuel, show}
use ajan_orkestrasyonu.Daemon.Bus.{
  u64_mod, message_id, next_id, require_capability, send, delivered_event, confirm_delivery, direct,
  fan_out,
}
use ajan_orkestrasyonu.Daemon.Policy.{required_cap}
use ajan_orkestrasyonu.Daemon.Policy.Checks.{Holds}
use ajan_orkestrasyonu.Daemon.Bus.Send.{
  IsValid, sent_message, advanced, broadcasted, IsReached, send-broadcast,
}
use ajan_orkestrasyonu.Daemon.Bus.Direct.{direct_message, direct_event, send-direct}
use ajan_orkestrasyonu.Daemon.Bus.Faults.{send_err}
use ajan_orkestrasyonu.Daemon.Bus.Receipts.{confirm_delivery-again}
use ajan_orkestrasyonu.Daemon.Mcp.{is_claimable, store_error, parse_kind, claim_task, complete_task}
use ajan_orkestrasyonu.Daemon.Mcp.Claim.{IsClaimable, IsClaimedBy, claim_task-oldest}
use ajan_orkestrasyonu.Daemon.Mcp.Race.{
  claim_steps, run_alone, take_turns, go_left, go_right, claims_interleaved,
}
use ajan_orkestrasyonu.Daemon.Mcp.Complete.{complete_task-done}
use ajan_orkestrasyonu.Daemon.Lifecycle.{reconcile}
use ajan_orkestrasyonu.Daemon.Lifecycle.Reconciled.{is_orphan}
use ajan_orkestrasyonu.Daemon.Lifecycle.Total.{reconcile_total}
use ajan_orkestrasyonu.Core.TaskState.{can_transition_to}
use ajan_orkestrasyonu.Examples.Data.{row, sample, sample_bus, request, clock}

broadcast_sent : (send request 5 6 sample_bus).0 ≡ ok (fan_out "msg-5-7" ("msg-5-7#bob" ∷ []))
unfolding send next_id require_capability get_agent has match_subscribers matches fanout copy_to
    insert_row validate_summary Capability.discrete show show_fuel
broadcast_sent = refl

send-broadcast_example :
    IsValid request
    × Holds request.from Capability.broadcast sample_bus.db
    × ((targets : List AgentId) × IsAscending targets
        × ((a : AgentId)
            → IsIn a targets ↔ IsReached (sent_message request 5 sample_bus) sample_bus.db a)
        × (send request 5 6 sample_bus ≡ (
          ok (
              fan_out
                (message_id 5 sample_bus.seq)
                (map (copy_id (message_id 5 sample_bus.seq)) targets)),
          broadcasted (sent_message request 5 sample_bus) targets (advanced sample_bus),
        )))
send-broadcast_example =
    send-broadcast request 5 6 sample_bus (fan_out "msg-5-7" ("msg-5-7#bob" ∷ [])) refl
      broadcast_sent

direct-IsValid : IsValid (record request { to = some "bob"; payload = none })
unfolding validate_summary
direct-IsValid = record { summary_ok = refl; payload_ok = λ p e. cc }

direct_free : any (has_message_id (message_id 5 7)) sample.messages ≡ false
unfolding show show_fuel
direct_free = refl

send-direct_example :
    let req = record request { to = some "bob"; payload = none } in
    send req 5 6 sample_bus ≡ (
      ok (direct (message_id 5 sample_bus.seq)),
      record {
        db = record sample_bus.db {
          messages = sample_bus.db.messages ++ (direct_message req 5 sample_bus "bob" ∷ []);
          trace_events = sample_bus.db.trace_events ++ (direct_event req 5 sample_bus ∷ []);
        };
        seq = (sample_bus.seq + 1) % u64_mod;
      },
    )
send-direct_example =
    send-direct (record request { to = some "bob"; payload = none }) 5 6 sample_bus "bob" refl
      direct-IsValid direct_free

bob_denied :
    (send (record request { from = "bob" }) 5 6 sample_bus).0
    ≡ err (denied "bob" Capability.broadcast)
unfolding send next_id require_capability get_agent has validate_summary Capability.discrete
bob_denied = refl

send_err_example :
    (send (record request { from = "bob" }) 5 6 sample_bus).1.db.messages ≡ sample_bus.db.messages
send_err_example =
    send_err (record request { from = "bob" }) 5 6 sample_bus (denied "bob" Capability.broadcast)
      bob_denied

abbrev path_text : String → String
path_text path = path

confirm_delivery-again_example :
    let once = (confirm_delivery ("m1" ∷ []) "bob" 8 sample_bus).1 in
    confirm_delivery ("m1" ∷ []) "bob" 9 once ≡ (
      ok 0,
      record once {
        db = record once.db {
          trace_events = once.db.trace_events ++ map (delivered_event "bob" 9) ("m1" ∷ []);
        };
      },
    )
confirm_delivery-again_example = confirm_delivery-again ("m1" ∷ []) "bob" 8 9 sample_bus

abbrev given_task : Option TaskId
given_task = some "t4"

claim_ok : (claim_task (some "bob") none clock sample).0 ≡ ok (some "t4")
unfolding claim_task check required_cap list_tasks assign transition can_transition_to
    TaskState.discrete
claim_ok = refl

claim_task-oldest_example :
    ((row : TaskRow) × (given_task ≡ some row.id)
      × IsIn row sample.tasks
      × IsClaimable (parse_kind none) (row_to_task row)
      × ((r : TaskRow)
          → IsIn r sample.tasks
          → IsClaimable (parse_kind none) (row_to_task r)
          → row_le row r ≡ true)
      × IsClaimedBy "bob" row.id (claim_task (some "bob") none clock sample).1)
    ⊎ ((given_task ≡ none)
        × ((claim_task (some "bob") none clock sample).1 ≡ sample)
        × ((r : TaskRow) → IsIn r sample.tasks → IsClaimable (parse_kind none) (row_to_task r) → ⊥))
claim_task-oldest_example = claim_task-oldest "bob" none clock sample given_task claim_ok

abbrev listed_tasks : List Task
listed_tasks =
    map row_to_task
      (row "t4" "open" 2 ∷ row "t2" "done" 3 ∷ row "t3" "working" 4 ∷ row "t1" "open" 5 ∷ [])

sample_listed : (list_tasks sample).0 ≡ ok listed_tasks
unfolding list_tasks
sample_listed = refl

chosen : find (is_claimable (parse_kind none)) listed_tasks ≡ some (row_to_task (row "t4" "open" 2))
unfolding TaskState.discrete
chosen = refl

claims_interleaved_example :
    let r = take_turns (go_left ∷ go_right ∷ go_left ∷ go_right ∷ []) (record {
      left = ok (claim_steps "t4" "alice" clock);
      right = ok (claim_steps "t4" "bob" clock);
      db = sample;
    }) in
    (claim_task (some "alice") none clock sample
      ≡ run_alone "t4" (claim_steps "t4" "alice" clock) sample)
    × (claim_task (some "bob") none clock sample
        ≡ run_alone "t4" (claim_steps "t4" "bob" clock) sample)
    × (r.left ≡ ok [])
    × (r.right
        ≡ err (store_error (domain (illegal_transition TaskState.claimed TaskState.claimed))))
    × IsClaimedBy "bob" "t4" r.db
claims_interleaved_example =
    claims_interleaved "alice" "bob" none none clock clock sample listed_tasks (row "t4" "open" 2)
      sample_listed chosen chosen refl refl refl refl

complete_task-done_example :
    (after : Db) × (complete_task "t3" none clock sample ≡ (ok ("t3", none), after))
    × ((t : Task) × ((get_task "t3" after).0 ≡ ok (some t)) × (t.state ≡ TaskState.done))
complete_task-done_example =
    complete_task-done "t3" none clock sample (row "t3" "working" 4) TaskState.working refl refl
      refl

keyed : Distinct (map (λ r. r.id) sample.tasks)
keyed = (
  (text_ne "t1" "t2" refl, (text_ne "t1" "t3" refl, (text_ne "t1" "t4" refl, tt))),
  (
    (text_ne "t2" "t3" refl, (text_ne "t2" "t4" refl, tt)),
    ((text_ne "t3" "t4" refl, tt), (tt, tt)),
  ),
)

reconcile_total_example :
    (n : ℕ) × (after : Db) × (reconcile clock sample ≡ (ok n, after))
    × (n ≡ count_if is_orphan sample.tasks)
    × ((r : TaskRow) → IsIn r after.tasks → is_orphan r ≡ false)
    × ((a : AgentCard) → IsIn a after.agents → a.status ≡ AgentStatus.offline)
reconcile_total_example = reconcile_total clock sample keyed
