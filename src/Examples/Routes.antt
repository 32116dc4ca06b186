-- ===== src/Examples/Routes.antt =====
-- The router theorems at the agents of the sample.

use ajan_orkestrasyonu.Prelude.{ℕ, ◌≡◌, refl, ◌↔◌, true, none, some, List, [], ◌∷◌, IsIn, ok, err}
use ajan_orkestrasyonu.Core.AgentStatus.{AgentStatus}
use ajan_orkestrasyonu.Core.AgentTool
use ajan_orkestrasyonu.Core.AgentTool.{AgentTool}
use ajan_orkestrasyonu.Core.TaskKind
use ajan_orkestrasyonu.Core.TaskKind.{TaskKind}
use ajan_orkestrasyonu.Prelude.Decimal.{show, show_fuel}
use ajan_orkestrasyonu.Core.Agent.{AgentCard}
use ajan_orkestrasyonu.Daemon.Router.{
  Rule, RouteTask, Decision, applies, matched_from, pool_of, score, score_of, reasons_of, outranks,
  max_from, pick, no_candidate,
}
use ajan_orkestrasyonu.Daemon.Router.Costs.{cost_matches}
use ajan_orkestrasyonu.Daemon.Router.Eligible.{IsEligible}
use ajan_orkestrasyonu.Daemon.Router.Winner.{IsBetter, pick-winner, pick_err_iff}
use ajan_orkestrasyonu.Daemon.Router.Points.{Points, score_exact}
use ajan_orkestrasyonu.Examples.Data.{alice, agent, sample}

abbrev author_card : AgentCard
author_card = record (agent alice [] AgentStatus.idle) { tool = AgentTool.codex }

-- Prefer cheap agents of another vendor; no agent of the tool `agy`.
abbrev review_rule : Rule
review_rule = record {
  match_ = record { kind = some TaskKind.review; multi_turn = none };
  prefer =
      some
        (record { cost_class = some "<=3"; skills = none; different_vendor_than = some "author" });
  exclude = some (record { tool = some AgentTool.agy; multi_turn = none });
}

abbrev review_rules : List Rule
review_rules = review_rule ∷ []

abbrev review_task : RouteTask
review_task = record { kind = TaskKind.review; multi_turn = true }

abbrev chosen : Decision
chosen = record {
  agent = "alice";
  matched_rules = 0 ∷ [];
  reasons = reasons_of (some author_card) ((0, review_rule) ∷ []) sample.agents;
}

picked : pick review_rules review_task sample.agents (some author_card) ≡ ok chosen
unfolding pick pool_of applies score cost_matches outranks max_from show show_fuel
    AgentTool.discrete TaskKind.discrete
picked = refl

pick-winner_example :
    (c : AgentCard) × (chosen.agent ≡ c.id)
    × IsIn c sample.agents
    × IsEligible review_rules review_task c
    × ((a : AgentCard)
        → IsIn a sample.agents
        → IsEligible review_rules review_task a
        → let rank = λ (x : AgentCard).
          (score_of (some author_card) (matched_from 0 review_rules review_task) x).0 in
          IsBetter (rank a, a) (rank c, c) → ⊥)
pick-winner_example =
    pick-winner review_rules review_task sample.agents (some author_card) chosen picked

pick_err_iff_example :
    (pick review_rules review_task sample.agents (some author_card)
      ≡ err (no_candidate review_task.kind))
    ↔ ((c : AgentCard) → IsIn c sample.agents → IsEligible review_rules review_task c → ⊥)
pick_err_iff_example = pick_err_iff review_rules review_task sample.agents (some author_card)

abbrev one_match : List (ℕ × Rule)
one_match = (0, review_rule) ∷ []

score_exact_example :
    Points author_card
      (some author_card)
      one_match
      (score_of (some author_card) one_match author_card).0.gain
      (score_of (some author_card) one_match author_card).0.loss
score_exact_example = score_exact (some author_card) one_match author_card
