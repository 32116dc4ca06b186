-- ===== src/Daemon/Scheduler/Reviewer.antt =====
-- The choice of the reviewer, and its explanation (crates/divan-daemon/src/scheduler.rs), with the
-- `--allow-tool` preview of Copilot (crates/divan-adapters/src/copilot.rs).
use Prim.Native.String.{◌++◌ as concat}
use ajan_orkestrasyonu.Prelude.{
  ℕ, Bool, true, false, not, ◌&&◌, Option, none, some, String, ◌==◌, List, [], ◌∷◌, find, filter,
  map_or, same, Result, ok, err, pure, ◌>>=◌, ◌>>◌,
}
use ajan_orkestrasyonu.Core.Ids.{AgentId, TraceId}
use ajan_orkestrasyonu.Core.Agent.{AgentCard}
use ajan_orkestrasyonu.Core.AgentTool
use ajan_orkestrasyonu.Core.TaskKind
use ajan_orkestrasyonu.Core.TaskKind.{TaskKind}
use ajan_orkestrasyonu.Core.Task.{Task}
use ajan_orkestrasyonu.Core.TraceEventKind.{router_decision}
use ajan_orkestrasyonu.Core.Trace.{new, with_agent, with_data, routed}
use ajan_orkestrasyonu.Db.Tasks.{list_tasks}
use ajan_orkestrasyonu.Db.Agents.{list_agents}
use ajan_orkestrasyonu.Daemon.Router.{Rule, RouteTask, Decision, RouterError, pick}
use ajan_orkestrasyonu.Daemon.Scheduler.{Env, SchedExec, FlowExec, now_ms, append, on_db, must_get}

abbrev pub route_review : RouteTask
route_review = record { kind = TaskKind.review; multi_turn = false }

abbrev pub writer_card : AgentId → List AgentCard → Option AgentCard
writer_card writer cards = find (λ c. c.id == writer) cards

abbrev pub others : AgentId → List AgentCard → List AgentCard
others writer cards = filter (λ c. not (c.id == writer)) cards

-- `matches!(task.kind, Review | Research | Analyze | Report)`
abbrev pub is_one_shot : TaskKind → Bool
is_one_shot TaskKind.review = true
is_one_shot TaskKind.research = true
is_one_shot TaskKind.analyze = true
is_one_shot TaskKind.report = true
is_one_shot _ = false

-- `compile_allow_tools`
unfoldable pub compile_allow_tools : Bool → Option String → List String
compile_allow_tools true worktree = []
compile_allow_tools false none = "write" ∷ []
compile_allow_tools false (some path) = concat "write(" (concat path "/**)") ∷ []

pub record Picked : Type 0 where
  pub task : String
  pub kind : TaskKind
  pub picked : AgentId
  pub author : Option AgentId
  pub matched_rules : List ℕ
  pub reasons : List String
  pub allow_tool : Option (List String)

-- The three JSON answers.
pub data Explanation : Type 0 where
  no_router : Explanation
  explained : Picked → Explanation
  no_route : (task : String) → RouterError → Explanation

-- The assignee of the first implement task of the same trace.
abbrev pub author_of : Task → List Task → List AgentCard → Option AgentCard
author_of task tasks cards =
    elim (find
      (λ t. t.trace_id == task.trace_id && same TaskKind.discrete t.kind TaskKind.implement)
      tasks) [ none ↦ none | some t ↦ map_or none (λ a. find (λ c. c.id == a) cards) t.assignee ]

abbrev pub not_author : Option AgentCard → List AgentCard → List AgentCard
not_author author cards = filter (λ c. map_or true (λ a. not (a.id == c.id)) author) cards

abbrev pub preview : Bool → AgentId → List AgentCard → Option (List String)
preview one_shot agent cards =
    elim (find (λ c. c.id == agent && same AgentTool.discrete c.tool AgentTool.copilot) cards) [
      | none ↦ none
      | some c ↦ some (compile_allow_tools one_shot none)
    ]

abbrev pub explain_pick :
    String → Task → Option AgentCard → List AgentCard → Result RouterError Decision → Explanation
explain_pick task_id task author cards (ok d) = explained (record {
  task = task_id;
  kind = task.kind;
  picked = d.agent;
  author = map_or none (λ a. some a.id) author;
  matched_rules = d.matched_rules;
  reasons = d.reasons;
  allow_tool = preview (is_one_shot task.kind) d.agent cards;
})
explain_pick task_id task author cards (err e) = no_route task_id e

module _ {W : Type 0} where
  abbrev pub explain_with : String → Option (List Rule) → FlowExec W Explanation
  explain_with task_id none = pure no_router
  explain_with task_id (some rules) = do
    task ← must_get task_id
    cards ← on_db list_agents
    tasks ← on_db list_tasks
    pure (
        let author = author_of task tasks cards in
        explain_pick task_id task author cards (
          pick rules (record { kind = task.kind; multi_turn = not (is_one_shot task.kind) })
            (not_author author cards) author))

  unfoldable pub explain_route : String → FlowExec W Explanation
  explain_route task_id s = explain_with task_id s.router s

  module _ (env : Env W) where
    abbrev pub choose :
        {E : Type 0}
        → AgentId
        → AgentId
        → TraceId
        → Result RouterError Decision
        → SchedExec W E AgentId
    choose writer default_reviewer trace (ok d) = do
      ts ← now_ms env
      append env (
          with_data (with_agent (new trace router_decision ts) d.agent)
            (routed writer d.matched_rules d.reasons))
      pure d.agent
    choose writer default_reviewer trace (err e) = pure default_reviewer

    -- `list_agents` has no error here.
    abbrev pub select_from :
        {E : Type 0}
        → AgentId
        → AgentId
        → TraceId
        → Option (List Rule)
        → List AgentCard
        → SchedExec W E AgentId
    select_from writer default_reviewer trace none cards = pure default_reviewer
    select_from writer default_reviewer trace (some rules) cards =
        choose writer default_reviewer trace
          (pick rules route_review (others writer cards) (writer_card writer cards))

    abbrev pub cards_of : {E : Type 0} → SchedExec W E (List AgentCard)
    cards_of s = elim (list_agents s.db).0 [ ok cards ↦ (ok cards, s) | err e ↦ (ok [], s) ]

    unfoldable pub select_reviewer :
        {E : Type 0} → AgentId → AgentId → TraceId → SchedExec W E AgentId
    select_reviewer writer default_reviewer trace s =
        (cards_of >>= select_from writer default_reviewer trace s.router) s
