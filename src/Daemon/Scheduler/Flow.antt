-- ===== src/Daemon/Scheduler/Flow.antt =====
-- The write-review flow (crates/divan-daemon/src/scheduler.rs): one agent implements, another
-- reviews, and the report links what they left. A part of `run_write_review` is a definition of
-- its own where the code repeats it or a comment sets it off.
use Prim.Native.String.{◌++◌ as concat}
use ajan_orkestrasyonu.Prelude.{
  ℕ, Bool, true, false, Option, none, some, String, ◌∷◌, Result, ok, err, pure, raise, ◌>>=◌, ◌>>◌,
}
use ajan_orkestrasyonu.Prelude.Decimal.{show}
use ajan_orkestrasyonu.Core.Ids.{AgentId, TaskId, TraceId, ArtifactRef}
use ajan_orkestrasyonu.Core.AgentStatus
use ajan_orkestrasyonu.Core.TaskKind.{TaskKind}
use ajan_orkestrasyonu.Core.TaskState
use ajan_orkestrasyonu.Core.Task.{Task, completed, fatal, other}
use ajan_orkestrasyonu.Core.TraceEventKind.{worktree_created, artifact_published}
use ajan_orkestrasyonu.Core.Trace.{worktree, published}
use ajan_orkestrasyonu.Db.Tasks
use ajan_orkestrasyonu.Db.Tasks.{add_dep, assign}
use ajan_orkestrasyonu.Db.Agents.{set_agent_status}
use ajan_orkestrasyonu.Db.Artifacts.{put}
use ajan_orkestrasyonu.Daemon.Worktrees.{Worktree}
use ajan_orkestrasyonu.Daemon.Scheduler.{
  Env, Scheduler, FlowExec, FlowError, SessionFail, FinalReport, implement_failed, review_failed,
  now_ms, trace, on_db, on_store, must_get, create_worktree, commit_worktree, worktree_diff,
  transition, try_transition, fail_task, set_idle,
}
use ajan_orkestrasyonu.Daemon.Scheduler.Session.{SessionOutcome, run_session}
use ajan_orkestrasyonu.Daemon.Scheduler.Reviewer.{select_reviewer}
use ajan_orkestrasyonu.Daemon.Scheduler.Slug.{slugify}

-- What the parts of one run share; `now` names its tasks.
pub record FlowCtx : Type 0 where
  pub trace_id : TraceId
  pub spec_ref : ArtifactRef
  pub now : ℕ

abbrev pub root_id : ℕ → TaskId
root_id now = concat "root-" (show now)

abbrev pub impl_id : ℕ → TaskId
impl_id now = concat "impl-" (show now)

abbrev pub review_id : ℕ → TaskId
review_id now = concat "review-" (show now)

abbrev pub new_task : FlowCtx → TaskId → Option TaskId → TaskKind → String → Task
new_task ctx id parent kind title = record {
  id = id;
  parent_id = parent;
  kind = kind;
  title = title;
  spec_ref = some ctx.spec_ref;
  state = TaskState.«open»;
  assignee = none;
  worktree = none;
  max_runtime_secs = none;
  trace_id = ctx.trace_id;
  created_at = ctx.now;
  updated_at = ctx.now;
}

abbrev pub review_body : String → AgentId → Option String → String
review_body title reviewer none = concat "Review of '" (
    concat title
      (concat "' by " (concat reviewer " produced no textual output; see trace timeline.")))
review_body title reviewer (some text) = text

module _ {W : Type 0} where
  unfoldable pub create_task :
      FlowCtx → TaskId → Option TaskId → TaskKind → String → FlowExec W (Unit {0})
  create_task ctx id parent kind title =
      on_db (Tasks.create_task (new_task ctx id parent kind title))

  -- The root, its two children, and the dependency.
  unfoldable pub create_tasks : FlowCtx → String → FlowExec W (Unit {0})
  create_tasks ctx title = do
    create_task ctx (root_id ctx.now) none TaskKind.plan title
    create_task ctx (impl_id ctx.now) (some (root_id ctx.now)) TaskKind.implement
        (concat "implement: " title)
    create_task ctx (review_id ctx.now) (some (root_id ctx.now)) TaskKind.review
        (concat "review: " title)
    on_db (add_dep (review_id ctx.now) (impl_id ctx.now))

  -- The run, under the ids of the root and of the implement task.
  abbrev pub insert_runs : ℕ → String → Worktree → FlowExec W (Unit {0})
  insert_runs now repo wt s = (
    ok tt,
    record s {
      runs =
          (impl_id now, record { repo = repo; worktree = wt })
          ∷ (root_id now, record { repo = repo; worktree = wt })
          ∷ s.runs;
    },
  )

  module _ (env : Env W) where
    unfoldable pub publish : String → String → String → Option AgentId → ℕ → FlowExec W ArtifactRef
    publish content mime summary created_by ts s =
        on_store
          (put env.os env.digest s.artifact_root content (some mime) (some summary) created_by ts) s

    unfoldable pub open_worktree : FlowCtx → String → String → FlowExec W Worktree
    open_worktree ctx repo slug = do
      wt ← create_worktree env repo (impl_id ctx.now) slug
      root ← must_get (root_id ctx.now)
      trace env root none worktree_created (worktree (impl_id ctx.now) wt.branch wt.path)
      insert_runs ctx.now repo wt
      pure wt

    -- The agent takes the task up: from `Busy` to `Working`. The task is read before it is claimed.
    unfoldable pub take_up : TaskId → AgentId → Worktree → FlowExec W Task
    take_up id agent wt = do
      on_db (set_agent_status agent AgentStatus.busy none)
      ts ← now_ms env
      on_db (assign id agent (some wt.path) ts)
      task ← must_get id
      transition env id TaskState.claimed (other "assigned")
      transition env id TaskState.working (other "spawn")
      pure task

    -- A failed session fails the task and the root, and ends the run.
    abbrev pub give_up :
        {A : Type 0} → TaskId → TaskId → AgentId → (String → FlowError) → SessionFail → FlowExec W A
    give_up root id agent wrap fail = do
      reason ← fail_task env id fail
      try_transition env root TaskState.failed fatal
      set_idle agent
      raise (wrap reason)

    abbrev pub settle :
        TaskId
        → TaskId
        → AgentId
        → (String → FlowError)
        → Result SessionFail SessionOutcome × Scheduler W
        → Result FlowError SessionOutcome × Scheduler W
    settle root id agent wrap (err fail, s) = give_up root id agent wrap fail s
    settle root id agent wrap (ok outcome, s) =
        (do transition env id TaskState.done completed; set_idle agent; pure outcome) s

    -- The session of a task and what becomes of the task.
    unfoldable pub work :
        TaskId
        → TaskId
        → AgentId
        → (String → FlowError)
        → Bool
        → Worktree
        → FlowExec W SessionOutcome
    work root id agent wrap read_only wt = do
      task ← take_up id agent wt
      (λ s. settle root id agent wrap (run_session env task agent read_only (some wt.path) s))

    -- What the writer left, committed and published.
    unfoldable pub snapshot : String → String → AgentId → Worktree → FlowExec W ArtifactRef
    snapshot title repo writer wt = do
      commit_worktree env wt (concat "divan: implement " title)
      diff ← worktree_diff env repo wt
      ts ← now_ms env
      publish diff "text/x-diff" "implement diff" (some writer) ts

    -- The report is published and the root is done.
    unfoldable pub close_run : FlowCtx → ℕ → FinalReport → FlowExec W FinalReport
    close_run ctx ts report = do
      report_ref ←
          publish (env.report_json report) "application/json" "final report manifest" none ts
      root ← must_get (root_id ctx.now)
      trace env root none artifact_published (published "final_report" report_ref)
      transition env (root_id ctx.now) TaskState.done completed
      pure (record report { final_report_ref = some report_ref })

    -- The final report; the `.ok()` transitions carry the root to `Working`.
    unfoldable pub finish_run :
        FlowCtx → String → AgentId → AgentId → ArtifactRef → Option String → FlowExec W FinalReport
    finish_run ctx title writer reviewer diff_ref final_text = do
      review_ts ← now_ms env
      review_ref ←
          publish (review_body title reviewer final_text) "text/markdown" "review result"
            (some reviewer) review_ts
      try_transition env (root_id ctx.now) TaskState.claimed (other "report")
      try_transition env (root_id ctx.now) TaskState.working (other "report")
      implemented ← must_get (impl_id ctx.now)
      reviewed ← must_get (review_id ctx.now)
      ts ← now_ms env
      close_run ctx ts (record {
        trace_id = ctx.trace_id;
        title = title;
        spec_ref = ctx.spec_ref;
        diff_ref = diff_ref;
        review_ref = review_ref;
        writer = writer;
        reviewer = reviewer;
        implement_state = TaskState.as_str implemented.state;
        review_state = TaskState.as_str reviewed.state;
        final_report_ref = none;
      })

    -- From the creation of the tasks on. `debug_assert!(deps_satisfied)` is left out: it writes
    -- nothing.
    unfoldable pub run_tasks :
        String → String → AgentId → AgentId → FlowCtx → FlowExec W FinalReport
    run_tasks title repo writer reviewer ctx = do
      create_tasks ctx title
      wt ← open_worktree ctx repo (slugify title)
      work (root_id ctx.now) (impl_id ctx.now) writer implement_failed false wt
      diff_ref ← snapshot title repo writer wt
      outcome ← work (root_id ctx.now) (review_id ctx.now) reviewer review_failed true wt
      finish_run ctx title writer reviewer diff_ref outcome.final_text

    unfoldable pub run_write_review :
        String → String → String → AgentId → AgentId → FlowExec W FinalReport
    run_write_review title spec_text repo writer default_reviewer = do
      now ← now_ms env
      reviewer ← select_reviewer env writer default_reviewer (concat "trace-" (show now))
      spec_ref ← publish spec_text "text/markdown" "write-review spec" none now
      run_tasks title repo writer reviewer
          (record { trace_id = concat "trace-" (show now); spec_ref = spec_ref; now = now })
