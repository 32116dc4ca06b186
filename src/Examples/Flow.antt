-- ===== src/Examples/Flow.antt =====
-- The theorems on the scheduler, in the small world.
use ajan_orkestrasyonu.Prelude.{
  Bool, ◌≡◌, refl, none, some, ok, err, true, false, count, arith, ◌≤◌, ◌⊎◌, String,
}
use ajan_orkestrasyonu.Core.TaskState.{«open», done, failed}
use ajan_orkestrasyonu.Db.Tasks.Audit.{IsAudited}
use ajan_orkestrasyonu.Db.Tasks.Evolves.{Evolves}
use ajan_orkestrasyonu.Daemon.Scheduler.{
  FinalReport, FlowError, implement_failed, review_failed, fatal_fail, retryable_fail,
}
use ajan_orkestrasyonu.Daemon.Scheduler.Session.{SessionOutcome}
use ajan_orkestrasyonu.Daemon.Scheduler.Stages.{Delivered}
use ajan_orkestrasyonu.Daemon.Scheduler.Triples.{Is}
use ajan_orkestrasyonu.Daemon.Scheduler.Outcome.{
  run_write_review_ok, run_write_review-implement_failed, run_write_review-review_failed,
}
use ajan_orkestrasyonu.Daemon.Scheduler.{
  classify, adapter, must_get, set_idle, now_ms, append, trace, try_transition, fail_task,
  create_worktree, commit_worktree, worktree_diff,
}
use ajan_orkestrasyonu.Daemon.Scheduler.Session.{
  prompt_for, drain, run_session_once, attempt_from, run_session,
}
use ajan_orkestrasyonu.Daemon.Scheduler.Reviewer.{select_reviewer}
use ajan_orkestrasyonu.Daemon.Scheduler.Flow.{
  create_tasks, publish, open_worktree, take_up, work, snapshot, close_run, finish_run, run_tasks,
  run_write_review,
}
use ajan_orkestrasyonu.Daemon.Scheduler.Slug.{slugify}
use ajan_orkestrasyonu.Db.Agents.{list_agents, set_agent_status}
use ajan_orkestrasyonu.Db.Artifacts.{shard_path, get_meta, safe_join, put, get}
use ajan_orkestrasyonu.Daemon.Worktrees.{git, is_git_repo, branch_exists, create, commit_all, diff}
use ajan_orkestrasyonu.Core.Message.{validate_summary}
use ajan_orkestrasyonu.Core.TaskState.{can_transition_to}
use ajan_orkestrasyonu.Daemon.Config.{runtime_secs}
use ajan_orkestrasyonu.Prelude.Files.{split_from, path_join}
use ajan_orkestrasyonu.Prelude.Decimal.{show_fuel, show}
use ajan_orkestrasyonu.Db.Tasks
use ajan_orkestrasyonu.Db.Tasks.{assign, add_dep, get_task}
use ajan_orkestrasyonu.Daemon.Scheduler
use ajan_orkestrasyonu.Daemon.Scheduler.Flow
use ajan_orkestrasyonu.Db.Store.{fresh}
use ajan_orkestrasyonu.Daemon.Scheduler.{Scheduler}
use ajan_orkestrasyonu.Daemon.Scheduler.Flow.{root_id, impl_id, review_id}
use ajan_orkestrasyonu.Daemon.Scheduler.Audited.{
  Commands, then, start, write_review, Commands-IsAudited, Commands-Evolves,
}
use ajan_orkestrasyonu.Daemon.Scheduler.Retries.{
  once, noted, again, fresh_session, Decided, run_session-Decided, run_session-succeeds,
}
use ajan_orkestrasyonu.Daemon.Worktrees.{merge}
use ajan_orkestrasyonu.Daemon.Worktrees.Guards.{
  QueriesAreQuiet, inside_work_tree, verify, porcelain, Merged, merge_guarded,
}
use ajan_orkestrasyonu.Daemon.Scheduler.Slug.{max_slug_len}
use ajan_orkestrasyonu.Daemon.Scheduler.Slug.Bounds.{all_safe, slugify-safe}
use ajan_orkestrasyonu.Examples.World.{
  World, env, scheduler, succeeds, fails, recovers, task, tree, os, usage,
}

abbrev report : FinalReport
report = record {
  trace_id = "trace-5";
  title = "My Title";
  spec_ref = "abcdef";
  diff_ref = "abcdef";
  review_ref = "abcdef";
  writer = "writer";
  reviewer = "reviewer";
  implement_state = "done";
  review_state = "done";
  final_report_ref = some "abcdef";
}

abbrev no_success : String
no_success = "session reported failure (ok=false)"

-- The three ways that a run ends here.
runs :
    (((run_write_review env "My Title" "the spec" "repo" "writer" "reviewer"
          (scheduler succeeds succeeds)).0
        ≡ ok report)
      × ((run_write_review env "My Title" "the spec" "repo" "writer" "reviewer"
            (scheduler fails succeeds)).0
          ≡ err (implement_failed no_success))
      × ((run_write_review env "My Title" "the spec" "repo" "writer" "reviewer"
            (scheduler succeeds fails)).0
          ≡ err (review_failed no_success)))
unfolding classify adapter must_get set_idle now_ms append trace try_transition fail_task
    create_worktree commit_worktree worktree_diff prompt_for drain run_session_once attempt_from
    run_session select_reviewer create_tasks publish open_worktree take_up work snapshot close_run
    finish_run run_tasks run_write_review slugify list_agents set_agent_status shard_path get_meta
    safe_join put get git is_git_repo branch_exists create commit_all diff validate_summary
    can_transition_to runtime_secs split_from path_join show_fuel show Tasks.transition
    Tasks.create_task Scheduler.transition Flow.create_task assign add_dep get_task
runs = (refl, refl, refl)

run_write_review_ok_example :
    Delivered 5 report
      (run_write_review env "My Title" "the spec" "repo" "writer" "reviewer"
        (scheduler succeeds succeeds)).1.db
run_write_review_ok_example =
    run_write_review_ok env "My Title" "the spec" "repo" "writer" "reviewer"
      (scheduler succeeds succeeds) report runs.0

run_write_review-implement_failed_example :
    let db =
      (run_write_review env "My Title" "the spec" "repo" "writer" "reviewer"
        (scheduler fails succeeds)).1.db in
    Is (impl_id 5) failed db × Is (root_id 5) failed db × Is (review_id 5) «open» db
run_write_review-implement_failed_example =
    run_write_review-implement_failed env "My Title" "the spec" "repo" "writer" "reviewer"
      (scheduler fails succeeds) no_success runs.1

run_write_review-review_failed_example :
    let db =
      (run_write_review env "My Title" "the spec" "repo" "writer" "reviewer"
        (scheduler succeeds fails)).1.db in
    Is (review_id 5) failed db × Is (root_id 5) failed db × Is (impl_id 5) done db
run_write_review-review_failed_example =
    run_write_review-review_failed env "My Title" "the spec" "repo" "writer" "reviewer"
      (scheduler succeeds fails) no_success runs.2

abbrev idle : Scheduler World
idle = record (scheduler succeeds succeeds) { db = fresh }

abbrev after_run : Scheduler World
after_run = (run_write_review env "My Title" "the spec" "repo" "writer" "reviewer" idle).1

abbrev history : Commands env idle after_run
history = then start (write_review "My Title" "the spec" "repo" "writer" "reviewer")

Commands-IsAudited_example : IsAudited after_run.db
Commands-IsAudited_example = Commands-IsAudited env idle after_run refl history

Commands-Evolves_example : Evolves "impl-5" idle.db after_run.db
Commands-Evolves_example = Commands-Evolves env idle after_run "impl-5" history

run_session-Decided_example :
    Decided env task "writer" false none
      (scheduler recovers succeeds)
      2
      (run_session env task "writer" false none (scheduler recovers succeeds))
run_session-Decided_example =
    run_session-Decided env task "writer" false none (scheduler recovers succeeds)

abbrev first : Scheduler World
first = (once env task "writer" false none (scheduler recovers succeeds)).1

abbrev second : Scheduler World
second = noted env task "writer" false none 1 "rate limit" first

abbrev outcome : SessionOutcome
outcome = record { usage = usage; final_text = some "fine" }

-- The first attempt meets the limit, the second succeeds.
attempts :
    ((once env task "writer" false none (scheduler recovers succeeds)
        ≡ (err (retryable_fail "rate limit"), first))
      × (once env task "writer" false none second
          ≡ (ok outcome, (once env task "writer" false none second).1)))
unfolding classify adapter must_get set_idle now_ms append trace try_transition fail_task
    create_worktree commit_worktree worktree_diff prompt_for drain run_session_once attempt_from
    run_session select_reviewer create_tasks publish open_worktree take_up work snapshot close_run
    finish_run run_tasks run_write_review slugify list_agents set_agent_status shard_path get_meta
    safe_join put get git is_git_repo branch_exists create commit_all diff validate_summary
    can_transition_to runtime_secs split_from path_join show_fuel show Tasks.transition
    Tasks.create_task Scheduler.transition Flow.create_task assign add_dep get_task
attempts = (refl, refl)

run_session-succeeds_example :
    run_session env task "writer" false none (scheduler recovers succeeds)
    ≡ (ok outcome, (once env task "writer" false none second).1)
run_session-succeeds_example =
    run_session-succeeds env task "writer" false none (scheduler recovers succeeds) second
      (once env task "writer" false none second).1 1 outcome (again fresh_session attempts.0)
      (omega arith) attempts.1

-- What `view` keeps of the small world.
abbrev branch_of : World → Bool
branch_of w = w.has_branch

quiet : QueriesAreQuiet branch_of os
quiet repo _ w inside_work_tree = refl
quiet repo _ w (verify branch) = refl
quiet repo _ w porcelain = refl

merge_guarded_example :
    ((merge os "repo" tree (record { clock = 0; has_branch = true })).1.has_branch ≡ true)
    ⊎ Merged branch_of os quiet "repo" tree (record { clock = 0; has_branch = true })
merge_guarded_example =
    merge_guarded branch_of os quiet "repo" tree (record { clock = 0; has_branch = true })

slugify-safe_example :
    (count (slugify "Fix: the Parser!") ≤ max_slug_len)
    × (all_safe (slugify "Fix: the Parser!") ≡ true)
slugify-safe_example = slugify-safe "Fix: the Parser!"
