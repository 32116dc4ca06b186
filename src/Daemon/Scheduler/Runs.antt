-- ===== src/Daemon/Scheduler/Runs.antt =====
-- The commands on the worktree of a run: diff, merge and cleanup
-- (crates/divan-daemon/src/scheduler.rs).
use Prim.Native.String.{◌++◌ as concat}
use ajan_orkestrasyonu.Prelude.{
  not, Option, none, some, String, ◌==◌, filter, Result, ok, err, pure, raise, ◌>>=◌, ◌>>◌,
}
use ajan_orkestrasyonu.Core.Task.{Task}
use ajan_orkestrasyonu.Core.TraceEventKind.{
  TraceEventKind, worktree_diffed, worktree_merge_requested, worktree_merged,
}
use ajan_orkestrasyonu.Core.Trace.{Detail, on_branch}
use ajan_orkestrasyonu.Db.Store.{DbError}
use ajan_orkestrasyonu.Db.Tasks.{get_task}
use ajan_orkestrasyonu.Daemon.Worktrees
use ajan_orkestrasyonu.Daemon.Scheduler.{
  Env, SchedExec, FlowExec, RunRecord, worktree_failed, lookup, trace, on_tree, worktree_diff,
}

module _ {W : Type 0} where
  abbrev pub require_run : String → Option RunRecord → FlowExec W RunRecord
  require_run task_id none = raise (worktree_failed (concat "no worktree run for task " task_id))
  require_run task_id (some rec) = pure rec

  unfoldable pub run_record : String → FlowExec W RunRecord
  run_record task_id s = require_run task_id (lookup task_id s.runs) s

  -- Both keys of a run name the same branch.
  abbrev pub drop_runs : {E : Type 0} → String → SchedExec W E (Unit {0})
  drop_runs branch s =
      (ok tt, record s { runs = filter (λ r. not (r.1.worktree.branch == branch)) s.runs })

  module _ (env : Env W) where
    abbrev pub trace_found :
        {E : Type 0}
        → TraceEventKind
        → Detail
        → Result DbError (Option Task)
        → SchedExec W E (Unit {0})
    trace_found kind data_ (ok (some task)) = trace env task none kind data_
    trace_found kind data_ (ok none) = pure tt
    trace_found kind data_ (err e) = pure tt

    unfoldable pub trace_for_task :
        {E : Type 0} → String → TraceEventKind → Detail → SchedExec W E (Unit {0})
    trace_for_task task_id kind data_ s = trace_found kind data_ (get_task task_id s.db).0 s

    unfoldable pub diff_task : String → FlowExec W String
    diff_task task_id = do
      rec ← run_record task_id
      diff ← worktree_diff env rec.repo rec.worktree
      trace_for_task task_id worktree_diffed (on_branch rec.worktree.branch)
      pure diff

    unfoldable pub merge_task : String → FlowExec W (Unit {0})
    merge_task task_id = do
      rec ← run_record task_id
      trace_for_task task_id worktree_merge_requested (on_branch rec.worktree.branch)
      on_tree (Worktrees.merge env.os rec.repo rec.worktree)
      trace_for_task task_id worktree_merged (on_branch rec.worktree.branch)

    unfoldable pub cleanup_task : String → FlowExec W (Unit {0})
    cleanup_task task_id = do
      rec ← run_record task_id
      on_tree (Worktrees.cleanup env.os rec.repo rec.worktree)
      drop_runs rec.worktree.branch
