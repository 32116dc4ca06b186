-- ===== src/Daemon/Scheduler/Audited.antt =====
-- The commands of the scheduler keep the trace log an audit log of the task table
-- (crates/divan-daemon/src/scheduler.rs).
use ajan_orkestrasyonu.Prelude.{
  ◌≡◌, refl, arith, subst, Option, none, some, String, Result, ok, err,
}
use ajan_orkestrasyonu.Core.Ids.{AgentId, TaskId}
use ajan_orkestrasyonu.Core.Agent.{AgentCard}
use ajan_orkestrasyonu.Core.Task.{Task}
use ajan_orkestrasyonu.Core.TraceEventKind.{TraceEventKind}
use ajan_orkestrasyonu.Core.Trace.{Detail}
use ajan_orkestrasyonu.Db.Store.{Db, DbError, fresh}
use ajan_orkestrasyonu.Db.Tasks.{get_task}
use ajan_orkestrasyonu.Db.Agents.{upsert_agent}
use ajan_orkestrasyonu.Db.Tasks.Audit.{IsAudited, IsOther, Steps, Steps-IsAudited}
use ajan_orkestrasyonu.Db.Tasks.Evolves.{Evolves, Steps-Evolves}
use ajan_orkestrasyonu.Db.Tasks.Calls.{Calls, stop, aside, SameLog, Calls-trans, Calls-Steps}
use ajan_orkestrasyonu.Adapters.{AgentAdapter}
use ajan_orkestrasyonu.Daemon.Worktrees
use ajan_orkestrasyonu.Daemon.Scheduler.{
  Env, Scheduler, RunRecord, lookup, now_ms, on_tree, worktree_diff, register_adapter,
}
use ajan_orkestrasyonu.Daemon.Scheduler.Reviewer.{select_reviewer}
use ajan_orkestrasyonu.Daemon.Scheduler.Flow.{publish, run_write_review}
use ajan_orkestrasyonu.Daemon.Scheduler.Runs.{
  require_run, run_record, trace_found, trace_for_task, diff_task, merge_task, cleanup_task,
}
use ajan_orkestrasyonu.Daemon.Scheduler.Within.{
  Within, >>=-Within, >>-Within, still, pure-Within, raise-Within, now_ms-Within, append-Within,
  trace-Within, on_db-Within, on_tree-Within, worktree_diff-Within,
}
use ajan_orkestrasyonu.Daemon.Scheduler.Within.Flow.{
  publish-Within, select_reviewer-Within, run_tasks-Within,
}

abbrev Any : TaskId → Type 0
Any id = Unit {0}

upsert-SameLog : (card : AgentCard) (db : Db) → SameLog db (upsert_agent card db).1
unfolding upsert_agent
upsert-SameLog card db = ground arith

module _ {W : Type 0} where
  require_run-Within : (id : String) (r : Option RunRecord) → Within Any (require_run {W = W} id r)
  require_run-Within id none = raise-Within _
  require_run-Within id (some r) = pure-Within r

  run_record-Within : (id : String) → Within Any (run_record {W = W} id)
  unfolding run_record
  run_record-Within id = record { calls = λ s. (require_run-Within id (lookup id s.runs)).calls s }

  module _ (env : Env W) where
    trace_found-Within :
        {E : Type 0} (kind : TraceEventKind) (d : Detail) (r : Result DbError (Option Task))
        → IsOther (some d)
        → Within Any (trace_found env {E = E} kind d r)
    trace_found-Within kind d (ok (some task)) o = trace-Within env task none kind d o
    trace_found-Within kind d (ok none) o = pure-Within tt
    trace_found-Within kind d (err e) o = pure-Within tt

    trace_for_task-Within :
        {E : Type 0} (id : String) (kind : TraceEventKind) (d : Detail)
        → IsOther (some d)
        → Within Any (trace_for_task env {E = E} id kind d)
    unfolding trace_for_task
    trace_for_task-Within id kind d o = record {
      calls = λ s. (trace_found-Within kind d (get_task id s.db).0 o).calls s;
    }

    diff_task-Within : (id : String) → Within Any (diff_task env id)
    unfolding diff_task
    diff_task-Within id = >>=-Within (run_record id) _ (run_record-Within id) (λ rec.
        >>=-Within (worktree_diff env rec.repo rec.worktree) _ (worktree_diff-Within env _ _)
          (λ d. >>-Within _ _ (trace_for_task-Within id _ _ tt) (pure-Within d)))

    merge_task-Within : (id : String) → Within Any (merge_task env id)
    unfolding merge_task
    merge_task-Within id = >>=-Within (run_record id) _ (run_record-Within id) (λ rec.
        >>-Within _ _ (trace_for_task-Within id _ _ tt) (
          >>-Within (on_tree (Worktrees.merge env.os rec.repo rec.worktree)) _ (on_tree-Within _)
            (trace_for_task-Within id _ _ tt)))

    cleanup_task-Within : (id : String) → Within Any (cleanup_task env id)
    unfolding cleanup_task
    cleanup_task-Within id = >>=-Within (run_record id) _ (run_record-Within id) (λ rec.
        >>-Within (on_tree (Worktrees.cleanup env.os rec.repo rec.worktree)) _ (on_tree-Within _)
          (still (λ s. refl)))

    register_adapter-Within : (a : AgentAdapter W) → Within Any (register_adapter env a)
    unfolding register_adapter
    register_adapter-Within a =
        >>-Within _ _ (on_db-Within (upsert_agent a.card) (λ db. aside (upsert-SameLog a.card db)))
          (>>=-Within (now_ms env) _ (now_ms-Within env)
            (λ ts. >>-Within _ _ (append-Within env _ tt) (still (λ s. refl))))

    run_write_review-Within :
        (title spec_text repo : String) (writer default_reviewer : AgentId)
        → Within Any (run_write_review env title spec_text repo writer default_reviewer)
    unfolding run_write_review
    run_write_review-Within title spec_text repo writer default_reviewer =
        >>=-Within (now_ms env) _ (now_ms-Within env) (λ now.
          >>=-Within (select_reviewer env writer default_reviewer _) _
            (select_reviewer-Within env writer default_reviewer _)
            (λ reviewer.
              >>=-Within (publish env spec_text _ _ none now) _
                (publish-Within env spec_text _ _ none now)
                (λ r. run_tasks-Within env title repo writer reviewer _ tt tt tt)))

    -- The commands of the scheduler, with any arguments and outcomes.
    pub data Command (s : Scheduler W) : Scheduler W → Type 0 where
      write_review :
          (title spec_text repo : String) (writer default_reviewer : AgentId)
          → Command s (run_write_review env title spec_text repo writer default_reviewer s).1
      diff : (id : String) → Command s (diff_task env id s).1
      merge : (id : String) → Command s (merge_task env id s).1
      cleanup : (id : String) → Command s (cleanup_task env id s).1
      register : (a : AgentAdapter W) → Command s (register_adapter env a s).1

    pub data Commands (s : Scheduler W) : Scheduler W → Type 0 where
      start : Commands s s
      then : {t u : Scheduler W} → Commands s t → Command t u → Commands s u

    Command-Calls : {s t : Scheduler W} → Command s t → Calls Any s.db t.db
    Command-Calls {s} (write_review title spec_text repo writer default_reviewer) =
        (run_write_review-Within title spec_text repo writer default_reviewer).calls s
    Command-Calls {s} (diff id) = (diff_task-Within id).calls s
    Command-Calls {s} (merge id) = (merge_task-Within id).calls s
    Command-Calls {s} (cleanup id) = (cleanup_task-Within id).calls s
    Command-Calls {s} (register a) = (register_adapter-Within a).calls s

    Commands-Calls : {s t : Scheduler W} → Commands s t → Calls Any s.db t.db
    Commands-Calls start = stop
    Commands-Calls (then r c) = Calls-trans (Commands-Calls r) (Command-Calls c)

    -- From a fresh database, after any commands with any outcomes of git, the files and the
    -- agents, replaying the trace log gives the state of every task.
    pub Commands-IsAudited : (s t : Scheduler W) → s.db ≡ fresh → Commands s t → IsAudited t.db
    Commands-IsAudited s t f r =
        Steps-IsAudited (subst (λ db. Steps db t.db) f (Calls-Steps (Commands-Calls r)))

    -- Whatever commands run and whatever git, the files and the agents do, the trace log only
    -- grows, and for each task its new events, in order, are a run of the abstract state machine
    -- from the state of the task before to its state after. In such a run each event of the task
    -- is its creation, where it was not there and is open from then on, or names an edge of the
    -- diagram from the state that the task then has; no other event changes its state.
    pub Commands-Evolves : (s t : Scheduler W) (id : TaskId) → Commands s t → Evolves id s.db t.db
    Commands-Evolves s t id r = Steps-Evolves id (Calls-Steps (Commands-Calls r))
