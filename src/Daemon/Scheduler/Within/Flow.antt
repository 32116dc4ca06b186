-- ===== src/Daemon/Scheduler/Within/Flow.antt =====
-- The parts of the write-review flow create and move the tasks of the run only
-- (crates/divan-daemon/src/scheduler.rs).
use ajan_orkestrasyonu.Prelude.{
  ℕ, refl, Bool, Option, none, some, String, List, Result, ok, err, arith,
}
use ajan_orkestrasyonu.Core.Ids.{AgentId, ArtifactRef, TaskId, TraceId}
use ajan_orkestrasyonu.Core.AgentStatus.{AgentStatus}
use ajan_orkestrasyonu.Core.TaskKind.{TaskKind}
use ajan_orkestrasyonu.Core.Agent.{AgentCard}
use ajan_orkestrasyonu.Db.Store.{Db}
use ajan_orkestrasyonu.Db.Tasks.{assign, add_dep}
use ajan_orkestrasyonu.Db.Tasks.Audit.{create, give, block}
use ajan_orkestrasyonu.Db.Tasks.Calls.{Calls, stop, call, Calls-trans, SameLog, aside}
use ajan_orkestrasyonu.Db.Agents.{set_agent_status, list_agents}
use ajan_orkestrasyonu.Db.Artifacts.{Stored, put}
use ajan_orkestrasyonu.Daemon.Router.{Rule, RouterError, Decision}
use ajan_orkestrasyonu.Core.TraceEventKind.{worktree_created}
use ajan_orkestrasyonu.Core.Trace.{worktree}
use ajan_orkestrasyonu.Daemon.Worktrees.{Worktree}
use ajan_orkestrasyonu.Daemon.Scheduler.{
  Env, Scheduler, FlowError, SessionFail, FinalReport, on_db, create_worktree, worktree_diff,
  now_ms, must_get, fail_task,
}
use ajan_orkestrasyonu.Daemon.Scheduler.Session.{SessionOutcome}
use ajan_orkestrasyonu.Daemon.Scheduler.Reviewer.{select_reviewer, select_from, choose}
use ajan_orkestrasyonu.Daemon.Scheduler.Flow.{
  FlowCtx, root_id, impl_id, review_id, new_task, create_task, create_tasks, insert_runs, publish,
  open_worktree, take_up, give_up, settle, work, snapshot, close_run, finish_run, run_tasks,
}
use ajan_orkestrasyonu.Daemon.Scheduler.Within.{
  Within, >>=-Within, >>-Within, still, pure-Within, raise-Within, now_ms-Within, append-Within,
  trace-Within, on_store-Calls, on_db-Within, create_worktree-Within, commit_worktree-Within,
  worktree_diff-Within, must_get-Within, set_idle-Within, transition-Within, try_transition-Within,
  fail_task-Within,
}
use ajan_orkestrasyonu.Daemon.Scheduler.Within.Session.{run_session-Within}

module _ {W : Type 0} {P : TaskId → Type 0} where
  pub create_task-Within :
      (ctx : FlowCtx) (id : TaskId) (parent : Option TaskId) (kind : TaskKind) (title : String)
      → P id
      → Within P (create_task {W = W} ctx id parent kind title)
  unfolding create_task
  create_task-Within ctx id parent kind title p =
      on_db-Within _ (λ db. call stop (create (new_task ctx id parent kind title) refl) p)

  pub add_dep-Within : (id other : TaskId) → Within P (on_db {W = W} (add_dep id other))
  add_dep-Within id other = on_db-Within _ (λ db. call stop (block id other) tt)

  pub create_tasks-Within :
      (ctx : FlowCtx) (title : String)
      → P (root_id ctx.now)
      → P (impl_id ctx.now)
      → P (review_id ctx.now)
      → Within P (create_tasks {W = W} ctx title)
  unfolding create_tasks
  create_tasks-Within ctx title p q r = >>-Within _ _ (create_task-Within ctx _ _ _ _ p) (
      >>-Within _ _ (create_task-Within ctx _ _ _ _ q) (
        >>-Within _ _ (create_task-Within ctx _ _ _ _ r)
          (add_dep-Within (review_id ctx.now) (impl_id ctx.now))))

module _ {W : Type 0} where
  put-SameLog :
      (env : Env W) (root content : String) (mime summary : Option String) (by : Option AgentId)
      (ts : ℕ) (t : Stored W)
      → SameLog t.db (put env.os env.digest root content mime summary by ts t).1.db
  unfolding put
  put-SameLog env root content mime summary by ts t = ground arith

module _ {W : Type 0} {P : TaskId → Type 0} (env : Env W) where
  pub publish-Within :
      (content mime summary : String) (by : Option AgentId) (ts : ℕ)
      → Within P (publish env content mime summary by ts)
  unfolding publish
  publish-Within content mime summary by ts = record {
    calls = λ s.
        on_store-Calls
          (put env.os env.digest s.artifact_root content (some mime) (some summary) by ts) s
          (put-SameLog env s.artifact_root content (some mime) (some summary) by ts);
  }

  choose-Within :
      {E : Type 0} (writer default_reviewer : AgentId) (t : TraceId)
      (r : Result RouterError Decision)
      → Within P (choose env {E = E} writer default_reviewer t r)
  choose-Within writer default_reviewer t (ok d) =
      >>=-Within (now_ms env) _ (now_ms-Within env)
        (λ ts. >>-Within _ _ (append-Within env _ tt) (pure-Within _))
  choose-Within writer default_reviewer t (err e) = pure-Within _

  select_from-Within :
      {E : Type 0} (writer default_reviewer : AgentId) (t : TraceId) (rules : Option (List Rule))
      (cards : List AgentCard)
      → Within P (select_from env {E = E} writer default_reviewer t rules cards)
  select_from-Within writer default_reviewer t none cards = pure-Within _
  select_from-Within writer default_reviewer t (some rules) cards =
      choose-Within writer default_reviewer t _

  pub select_reviewer-Within :
      {E : Type 0} (writer default_reviewer : AgentId) (t : TraceId)
      → Within P (select_reviewer env {E = E} writer default_reviewer t)
  unfolding select_reviewer list_agents
  select_reviewer-Within writer default_reviewer t = record {
    calls = λ s. (select_from-Within writer default_reviewer t s.router _).calls s;
  }

  pub open_worktree-Within :
      (ctx : FlowCtx) (repo slug : String) → Within P (open_worktree env ctx repo slug)
  unfolding open_worktree
  open_worktree-Within ctx repo slug =
      >>=-Within (create_worktree env repo (impl_id ctx.now) slug) _
        (create_worktree-Within env repo _ slug)
        (λ wt. >>=-Within (must_get (root_id ctx.now)) _ (must_get-Within _) (λ root.
          >>-Within _ _
            (trace-Within env root none worktree_created
              (worktree (impl_id ctx.now) wt.branch wt.path) tt)
            (>>-Within (insert_runs ctx.now repo wt) _ (still (λ s. refl)) (pure-Within wt))))

  status-Within :
      (agent : AgentId) (status : AgentStatus)
      → Within P (on_db {W = W} (set_agent_status agent status none))
  unfolding set_agent_status
  status-Within agent status =
      on_db-Within (set_agent_status agent status none) (λ db. aside (refl, refl))

  pub take_up-Within :
      (id : TaskId) (agent : AgentId) (wt : Worktree) → P id → Within P (take_up env id agent wt)
  unfolding take_up
  take_up-Within id agent wt p = >>-Within _ _ (status-Within agent AgentStatus.busy) (
      >>=-Within (now_ms env) _ (now_ms-Within env) (λ ts.
        >>-Within _ _
          (on_db-Within (assign id agent (some wt.path) ts)
            (λ db. call stop (give id agent (some wt.path) ts) tt))
          (>>=-Within (must_get id) _ (must_get-Within id) (λ task.
            >>-Within _ _ (transition-Within env id _ _ p)
              (>>-Within _ _ (transition-Within env id _ _ p) (pure-Within task))))))

  give_up-Within :
      {A : Type 0} (root id : TaskId) (agent : AgentId) (wrap : String → FlowError)
      (fail : SessionFail)
      → P root
      → P id
      → Within P (give_up env {A = A} root id agent wrap fail)
  give_up-Within root id agent wrap fail p q =
      >>=-Within (fail_task env id fail) _ (fail_task-Within env id fail q) (λ reason.
        >>-Within _ _ (try_transition-Within env root _ _ p)
          (>>-Within _ _ (set_idle-Within agent) (raise-Within _)))

  settle-Calls :
      (a : Db) (root id : TaskId) (agent : AgentId) (wrap : String → FlowError)
      (r : Result SessionFail SessionOutcome × Scheduler W)
      → P root
      → P id
      → Calls P a r.1.db
      → Calls P a (settle env root id agent wrap r).1.db
  settle-Calls a root id agent wrap (err fail, s) p q c =
      Calls-trans c ((give_up-Within root id agent wrap fail p q).calls s)
  settle-Calls a root id agent wrap (ok outcome, s) p q c = Calls-trans c (
      (>>-Within _ _ (transition-Within env id _ _ q)
          (>>-Within _ _ (set_idle-Within agent) (pure-Within outcome))).calls
        s)

  pub work-Within :
      (root id : TaskId) (agent : AgentId) (wrap : String → FlowError) (read_only : Bool)
      (wt : Worktree)
      → P root
      → P id
      → Within P (work env root id agent wrap read_only wt)
  unfolding work
  work-Within root id agent wrap read_only wt p q =
      >>=-Within (take_up env id agent wt) _ (take_up-Within id agent wt q) (λ task. record {
        calls = λ s.
            settle-Calls s.db root id agent wrap _ p q
              ((run_session-Within env task agent read_only (some wt.path)).calls s);
      })

  pub snapshot-Within :
      (title repo : String) (writer : AgentId) (wt : Worktree)
      → Within P (snapshot env title repo writer wt)
  unfolding snapshot
  snapshot-Within title repo writer wt = >>-Within _ _ (commit_worktree-Within env wt _) (
      >>=-Within (worktree_diff env repo wt) _ (worktree_diff-Within env repo wt) (λ diff.
        >>=-Within (now_ms env) _ (now_ms-Within env) (λ ts. publish-Within diff _ _ _ ts)))

  pub close_run-Within :
      (ctx : FlowCtx) (ts : ℕ) (report : FinalReport)
      → P (root_id ctx.now)
      → Within P (close_run env ctx ts report)
  unfolding close_run
  close_run-Within ctx ts report p =
      >>=-Within (publish env _ _ _ _ ts) _ (publish-Within _ _ _ _ ts) (λ r.
        >>=-Within (must_get (root_id ctx.now)) _ (must_get-Within _) (λ root.
          >>-Within _ _ (trace-Within env root none _ _ tt)
            (>>-Within _ _ (transition-Within env _ _ _ p) (pure-Within _))))

  pub finish_run-Within :
      (ctx : FlowCtx) (title : String) (writer reviewer : AgentId) (diff_ref : ArtifactRef)
      (final_text : Option String)
      → P (root_id ctx.now)
      → Within P (finish_run env ctx title writer reviewer diff_ref final_text)
  unfolding finish_run
  finish_run-Within ctx title writer reviewer diff_ref final_text p =
      >>=-Within (now_ms env) _ (now_ms-Within env) (λ review_ts.
        >>=-Within (publish env _ _ _ _ review_ts) _ (publish-Within _ _ _ _ review_ts) (λ r.
          >>-Within _ _ (try_transition-Within env _ _ _ p) (
            >>-Within _ _ (try_transition-Within env _ _ _ p) (
              >>=-Within (must_get (impl_id ctx.now)) _ (must_get-Within _) (λ i.
                >>=-Within (must_get (review_id ctx.now)) _ (must_get-Within _) (λ v.
                  >>=-Within (now_ms env) _ (now_ms-Within env)
                    (λ ts. close_run-Within ctx ts _ p)))))))

  pub run_tasks-Within :
      (title repo : String) (writer reviewer : AgentId) (ctx : FlowCtx)
      → P (root_id ctx.now)
      → P (impl_id ctx.now)
      → P (review_id ctx.now)
      → Within P (run_tasks env title repo writer reviewer ctx)
  unfolding run_tasks
  run_tasks-Within title repo writer reviewer ctx p q r =
      >>-Within _ _ (create_tasks-Within ctx title p q r) (
        >>=-Within (open_worktree env ctx repo _) _ (open_worktree-Within ctx repo _) (λ wt.
          >>-Within _ _ (work-Within _ _ writer _ _ wt p q) (
            >>=-Within (snapshot env title repo writer wt) _ (snapshot-Within title repo writer wt)
              (λ d.
                >>=-Within (work env _ _ reviewer _ _ wt) _ (work-Within _ _ reviewer _ _ wt p r)
                  (λ o. finish_run-Within ctx title writer reviewer d o.final_text p)))))
