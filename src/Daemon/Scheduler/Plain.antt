-- ===== src/Daemon/Scheduler/Plain.antt =====
-- The parts of the write-review flow that report no failed session
-- (crates/divan-daemon/src/scheduler.rs).
use ajan_orkestrasyonu.Prelude.{
  ℕ, ◌≡◌, inl, inr, Option, none, some, String, Result, ok, err, ◌>>=◌, ◌>>◌, List, >>=-eq-err,
  pure, subst,
}
use ajan_orkestrasyonu.Core.Ids.{AgentId, ArtifactRef, TaskId, TraceId}
use ajan_orkestrasyonu.Core.TaskState.{TaskState}
use ajan_orkestrasyonu.Core.TaskKind.{TaskKind}
use ajan_orkestrasyonu.Core.Task.{Task, TransitionReason}
use ajan_orkestrasyonu.Core.TraceEventKind.{TraceEventKind}
use ajan_orkestrasyonu.Core.Trace.{Detail}
use ajan_orkestrasyonu.Db.Store.{Db, DbError, DbExec, not_found}
use ajan_orkestrasyonu.Db.Agents.{set_agent_status, list_agents}
use ajan_orkestrasyonu.Core.AgentStatus.{AgentStatus}
use ajan_orkestrasyonu.Db.Tasks
use ajan_orkestrasyonu.Db.Tasks.{get_task, assign, add_dep}
use ajan_orkestrasyonu.Db.Artifacts.{Stored, put}
use ajan_orkestrasyonu.Daemon.Worktrees
use ajan_orkestrasyonu.Daemon.Worktrees.{Worktree, WorktreeError, TreeExec, error_text}
use ajan_orkestrasyonu.Daemon.Scheduler.{
  Env, Scheduler, FlowExec, FlowError, db_failed, worktree_failed, implement_failed, review_failed,
  FinalReport, of_db, on_db, of_store, of_tree, found_task, must_get, now_ms, trace, append,
  transition, try_transition, set_idle, create_worktree, commit_worktree, worktree_diff,
}
use ajan_orkestrasyonu.Core.Agent.{AgentCard}
use ajan_orkestrasyonu.Daemon.Router.{Rule, RouterError, Decision}
use ajan_orkestrasyonu.Daemon.Scheduler.Reviewer.{choose, select_from, select_reviewer}
use ajan_orkestrasyonu.Daemon.Scheduler.Flow.{
  FlowCtx, root_id, impl_id, review_id, new_task, create_task, create_tasks, insert_runs, publish,
  open_worktree, take_up, snapshot, close_run, finish_run,
}

abbrev pub IsPlain : FlowError → Type 0
IsPlain (implement_failed m) = ⊥
IsPlain (review_failed m) = ⊥
IsPlain e = Unit

pub record Plain {W A : Type 0} (m : FlowExec W A) : Type 0 where
  pub error : (s : Scheduler W) (e : FlowError) → (m s).0 ≡ err e → IsPlain e

same_error :
    {A : Type 0} (x e : FlowError)
    → IsPlain x
    → (let r : Result FlowError A = err x in r ≡ err e)
    → IsPlain e
same_error x e p q = subst IsPlain {x = x} {y = e} (cc q) p

module _ {W : Type 0} where
  pub >>=-Plain :
      {A B : Type 0} (m : FlowExec W A) (f : A → FlowExec W B)
      → Plain m
      → ((a : A) → Plain (f a))
      → Plain (m >>= f)
  >>=-Plain m f h k = record {
    error = λ s e q. elim (>>=-eq-err m f s e q) [
      | inl (p, r) ↦ h.error s e p
      | inr (a, p, r, t) ↦ (k a).error (m s).1 e r
    ];
  }

  pub >>-Plain :
      {A B : Type 0} (m : FlowExec W A) (n : FlowExec W B) → Plain m → Plain n → Plain (m >> n)
  >>-Plain m n h k = >>=-Plain m (λ x. n) h (λ x. k)

  pub pure-Plain : {A : Type 0} (a : A) → Plain (pure {S = Scheduler W} a)
  pure-Plain a = record { error = λ s e q. cc q }

  of_db-IsPlain :
      {A : Type 0} (s : Scheduler W) (r : Result DbError A × Db) (e : FlowError)
      → (of_db s r).0 ≡ err e
      → IsPlain e
  of_db-IsPlain s (ok a, db) e q = cc q
  of_db-IsPlain s (err x, db) e q = same_error (db_failed x) e tt q

  pub on_db-Plain : {A : Type 0} (m : DbExec A) → Plain (on_db {W = W} m)
  on_db-Plain m = record { error = λ s. of_db-IsPlain s (m s.db) }

  of_store-IsPlain :
      {A : Type 0} (s : Scheduler W) (r : Result DbError A × Stored W) (e : FlowError)
      → (of_store s r).0 ≡ err e
      → IsPlain e
  of_store-IsPlain s (ok a, t) e q = cc q
  of_store-IsPlain s (err x, t) e q = same_error (db_failed x) e tt q

  of_tree-IsPlain :
      {A : Type 0} (s : Scheduler W) (r : Result WorktreeError A × W) (e : FlowError)
      → (of_tree s r).0 ≡ err e
      → IsPlain e
  of_tree-IsPlain s (ok a, w) e q = cc q
  of_tree-IsPlain s (err x, w) e q = same_error (worktree_failed (error_text x)) e tt q

  found_task-Plain : (id : TaskId) (t : Option Task) → Plain (found_task {W = W} id t)
  found_task-Plain id none = record {
    error = λ s e q. same_error (db_failed (not_found id)) e tt q;
  }
  found_task-Plain id (some t) = pure-Plain t

  pub must_get-Plain : (id : TaskId) → Plain (must_get {W = W} id)
  unfolding must_get
  must_get-Plain id = >>=-Plain _ _ (on_db-Plain (get_task id)) (found_task-Plain id)

  pub create_task-Plain :
      (ctx : FlowCtx) (id : TaskId) (parent : Option TaskId) (kind : TaskKind) (title : String)
      → Plain (create_task {W = W} ctx id parent kind title)
  unfolding create_task
  create_task-Plain ctx id parent kind title =
      on_db-Plain (Tasks.create_task (new_task ctx id parent kind title))

  pub create_tasks-Plain : (ctx : FlowCtx) (title : String) → Plain (create_tasks {W = W} ctx title)
  unfolding create_tasks
  create_tasks-Plain ctx title = >>-Plain _ _ (create_task-Plain ctx _ _ _ _) (
      >>-Plain _ _ (create_task-Plain ctx _ _ _ _) (
        >>-Plain _ _ (create_task-Plain ctx _ _ _ _)
          (on_db-Plain (add_dep (review_id ctx.now) (impl_id ctx.now)))))

  pub set_idle-Plain : (agent : AgentId) → Plain (set_idle {W = W} agent)
  unfolding set_idle
  set_idle-Plain agent = record { error = λ s e q. cc q }

  module _ (env : Env W) where
    pub now_ms-Plain : Plain (now_ms env)
    unfolding now_ms
    now_ms-Plain = record { error = λ s e q. cc q }

    pub trace-Plain :
        (task : Task) (agent : Option AgentId) (kind : TraceEventKind) (d : Detail)
        → Plain (trace env task agent kind d)
    unfolding trace now_ms append
    trace-Plain task agent kind d = record { error = λ s e q. cc q }

    pub transition-Plain :
        (id : TaskId) (to : TaskState) (reason : TransitionReason)
        → Plain (transition env id to reason)
    unfolding transition
    transition-Plain id to reason =
        >>=-Plain _ _ now_ms-Plain (λ ts. on_db-Plain (Tasks.transition id to reason ts))

    pub try_transition-Plain :
        (id : TaskId) (to : TaskState) (reason : TransitionReason)
        → Plain (try_transition env id to reason)
    unfolding try_transition
    try_transition-Plain id to reason = record { error = λ s e q. cc q }

    create_worktree-Plain :
        (repo : String) (id : TaskId) (slug : String) → Plain (create_worktree env repo id slug)
    unfolding create_worktree
    create_worktree-Plain repo id slug = record {
      error = λ s. of_tree-IsPlain s (Worktrees.create env.os s.worktree_root repo id slug s.os);
    }

    commit_worktree-Plain :
        (wt : Worktree) (message : String) → Plain (commit_worktree env wt message)
    unfolding commit_worktree
    commit_worktree-Plain wt message = record {
      error = λ s. of_tree-IsPlain s (Worktrees.commit_all env.os wt message s.os);
    }

    worktree_diff-Plain : (repo : String) (wt : Worktree) → Plain (worktree_diff env repo wt)
    unfolding worktree_diff
    worktree_diff-Plain repo wt = record {
      error = λ s. of_tree-IsPlain s (Worktrees.diff env.os repo wt s.os);
    }

    pub publish-Plain :
        (content mime summary : String) (by : Option AgentId) (ts : ℕ)
        → Plain (publish env content mime summary by ts)
    unfolding publish
    publish-Plain content mime summary by ts = record {
      error = λ s. of_store-IsPlain s (
          put env.os env.digest s.artifact_root content (some mime) (some summary) by ts
            (record { db = s.db; os = s.os }));
    }

    pub open_worktree-Plain :
        (ctx : FlowCtx) (repo slug : String) → Plain (open_worktree env ctx repo slug)
    unfolding open_worktree
    open_worktree-Plain ctx repo slug =
        >>=-Plain (create_worktree env repo (impl_id ctx.now) slug) _
          (create_worktree-Plain repo _ slug)
          (λ wt. >>=-Plain (must_get (root_id ctx.now)) _ (must_get-Plain _) (λ root.
            >>-Plain (trace env root none _ _) _ (trace-Plain root none _ _) (
              >>-Plain (insert_runs ctx.now repo wt) _ (record { error = λ s e q. cc q })
                (pure-Plain wt))))

    pub take_up-Plain :
        (id : TaskId) (agent : AgentId) (wt : Worktree) → Plain (take_up env id agent wt)
    unfolding take_up
    take_up-Plain id agent wt =
        >>-Plain _ _ (on_db-Plain (set_agent_status agent AgentStatus.busy none)) (
          >>=-Plain (now_ms env) _ now_ms-Plain (λ ts.
            >>-Plain _ _ (on_db-Plain (assign id agent (some wt.path) ts)) (
              >>=-Plain (must_get id) _ (must_get-Plain id) (λ task.
                >>-Plain _ _ (transition-Plain id _ _)
                  (>>-Plain _ _ (transition-Plain id _ _) (pure-Plain task))))))

    pub settled-Plain :
        {A : Type 0} (id : TaskId) (to : TaskState) (reason : TransitionReason) (agent : AgentId)
        (a : A)
        → Plain (transition env id to reason >> set_idle agent >> pure a)
    settled-Plain id to reason agent a =
        >>-Plain (transition env id to reason >> set_idle agent) _
          (>>-Plain _ _ (transition-Plain id to reason) (set_idle-Plain agent)) (pure-Plain a)

    pub snapshot-Plain :
        (title repo : String) (writer : AgentId) (wt : Worktree)
        → Plain (snapshot env title repo writer wt)
    unfolding snapshot
    snapshot-Plain title repo writer wt = >>-Plain _ _ (commit_worktree-Plain wt _) (
        >>=-Plain (worktree_diff env repo wt) _ (worktree_diff-Plain repo wt)
          (λ d. >>=-Plain (now_ms env) _ now_ms-Plain (λ ts. publish-Plain d _ _ _ ts)))

    pub close_run-Plain :
        (ctx : FlowCtx) (ts : ℕ) (report : FinalReport) → Plain (close_run env ctx ts report)
    unfolding close_run
    close_run-Plain ctx ts report =
        >>=-Plain (publish env _ _ _ _ ts) _ (publish-Plain _ _ _ _ ts) (λ r.
          >>=-Plain (must_get (root_id ctx.now)) _ (must_get-Plain _) (λ root.
            >>-Plain (trace env root none _ _) _ (trace-Plain root none _ _)
              (>>-Plain _ _ (transition-Plain _ _ _) (pure-Plain _))))

    pub finish_run-Plain :
        (ctx : FlowCtx) (title : String) (writer reviewer : AgentId) (diff_ref : ArtifactRef)
        (final_text : Option String)
        → Plain (finish_run env ctx title writer reviewer diff_ref final_text)
    unfolding finish_run
    finish_run-Plain ctx title writer reviewer diff_ref final_text =
        >>=-Plain (now_ms env) _ now_ms-Plain (λ review_ts.
          >>=-Plain (publish env _ _ _ _ review_ts) _ (publish-Plain _ _ _ _ review_ts) (λ r.
            >>-Plain _ _ (try_transition-Plain _ _ _) (
              >>-Plain _ _ (try_transition-Plain _ _ _) (
                >>=-Plain (must_get (impl_id ctx.now)) _ (must_get-Plain _) (λ i.
                  >>=-Plain (must_get (review_id ctx.now)) _ (must_get-Plain _) (λ v.
                    >>=-Plain (now_ms env) _ now_ms-Plain (λ ts. close_run-Plain ctx ts _)))))))

    choose-Plain :
        (writer default_reviewer : AgentId) (t : TraceId) (r : Result RouterError Decision)
        → Plain (choose env writer default_reviewer t r)
    unfolding append
    choose-Plain writer default_reviewer t (ok d) =
        >>=-Plain (now_ms env) _ now_ms-Plain (λ ts. record { error = λ s e q. cc q })
    choose-Plain writer default_reviewer t (err e) = pure-Plain default_reviewer

    select_from-Plain :
        (writer default_reviewer : AgentId) (t : TraceId) (rules : Option (List Rule))
        (cards : List AgentCard)
        → Plain (select_from env writer default_reviewer t rules cards)
    select_from-Plain writer default_reviewer t none cards = pure-Plain default_reviewer
    select_from-Plain writer default_reviewer t (some rules) cards =
        choose-Plain writer default_reviewer t _

    pub select_reviewer-Plain :
        (writer default_reviewer : AgentId) (t : TraceId)
        → Plain (select_reviewer env writer default_reviewer t)
    unfolding select_reviewer list_agents
    select_reviewer-Plain writer default_reviewer t = record {
      error = λ s. (select_from-Plain writer default_reviewer t s.router _).error s;
    }
