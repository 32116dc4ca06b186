-- ===== src/Daemon/Scheduler/Within.antt =====
-- What an operation of the scheduler does to the task table and the trace log: a sequence of
-- operations of the database that create and move only certain tasks
-- (crates/divan-daemon/src/scheduler.rs).
pub mod Session
pub mod Flow
use ajan_orkestrasyonu.Prelude.{
  ℕ, String, ◌≡◌, refl, sym, subst, Option, none, some, Result, ok, err, ◌>>=◌, ◌>>◌, proceed, pure,
  raise,
}
use ajan_orkestrasyonu.Core.Ids.{AgentId, TaskId, TraceId}
use ajan_orkestrasyonu.Core.TaskState.{TaskState}
use ajan_orkestrasyonu.Core.Task.{Task, TransitionReason}
use ajan_orkestrasyonu.Core.TraceEventKind.{TraceEventKind}
use ajan_orkestrasyonu.Core.Trace.{Detail, TraceEvent}
use ajan_orkestrasyonu.Db.Store.{Db, DbError, DbExec}
use ajan_orkestrasyonu.Db.Tasks
use ajan_orkestrasyonu.Db.Tasks.{get_task}
use ajan_orkestrasyonu.Db.Agents.{set_agent_status}
use ajan_orkestrasyonu.Db.Artifacts.{Stored, StoreExec}
use ajan_orkestrasyonu.Db.Tasks.Audit.{Step, move, elsewhere, IsOther}
use ajan_orkestrasyonu.Db.Tasks.Calls.{Calls, stop, call, Calls-trans, SameLog, aside}
use ajan_orkestrasyonu.Daemon.Worktrees
use ajan_orkestrasyonu.Daemon.Worktrees.{Worktree, TreeExec, WorktreeError}
use ajan_orkestrasyonu.Daemon.Scheduler.{
  Env, Scheduler, SchedExec, SessionFail, on_db, of_db, on_tree, of_tree, now_ms, trace, event,
  append, on_store, of_store, transition, try_transition, fail_task, must_get, create_worktree,
  commit_worktree, worktree_diff, found_task, set_idle,
}

pub record Within {W : Type 0} (P : TaskId → Type 0) {E A : Type 0} (m : SchedExec W E A)
    : Type 0 where
  pub calls : (s : Scheduler W) → Calls P s.db (m s).1.db

module _ {W : Type 0} where
  of_tree-db :
      {A : Type 0} (s : Scheduler W) (r : Result WorktreeError A × W) → (of_tree s r).1.db ≡ s.db
  of_tree-db s (ok a, w) = refl
  of_tree-db s (err e, w) = refl

  event-IsOther :
      (env : Env W) (task : TraceId) (agent : Option AgentId) (kind : TraceEventKind) (d : Detail)
      (ts : ℕ)
      → IsOther (some d)
      → IsOther (event env task agent kind d ts).detail
  event-IsOther env task none kind d ts o = o
  event-IsOther env task (some a) kind d ts o = o

module _ {W : Type 0} {P : TaskId → Type 0} where
  module _ {E A B : Type 0} where
    pub proceed-Calls :
        (a : Db) (f : A → SchedExec W E B) (r : Result E A × Scheduler W)
        → Calls P a r.1.db
        → ((x : A) → Within P (f x))
        → Calls P a (proceed f r).1.db
    proceed-Calls a f (ok x, s) c h = Calls-trans c ((h x).calls s)
    proceed-Calls a f (err e, s) c h = c

    pub >>=-Within :
        (m : SchedExec W E A) (f : A → SchedExec W E B)
        → Within P m
        → ((x : A) → Within P (f x))
        → Within P (m >>= f)
    >>=-Within m f h k = record { calls = λ s. proceed-Calls s.db f (m s) (h.calls s) k }

    pub >>-Within :
        (m : SchedExec W E A) (n : SchedExec W E B) → Within P m → Within P n → Within P (m >> n)
    >>-Within m n h k = >>=-Within m (λ x. n) h (λ x. k)

  -- An operation that leaves the database as it was.
  pub still :
      {E A : Type 0} {m : SchedExec W E A} → ((s : Scheduler W) → (m s).1.db ≡ s.db) → Within P m
  still {m = m} h = record { calls = λ s. subst (λ d. Calls P s.db d) (sym (h s)) stop }

  pub pure-Within : {E A : Type 0} (a : A) → Within P {E = E} (pure {S = Scheduler W} a)
  pure-Within a = still (λ s. refl)

  pub raise-Within : {E A : Type 0} (e : E) → Within P {A = A} (raise {S = Scheduler W} e)
  raise-Within e = still (λ s. refl)

  of_db-Calls :
      {A : Type 0} (s : Scheduler W) (r : Result DbError A × Db)
      → Calls P s.db r.1
      → Calls P s.db (of_db s r).1.db
  of_db-Calls s (ok a, db) c = c
  of_db-Calls s (err e, db) c = c

  pub on_db-Within :
      {A : Type 0} (m : DbExec A) → ((db : Db) → Calls P db (m db).1) → Within P (on_db {W = W} m)
  on_db-Within m h = record { calls = λ s. of_db-Calls s (m s.db) (h s.db) }

  of_store-Calls :
      {A : Type 0} (s : Scheduler W) (r : Result DbError A × Stored W)
      → Calls P s.db r.1.db
      → Calls P s.db (of_store s r).1.db
  of_store-Calls s (ok a, t) c = c
  of_store-Calls s (err e, t) c = c

  pub on_store-Calls :
      {A : Type 0} (m : StoreExec W A) (s : Scheduler W)
      → ((t : Stored W) → SameLog t.db (m t).1.db)
      → Calls P s.db (on_store m s).1.db
  on_store-Calls m s h =
      let t : Stored W = record { db = s.db; os = s.os } in of_store-Calls s (m t) (aside (h t))

  pub on_tree-Within : {A : Type 0} (m : TreeExec W A) → Within P (on_tree m)
  on_tree-Within m = still (λ s. of_tree-db s (m s.os))

  found_task-Within : (id : TaskId) (t : Option Task) → Within P (found_task {W = W} id t)
  found_task-Within id none = raise-Within _
  found_task-Within id (some t) = pure-Within t

  pub must_get-Within : (id : TaskId) → Within P (must_get {W = W} id)
  unfolding must_get
  must_get-Within id =
      >>=-Within _ _ (on_db-Within (get_task id) (λ db. unfold get_task in stop))
        (found_task-Within id)

  module _ (env : Env W) where
    pub now_ms-Within : {E : Type 0} → Within P (now_ms env {E = E})
    unfolding now_ms
    now_ms-Within = still (λ s. refl)

    pub append-Within :
        {E : Type 0} (e : TraceEvent) → IsOther e.detail → Within P (append env {E = E} e)
    unfolding append
    append-Within e o = record { calls = λ s. call stop (Step.append e o) tt }

    pub trace-Within :
        {E : Type 0} (task : Task) (agent : Option AgentId) (kind : TraceEventKind) (d : Detail)
        → IsOther (some d)
        → Within P (trace env {E = E} task agent kind d)
    unfolding trace
    trace-Within task agent kind d o =
        >>=-Within _ _ now_ms-Within
          (λ ts. append-Within _ (event-IsOther env task.trace_id agent kind d ts o))

    pub transition-Within :
        (id : TaskId) (to : TaskState) (reason : TransitionReason)
        → P id
        → Within P (transition env id to reason)
    unfolding transition
    transition-Within id to reason p = >>=-Within _ _ now_ms-Within (λ ts.
        on_db-Within (Tasks.transition id to reason ts) (λ db. call stop (move id to reason ts) p))

    pub try_transition-Within :
        {E : Type 0} (id : TaskId) (to : TaskState) (reason : TransitionReason)
        → P id
        → Within P (try_transition env {E = E} id to reason)
    unfolding try_transition
    try_transition-Within id to reason p = record {
      calls = (transition-Within id to reason p).calls;
    }

    pub fail_task-Within :
        {E : Type 0} (id : TaskId) (fail : SessionFail)
        → P id
        → Within P (fail_task env {E = E} id fail)
    unfolding fail_task
    fail_task-Within id fail p = >>-Within _ _ (try_transition-Within id _ _ p) (pure-Within _)

    pub create_worktree-Within :
        (repo : String) (id : TaskId) (slug : String) → Within P (create_worktree env repo id slug)
    unfolding create_worktree
    create_worktree-Within repo id slug = record {
      calls = λ s. (on_tree-Within (Worktrees.create env.os s.worktree_root repo id slug)).calls s;
    }

    pub commit_worktree-Within :
        (wt : Worktree) (message : String) → Within P (commit_worktree env wt message)
    unfolding commit_worktree
    commit_worktree-Within wt message = on_tree-Within (Worktrees.commit_all env.os wt message)

    pub worktree_diff-Within :
        (repo : String) (wt : Worktree) → Within P (worktree_diff env repo wt)
    unfolding worktree_diff
    worktree_diff-Within repo wt = on_tree-Within (Worktrees.diff env.os repo wt)

  pub set_idle-Within : {E : Type 0} (a : AgentId) → Within P (set_idle {W = W} {E = E} a)
  unfolding set_idle set_agent_status
  set_idle-Within a = record { calls = λ s. aside (refl, refl) }
