-- ===== src/Daemon/Scheduler/Within/Session.antt =====
-- A session, its retries included, creates and moves no task; it writes trace events, touches and
-- alerts (crates/divan-daemon/src/scheduler.rs).
use ajan_orkestrasyonu.Prelude.{
  ℕ, zero, suc, ◌≡◌, refl, Bool, true, false, Option, none, some, String, List, [], ◌∷◌, Result, ok,
  err, leb, if◌then◌else◌, arith,
}
use ajan_orkestrasyonu.Core.Ids.{AgentId, ArtifactRef, TaskId}
use ajan_orkestrasyonu.Core.Task.{Task}
use ajan_orkestrasyonu.Core.Event.{
  NormalizedEvent, tool_call, file_edit, turn_end, session_idle, session_end, error,
}
use ajan_orkestrasyonu.Db.Store.{Db}
use ajan_orkestrasyonu.Db.Artifacts.{Stored, get, get_meta, safe_join}
use ajan_orkestrasyonu.Db.Tasks.Calls.{Calls, stop, Calls-trans, SameLog, aside}
use ajan_orkestrasyonu.Adapters.{AgentAdapter, AdapterError, SessionHandle}
use ajan_orkestrasyonu.Daemon.Bus.Quiet.{record_touch-SameLog}
use ajan_orkestrasyonu.Daemon.Scheduler.{
  Env, Scheduler, SchedExec, SessionFail, retryable_fail, fatal_fail, timed_out, FlowError, now_ms,
  lookup,
}
use ajan_orkestrasyonu.Daemon.Scheduler.Session.{
  SessExec, SessionOutcome, find_adapter, of_adapter, on_adapter, watched, text_or, spec_from,
  prompt_for, touch, record_edit, hear, drain, timely, run_session_once, retry_with, attempt_from,
  run_session,
}
use ajan_orkestrasyonu.Daemon.Scheduler.Within.{
  Within, >>=-Within, >>-Within, still, pure-Within, raise-Within, now_ms-Within, trace-Within,
  on_store-Calls,
}

module _ {W : Type 0} where
  get-SameLog :
      (env : Env W) (root : String) (r : ArtifactRef) (t : Stored W)
      → SameLog t.db (get env.os env.digest root r t).1.db
  unfolding get get_meta safe_join
  get-SameLog env root r t = ground arith

  of_adapter-db :
      {A : Type 0} (s : Scheduler W) (r : Result AdapterError A × W) → (of_adapter s r).1.db ≡ s.db
  of_adapter-db s (ok a, w) = refl
  of_adapter-db s (err e, w) = refl

module _ {W : Type 0} {P : TaskId → Type 0} (env : Env W) where
  text_or-Calls :
      (a : Db) (task : Task) (r : Result FlowError String × Scheduler W)
      → Calls P a r.1.db
      → Calls P a (text_or env task r).0.db
  text_or-Calls a task (ok text, s) c = c
  text_or-Calls a task (err e, s) c = c

  spec_from-Calls :
      (task : Task) (r : Option ArtifactRef) (s : Scheduler W)
      → Calls P s.db (spec_from env task r s).0.db
  spec_from-Calls task none s = stop
  spec_from-Calls task (some r) s = text_or-Calls s.db task _ (
      on_store-Calls (get env.os env.digest s.artifact_root r) s
        (get-SameLog env s.artifact_root r))

  prompt_for-Within : (task : Task) (read_only : Bool) → Within P (prompt_for env task read_only)
  unfolding prompt_for
  prompt_for-Within task read_only = record { calls = spec_from-Calls task task.spec_ref }

  touch-Within :
      (task : Task) (agent : AgentId) (path : String) (bus : Option ℕ)
      → Within P (touch env task agent path bus)
  touch-Within task agent path none = pure-Within tt
  touch-Within task agent path (some seq) = >>=-Within (now_ms env) _ (now_ms-Within env) (λ ts.
      record {
        calls = λ t. aside (
            record_touch-SameLog env.path_json path agent (some task.id) ts
              (record { db = t.db; seq = seq }));
      })

  record_edit-Within :
      (task : Task) (agent : AgentId) (path : String) → Within P (record_edit env task agent path)
  record_edit-Within task agent path = record {
    calls = λ s. (touch-Within task agent path s.bus).calls s;
  }

  if-Within :
      {E A : Type 0} {m n : SchedExec W E A} (b : Bool)
      → Within P m
      → Within P n
      → Within P (if b then m else n)
  if-Within true h k = h
  if-Within false h k = k

  hear-Within :
      (task : Task) (agent : AgentId) (ev : NormalizedEvent) (rest : SessExec W SessionOutcome)
      → Within P rest
      → Within P (hear env task agent ev rest)
  hear-Within task agent (tool_call name input) rest h =
      >>-Within _ _ (trace-Within env task (some agent) _ _ tt) h
  hear-Within task agent (file_edit path kind) rest h =
      >>-Within _ _ (trace-Within env task (some agent) _ _ tt)
        (>>-Within (record_edit env task agent path) _ (record_edit-Within task agent path) h)
  hear-Within task agent turn_end rest h =
      >>-Within _ _ (trace-Within env task (some agent) _ _ tt) h
  hear-Within task agent (session_end false usage final_text) rest h = raise-Within _
  hear-Within task agent (session_end true usage final_text) rest h = pure-Within _
  hear-Within task agent (error class message) rest h = raise-Within _
  hear-Within task agent session_idle rest h = h

  drain-Within :
      (task : Task) (agent : AgentId) (budget : ℕ) (closes_at : Option ℕ)
      (events : List (ℕ × NormalizedEvent))
      → Within P (drain env task agent budget closes_at events)
  unfolding drain
  drain-Within task agent budget closes_at [] =
      if-Within (timely closes_at budget) (raise-Within _) (raise-Within _)
  drain-Within task agent budget closes_at ((at, ev) ∷ events) =
      if-Within (leb at budget)
        (hear-Within task agent ev _ (drain-Within task agent budget closes_at events))
        (raise-Within _)

  watched-Calls :
      {A : Type 0} (a : Db) (h : AgentAdapter W) (handle : SessionHandle)
      (r : Result SessionFail A × Scheduler W)
      → Calls P a r.1.db
      → Calls P a (watched h handle r).1.db
  watched-Calls a h handle (err timed_out, s) c = c
  watched-Calls a h handle (err (retryable_fail m), s) c = c
  watched-Calls a h handle (err (fatal_fail m), s) c = c
  watched-Calls a h handle (ok x, s) c = c

  on_adapter-Within :
      {A : Type 0} (m : W → Result AdapterError A × W) → Within P (on_adapter {W = W} m)
  on_adapter-Within m = still (λ s. of_adapter-db s (m s.os))

  find_adapter-Within :
      (agent : AgentId) (a : Option (AgentAdapter W)) → Within P (find_adapter agent a)
  find_adapter-Within agent none = raise-Within _
  find_adapter-Within agent (some a) = pure-Within a

  run_session_once-Within :
      (task : Task) (agent : AgentId) (read_only : Bool) (worktree : Option String)
      → Within P (run_session_once env task agent read_only worktree)
  unfolding run_session_once
  run_session_once-Within task agent read_only worktree =
      >>=-Within (λ s. find_adapter agent (lookup agent s.adapters) s) _
        (record { calls = λ s. (find_adapter-Within agent (lookup agent s.adapters)).calls s })
        (λ a.
          >>=-Within (prompt_for env task read_only) _ (prompt_for-Within task read_only) (λ prompt.
            >>=-Within (on_adapter _) _ (on_adapter-Within _) (λ handle.
              >>-Within _ _ (trace-Within env task (some agent) _ _ tt) (
                >>=-Within (on_adapter (a.observe handle)) _ (on_adapter-Within _) (λ stream.
                  record {
                    calls = λ s.
                        watched-Calls s.db a handle _
                          ((drain-Within task agent _ stream.closes_at stream.events).calls s);
                  })))))

  retry_with-Calls :
      {A : Type 0} (a : Db) (again : String → SessExec W A) (r : Result SessionFail A × Scheduler W)
      → Calls P a r.1.db
      → ((m : String) → Within P (again m))
      → Calls P a (retry_with again r).1.db
  retry_with-Calls a again (err (retryable_fail m), s) c h = Calls-trans c ((h m).calls s)
  retry_with-Calls a again (err (fatal_fail m), s) c h = c
  retry_with-Calls a again (err timed_out, s) c h = c
  retry_with-Calls a again (ok x, s) c h = c

  attempt_from-Within :
      (task : Task) (agent : AgentId) (read_only : Bool) (worktree : Option String)
      (left attempt : ℕ)
      → Within P (attempt_from env task agent read_only worktree left attempt)
  unfolding attempt_from
  attempt_from-Within task agent read_only worktree zero attempt = record {
    calls = (run_session_once-Within task agent read_only worktree).calls;
  }
  attempt_from-Within task agent read_only worktree (suc left) attempt = record {
    calls = λ s.
        retry_with-Calls s.db _ _ ((run_session_once-Within task agent read_only worktree).calls s)
          (λ m.
            >>-Within _ _ (trace-Within env task (some agent) _ _ tt)
              (attempt_from-Within task agent read_only worktree left (suc attempt)));
  }

  pub run_session-Within :
      (task : Task) (agent : AgentId) (read_only : Bool) (worktree : Option String)
      → Within P (run_session env task agent read_only worktree)
  unfolding run_session
  run_session-Within task agent read_only worktree = record {
    calls = λ s. (attempt_from-Within task agent read_only worktree s.max_retries 0).calls s;
  }
