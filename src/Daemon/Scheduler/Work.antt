-- ===== src/Daemon/Scheduler/Work.antt =====
-- What a stage of the flow leaves of its task, of the root and of any other task
-- (crates/divan-daemon/src/scheduler.rs).
use ajan_orkestrasyonu.Prelude.{
  ◌≡◌, refl, ◌≢◌, ◌⊎◌, inl, inr, Bool, some, String, Result, ok, err, ◌>>◌, pure, sym, none, true,
}
use ajan_orkestrasyonu.Core.Ids.{AgentId, TaskId}
use ajan_orkestrasyonu.Core.AgentStatus.{AgentStatus}
use ajan_orkestrasyonu.Core.TaskState.{TaskState, «open», working, done, failed, can_transition_to}
use ajan_orkestrasyonu.Core.Task.{TransitionReason, fatal, completed}
use ajan_orkestrasyonu.Db.Store.{Db}
use ajan_orkestrasyonu.Db.Tasks.{assign}
use ajan_orkestrasyonu.Db.Agents.{set_agent_status}
use ajan_orkestrasyonu.Daemon.Worktrees.{Worktree}
use ajan_orkestrasyonu.Daemon.Scheduler.{
  Env, Scheduler, FlowError, SessionFail, now_ms, transition, fail_reason, fail_task,
  try_transition, set_idle, must_get,
}
use ajan_orkestrasyonu.Daemon.Scheduler.Session.{SessionOutcome, run_session}
use ajan_orkestrasyonu.Daemon.Scheduler.Flow.{take_up, settle, work}
use ajan_orkestrasyonu.Daemon.Scheduler.Within.{
  Within, transition-Within, set_idle-Within, >>-Within, pure-Within,
}
use ajan_orkestrasyonu.Daemon.Scheduler.Within.Session.{run_session-Within}
use ajan_orkestrasyonu.Daemon.Scheduler.Within.Flow.{take_up-Within}
use ajan_orkestrasyonu.Daemon.Scheduler.Plain.{
  IsPlain, Plain, >>-Plain, pure-Plain, on_db-Plain, now_ms-Plain, must_get-Plain, transition-Plain,
  set_idle-Plain,
}
use ajan_orkestrasyonu.Daemon.Scheduler.Triples.{
  Post, Triple, Is, Plainly, >>=-Triple, >>-Triple, weaken, keeping, plainly, frame, spares,
  transition-Is, transition-edge,
}

abbrev pub Only : TaskId → TaskId → Type 0
Only id j = j ≡ id

pub moving-Post :
    {W : Type 0} (Q : Db → Type 0) (r : Result FlowError (Unit {0}) × Scheduler W)
    → ((e : FlowError) → r.0 ≡ err e → IsPlain e)
    → (r.0 ≡ ok tt → Q r.1.db)
    → Post (λ a. Q) Plainly r
moving-Post Q (ok a, s) h q = q refl
moving-Post Q (err e, s) h q = h e refl

working-failed : can_transition_to working failed ≡ true
unfolding can_transition_to
working-failed = refl

open-failed : can_transition_to «open» failed ≡ true
unfolding can_transition_to
open-failed = refl

module _ {W : Type 0} (env : Env W) where
  pub moving :
      {Pre : Db → Type 0} (id : TaskId) (to : TaskState) (reason : TransitionReason)
      → Triple Pre (transition env id to reason) (λ a. Is id to) Plainly
  moving id to reason = record {
    holds = λ s p.
        moving-Post (Is id to) (transition env id to reason s)
          ((transition-Plain env id to reason).error s) (transition-Is env id to reason s);
  }

  take_up-Is :
      {Pre : Db → Type 0} (id : TaskId) (agent : AgentId) (wt : Worktree)
      → Triple Pre (take_up env id agent wt) (λ task. Is id working) Plainly
  unfolding take_up
  take_up-Is id agent wt =
      >>-Triple _ _ (plainly (on_db-Plain (set_agent_status agent AgentStatus.busy none))) (
        >>=-Triple (now_ms env) _ (plainly (now_ms-Plain env)) (λ ts.
          >>-Triple _ _ (plainly (on_db-Plain (assign id agent (some wt.path) ts))) (
            >>=-Triple (must_get id) _ (plainly (must_get-Plain id)) (λ task.
              >>-Triple _ _ (plainly (transition-Plain env id _ _))
                (>>-Triple _ _ (moving id _ _) (keeping (pure-Plain task) (λ s i. i)))))))

  module _ (root id other : TaskId) (st : TaskState) (root-id : root ≢ id) (other-id : other ≢ id)
      (other-root : other ≢ root) (wrap : String → FlowError) where
    -- The root and the other task.
    abbrev pub Around : Db → Type 0
    Around db = Is root «open» db × Is other st db

    -- An error of the stage: none of a session, or the task and the root have failed.
    abbrev pub Failed : FlowError → Db → Type 0
    Failed e db =
        IsPlain e
        ⊎ ((m : String) × (e ≡ wrap m) × Is id failed db × Is root failed db × Is other st db)

    around :
        {E A : Type 0} {m : Scheduler W → Result E A × Scheduler W}
        → Within (Only id) m
        → (s : Scheduler W) → Around s.db
        → Around (m s).1.db
    around h s (r, o) = (spares root «open» root-id h s r, spares other st other-id h s o)

    rest-Plain :
        (agent : AgentId) (o : SessionOutcome)
        → Plain (set_idle {W = W} {E = FlowError} agent >> pure o)
    rest-Plain agent o = >>-Plain (set_idle agent) (pure o) (set_idle-Plain agent) (pure-Plain o)

    settle-Post :
        (agent : AgentId) (r : Result SessionFail SessionOutcome × Scheduler W)
        → Is id working r.1.db
        → Around r.1.db
        → Post (λ o db. Is id done db × Around db) Failed (settle env root id agent wrap r)
    unfolding fail_task try_transition set_idle set_agent_status
    settle-Post agent (err fail, s) i (r, o) =
        let reason = (fail_reason env fail).0 in
        let m = transition env id failed reason in
        let n = transition env root failed fatal in
        let c : Within (Only id) m = transition-Within env id failed reason refl in
        let d : Within (Only root) n = transition-Within env root failed fatal refl in
        let s' : Scheduler W = (m s).1 in
        inr (
          (fail_reason env fail).1,
          refl,
          spares id failed (λ e. root-id (sym e)) d s'
              (transition-edge env id failed reason working working-failed s i),
          transition-edge env root failed fatal «open» open-failed s'
              (spares root «open» root-id c s r),
          spares other st other-root d s' (spares other st other-id c s o),
        )
    settle-Post agent (ok outcome, s) i a =
        let rest = set_idle {W = W} {E = FlowError} agent >> pure outcome in
        let m = transition env id done completed >> rest in
        let kept : Within (Only id) m =
          >>-Within (transition env id done completed) rest
            (transition-Within env id done completed refl)
            (>>-Within (set_idle agent) (pure outcome) (set_idle-Within agent)
              (pure-Within outcome)) in
        let t : Triple (Is id working) m (λ o. Is id done) Plainly =
          >>-Triple (transition env id done completed) rest (moving id done completed)
            (keeping (rest-Plain agent outcome) (λ u d. d)) in
        (weaken (frame t (around kept)) (λ db p. p) (λ o db p. p) (λ e db p. inl p.0)).holds s
          (i, a)

    -- A stage that succeeds leaves its task done; a failed session leaves the task and the root
    -- failed. The other task is as it was.
    pub work-Triple :
        (agent : AgentId) (read_only : Bool) (wt : Worktree)
        → Triple Around
            (work env root id agent wrap read_only wt)
            (λ o db. Is id done db × Around db)
            Failed
    unfolding work
    work-Triple agent read_only wt =
        >>=-Triple (take_up env id agent wt) _
          (weaken
            (frame (take_up-Is {Pre = λ db. Unit} id agent wt)
              (around (take_up-Within env id agent wt refl)))
            (λ db a. (tt, a)) (λ task db p. p) (λ e db p. inl p.0))
          (λ task. record {
            holds = λ s p.
                let c : Within (λ j. ⊥) (run_session env task agent read_only (some wt.path)) =
                  run_session-Within env task agent read_only (some wt.path) in
                settle-Post agent (run_session env task agent read_only (some wt.path) s)
                  (spares id working (λ x. x) c s p.0)
                  (spares root «open» (λ x. x) c s p.1.0, spares other st (λ x. x) c s p.1.1);
          })
