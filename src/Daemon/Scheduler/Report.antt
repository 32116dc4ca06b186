-- ===== src/Daemon/Scheduler/Report.antt =====
-- The end of the flow: the report shows the states of the two tasks, and the root is done
-- (crates/divan-daemon/src/scheduler.rs).
use ajan_orkestrasyonu.Prelude.{ℕ, ◌≡◌, refl, Option, none, some, String, ap, find, arith, ◌∙◌}
use ajan_orkestrasyonu.Core.Ids.{AgentId, ArtifactRef, TaskId}
use ajan_orkestrasyonu.Core.TaskState
use ajan_orkestrasyonu.Core.TaskState.{TaskState, done}
use ajan_orkestrasyonu.Core.Task.{TransitionReason, completed}
use ajan_orkestrasyonu.Db.Store.{Db, TaskRow}
use ajan_orkestrasyonu.Db.Tasks.{has_id, row_to_task, get_task}
use ajan_orkestrasyonu.Db.Tasks.Audit.{row_state}
use ajan_orkestrasyonu.Daemon.Scheduler.{
  Env, Scheduler, FlowExec, FlowError, found_task, FinalReport, must_get, now_ms, trace,
  try_transition,
}
use ajan_orkestrasyonu.Daemon.Scheduler.Flow.{
  FlowCtx, root_id, impl_id, review_id, publish, close_run, finish_run,
}
use ajan_orkestrasyonu.Daemon.Scheduler.Within.{
  Within, must_get-Within, now_ms-Within, try_transition-Within,
}
use ajan_orkestrasyonu.Daemon.Scheduler.Within.Flow.{publish-Within, close_run-Within}
use ajan_orkestrasyonu.Daemon.Scheduler.Plain.{
  Plain, publish-Plain, must_get-Plain, now_ms-Plain, trace-Plain, try_transition-Plain,
}
use ajan_orkestrasyonu.Daemon.Scheduler.Triples.{
  Post, Triple, Is, Plainly, >>=-Triple, >>-Triple, weaken, plainly, keeping, frame, final,
}
use ajan_orkestrasyonu.Daemon.Scheduler.Work.{moving}

-- Both tasks of the run are done.
abbrev pub BothDone : ℕ → Db → Type 0
BothDone now db = Is (impl_id now) done db × Is (review_id now) done db

row-state :
    (st : TaskState) (r : TaskRow) → row_state (some r) ≡ some st → (row_to_task r).state ≡ st
row-state st r h = ground arith

module _ {W : Type 0} where
  found_task-state :
      (id : TaskId) (st : TaskState) (r : Option TaskRow) (s : Scheduler W)
      → row_state r ≡ some st
      → Post
          (λ t db. t.state ≡ st)
          Plainly
          (found_task id (elim r [ none ↦ none | some x ↦ some (row_to_task x) ]) s)
  found_task-state id st none s h = tt
  found_task-state id st (some r) s h = row-state st r h

  -- The task that is read is in the state that the table shows.
  must_get-state :
      (id : TaskId) (st : TaskState)
      → Triple (Is id st) (must_get {W = W} id) (λ t db. t.state ≡ st) Plainly
  unfolding must_get get_task
  must_get-state id st = record {
    holds = λ s i. found_task-state id st (find (has_id id) s.db.tasks) s i;
  }

  -- A fact about a value that was read is a hypothesis of what follows.
  assuming :
      {A : Type 0} {C : Type 0} {Pre : Db → Type 0} {m : FlowExec W A} {Ok : A → Db → Type 0}
      {Bad : FlowError → Db → Type 0}
      → (C → Triple Pre m Ok Bad)
      → Triple (λ db. C × Pre db) m Ok Bad
  assuming h = record { holds = λ s p. (h p.0).holds s p.1 }

  both :
      {A : Type 0} {P : TaskId → Type 0} {m : FlowExec W A} (now : ℕ)
      → Within P m
      → (s : Scheduler W) → BothDone now s.db
      → BothDone now (m s).1.db
  both now h s (i, r) = (final (impl_id now) done refl h s i, final (review_id now) done refl h s r)

  module _ (env : Env W) (ctx : FlowCtx) where
    -- The root is done and the states of the report are those of `report`.
    abbrev pub Closed : FinalReport → FinalReport → Db → Type 0
    Closed report r db =
        Is (root_id ctx.now) done db
        × (r.implement_state ≡ report.implement_state)
        × (r.review_state ≡ report.review_state)

    close_run-Triple :
        (ts : ℕ) (report : FinalReport)
        → Triple (λ db. Unit {0}) (close_run env ctx ts report) (Closed report) Plainly
    unfolding close_run
    close_run-Triple ts report =
        >>=-Triple (publish env _ _ _ _ ts) _ (plainly (publish-Plain env _ _ _ _ ts)) (λ r.
          >>=-Triple (must_get (root_id ctx.now)) _ (plainly (must_get-Plain _)) (λ root.
            >>-Triple (trace env root none _ _) _ (plainly (trace-Plain env root none _ _)) (
              >>-Triple _ _ (moving env (root_id ctx.now) done completed)
                (record { holds = λ s i. (i, refl, refl) }))))

    -- A run that ends has done all three tasks, and its report says so of the two it names.
    abbrev pub Reported : FinalReport → Db → Type 0
    Reported r db =
        Is (root_id ctx.now) done db
        × BothDone ctx.now db
        × (r.implement_state ≡ "done")
        × (r.review_state ≡ "done")

    close_run-Reported :
        (ts : ℕ) (report : FinalReport)
        → report.implement_state ≡ "done"
        → report.review_state ≡ "done"
        → Triple (BothDone ctx.now) (close_run env ctx ts report) Reported Plainly
    close_run-Reported ts report h k =
        weaken
          (frame (close_run-Triple ts report)
            (both ctx.now (close_run-Within {P = λ j. Unit {0}} env ctx ts report tt)))
          (λ db d. (tt, d)) (λ r db ((i, p, q), d). (i, d, p ∙ h, q ∙ k)) (λ e db p. p.0)

    pub finish_run-Triple :
        (title : String) (writer reviewer : AgentId) (diff_ref : ArtifactRef)
        (final_text : Option String)
        → Triple
            (BothDone ctx.now)
            (finish_run env ctx title writer reviewer diff_ref final_text)
            Reported
            Plainly
    unfolding finish_run
    finish_run-Triple title writer reviewer diff_ref final_text =
        >>=-Triple (now_ms env) _ (keep (now_ms-Plain env) (now_ms-Within env)) (λ review_ts.
          >>=-Triple (publish env _ _ _ _ review_ts) _
            (keep (publish-Plain env _ _ _ _ review_ts) (publish-Within env _ _ _ _ review_ts))
            (λ r. >>-Triple _ _ (tried _ _) (
              >>-Triple _ _ (tried _ _) (
                >>=-Triple (must_get (impl_id ctx.now)) _ (read _ (λ db d. d.0)) (λ i.
                  assuming (λ p.
                    >>=-Triple (must_get (review_id ctx.now)) _ (read _ (λ db d. d.1)) (λ v.
                      assuming (λ q.
                        >>=-Triple (now_ms env) _ (keep (now_ms-Plain env) (now_ms-Within env))
                          (λ ts.
                            close_run-Reported ts _ (ap TaskState.as_str p)
                              (ap TaskState.as_str q))))))))))
      where
        keep :
            {A : Type 0} {m : FlowExec W A}
            → Plain m
            → Within (λ j. Unit {0}) m
            → Triple (BothDone ctx.now) m (λ a. BothDone ctx.now) Plainly
        keep p w = keeping p (both ctx.now w)

        tried :
            (to : TaskState) (reason : TransitionReason)
            → Triple
                (BothDone ctx.now)
                (try_transition env (root_id ctx.now) to reason)
                (λ a. BothDone ctx.now)
                Plainly
        tried to reason =
            keep (try_transition-Plain env _ to reason) (try_transition-Within env _ to reason tt)

        read :
            (id : TaskId)
            → ((db : Db) → BothDone ctx.now db → Is id done db)
            → Triple
                (BothDone ctx.now)
                (must_get {W = W} id)
                (λ t db. (t.state ≡ done) × BothDone ctx.now db)
                Plainly
        read id h =
            weaken
              (frame (must_get-state id done)
                (both ctx.now (must_get-Within {P = λ j. Unit {0}} id)))
              (λ db d. (h db d, d)) (λ t db p. p) (λ e db p. p.0)
