-- ===== src/Daemon/Scheduler/Stages.antt =====
-- The stages of the write-review flow, one after the other
-- (crates/divan-daemon/src/scheduler.rs).
use ajan_orkestrasyonu.Prelude.{
  ℕ, true, false, ◌≡◌, refl, inl, inr, Option, String, Result, sym, subst,
}
use ajan_orkestrasyonu.Core.Ids.{AgentId, TaskId}
use ajan_orkestrasyonu.Core.TaskKind.{TaskKind}
use ajan_orkestrasyonu.Core.TaskState.{«open», done, failed}
use ajan_orkestrasyonu.Core.Task.{Task}
use ajan_orkestrasyonu.Db.Store.{Db}
use ajan_orkestrasyonu.Db.Tasks
use ajan_orkestrasyonu.Db.Tasks.{add_dep}
use ajan_orkestrasyonu.Db.Tasks.Current.{create_task-current}
use ajan_orkestrasyonu.Daemon.Worktrees.{Worktree}
use ajan_orkestrasyonu.Daemon.Scheduler.{
  Env, Scheduler, FlowExec, FlowError, FinalReport, implement_failed, review_failed, of_db,
}
use ajan_orkestrasyonu.Daemon.Scheduler.Slug.{slugify}
use ajan_orkestrasyonu.Daemon.Scheduler.Flow.{
  FlowCtx, root_id, impl_id, review_id, new_task, create_task, create_tasks, open_worktree, work,
  snapshot, run_tasks,
}
use ajan_orkestrasyonu.Daemon.Scheduler.Ids.{root-impl, root-review, impl-review}
use ajan_orkestrasyonu.Daemon.Scheduler.Within.{Within}
use ajan_orkestrasyonu.Daemon.Scheduler.Within.Flow.{
  add_dep-Within, create_task-Within, open_worktree-Within, snapshot-Within,
}
use ajan_orkestrasyonu.Daemon.Scheduler.Plain.{
  IsPlain, on_db-Plain, create_task-Plain, open_worktree-Plain, snapshot-Plain,
}
use ajan_orkestrasyonu.Daemon.Scheduler.Triples.{
  Triple, Is, Plainly, >>=-Triple, >>-Triple, weaken, keeping, frame, spares, of_db-db, of_db-ok,
}
use ajan_orkestrasyonu.Daemon.Scheduler.Work.{Only, moving-Post, work-Triple}
use ajan_orkestrasyonu.Daemon.Scheduler.Report.{BothDone, finish_run-Triple}

-- The three tasks of a new run.
abbrev pub Opened : ℕ → Db → Type 0
Opened now db =
    Is (root_id now) «open» db × Is (impl_id now) «open» db × Is (review_id now) «open» db

-- All three tasks are done, and the report says so of the two that it names.
abbrev pub Delivered : ℕ → FinalReport → Db → Type 0
Delivered now r db =
    Is (root_id now) done db
    × BothDone now db
    × (r.implement_state ≡ "done")
    × (r.review_state ≡ "done")

-- What holds when the run ends with an error: a failed session fails its task and the root, and
-- the review of a failed implementation was never taken up.
abbrev pub Halted : ℕ → FlowError → Db → Type 0
Halted now (implement_failed m) db =
    Is (impl_id now) failed db × Is (root_id now) failed db × Is (review_id now) «open» db
Halted now (review_failed m) db =
    Is (review_id now) failed db × Is (root_id now) failed db × Is (impl_id now) done db
Halted now e db = Unit

plain-Halted : (now : ℕ) (e : FlowError) (db : Db) → IsPlain e → Halted now e db
plain-Halted now (implement_failed m) db p = absurd p
plain-Halted now (review_failed m) db p = absurd p
plain-Halted now (FlowError.unknown_agent a) db p = tt
plain-Halted now (FlowError.worktree_failed a) db p = tt
plain-Halted now (FlowError.db_failed a) db p = tt

module _ {W : Type 0} where
  create_task-Is :
      {Pre : Db → Type 0} (ctx : FlowCtx) (id : TaskId) (parent : Option TaskId) (kind : TaskKind)
      (title : String)
      → Triple Pre (create_task {W = W} ctx id parent kind title) (λ a. Is id «open») Plainly
  unfolding create_task
  create_task-Is ctx id parent kind title = record {
    holds = λ s p.
        let t : Task = new_task ctx id parent kind title in
        let r = Tasks.create_task t s.db in
        moving-Post (Is id «open») (of_db s r)
          ((create_task-Plain ctx id parent kind title).error s)
          (λ h. rw (of_db-db s r) (create_task-current t s.db (of_db-ok s r tt h)));
  }

  -- What moves no task keeps the three tasks as they were.
  opened :
      {E A : Type 0} {m : Scheduler W → Result E A × Scheduler W} (now : ℕ)
      → Within (λ j. ⊥) m
      → (s : Scheduler W) → Opened now s.db
      → Opened now (m s).1.db
  opened now h s (r, i, v) = (
    spares (root_id now) «open» (λ x. x) h s r,
    spares (impl_id now) «open» (λ x. x) h s i,
    spares (review_id now) «open» (λ x. x) h s v,
  )

  create_tasks-Opened :
      (ctx : FlowCtx) (title : String)
      → Triple (λ db. Unit {0}) (create_tasks {W = W} ctx title) (λ a. Opened ctx.now) Plainly
  unfolding create_tasks
  create_tasks-Opened ctx title =
      let n = ctx.now in
      >>-Triple _ _ (create_task-Is ctx (root_id n) _ _ _) (
        >>-Triple {Mid = λ db. Is (root_id n) «open» db × Is (impl_id n) «open» db} _ _
          (weaken
            (frame (create_task-Is {Pre = λ db. Unit {0}} ctx (impl_id n) _ _ _) (
              spares (root_id n) «open» (root-impl n)
                (create_task-Within {P = Only (impl_id n)} ctx (impl_id n) _ _ _ refl)))
            (λ db r. (tt, r)) (λ a db (i, r). (r, i)) (λ e db p. p.0))
          (>>-Triple _ _
            (weaken
              (frame (create_task-Is {Pre = λ db. Unit {0}} ctx (review_id n) _ _ _) (λ s (r, i).
                let w = create_task-Within {P = Only (review_id n)} ctx (review_id n) _ _ _ refl in
                (
                  spares (root_id n) «open» (root-review n) w s r,
                  spares (impl_id n) «open» (impl-review n) w s i,
                )))
              (λ db p. (tt, p)) (λ a db (v, (r, i)). (r, i, v)) (λ e db p. p.0))
            (keeping (on_db-Plain (add_dep (review_id n) (impl_id n)))
              (opened n (add_dep-Within (review_id n) (impl_id n))))))

  -- A part without failed sessions.
  pub stage :
      {A : Type 0} {Pre : Db → Type 0} {m : FlowExec W A} {Ok : A → Db → Type 0} (now : ℕ)
      → Triple Pre m Ok Plainly
      → Triple Pre m Ok (Halted now)
  stage now h = weaken h (λ db p. p) (λ a db p. p) (plain-Halted now)

  module _ (env : Env W) where
    module _ (title repo : String) (writer reviewer : AgentId) (ctx : FlowCtx) where
      implement-Triple :
          (wt : Worktree)
          → Triple
              (Opened ctx.now)
              (work env (root_id ctx.now) (impl_id ctx.now) writer implement_failed false wt)
              (λ o db.
                Is (impl_id ctx.now) done db
                × Is (root_id ctx.now) «open» db
                × Is (review_id ctx.now) «open» db)
              (Halted ctx.now)
      implement-Triple wt =
          weaken
            (work-Triple env (root_id ctx.now) (impl_id ctx.now) (review_id ctx.now) «open»
              (root-impl ctx.now) (λ e. impl-review ctx.now (sym e))
              (λ e. root-review ctx.now (sym e)) implement_failed writer false wt)
            (λ db (r, i, v). (r, v)) (λ o db (i, (r, v)). (i, r, v))
            (λ e db p. elim p [
              | inl q ↦ plain-Halted ctx.now e db q
              | inr (m, q, x, y, z) ↦ subst (λ f. Halted ctx.now f db) (sym q) (x, y, z)
            ])

      review-Triple :
          (wt : Worktree)
          → Triple
              (λ db.
                Is (impl_id ctx.now) done db
                × Is (root_id ctx.now) «open» db
                × Is (review_id ctx.now) «open» db)
              (work env (root_id ctx.now) (review_id ctx.now) reviewer review_failed true wt)
              (λ o. BothDone ctx.now)
              (Halted ctx.now)
      review-Triple wt =
          weaken
            (work-Triple env (root_id ctx.now) (review_id ctx.now) (impl_id ctx.now) done
              (root-review ctx.now) (impl-review ctx.now) (λ e. root-impl ctx.now (sym e))
              review_failed reviewer true wt)
            (λ db (i, r, v). (r, i)) (λ o db (v, (r, i)). (i, v))
            (λ e db p. elim p [
              | inl q ↦ plain-Halted ctx.now e db q
              | inr (m, q, x, y, z) ↦ subst (λ f. Halted ctx.now f db) (sym q) (x, y, z)
            ])

      pub run_tasks-Triple :
          Triple
            (λ db. Unit {0})
            (run_tasks env title repo writer reviewer ctx)
            (Delivered ctx.now)
            (Halted ctx.now)
      unfolding run_tasks
      run_tasks-Triple = >>-Triple _ _ (stage ctx.now (create_tasks-Opened ctx title)) (
          >>=-Triple (open_worktree env ctx repo (slugify title)) _
            (stage ctx.now (
              keeping (open_worktree-Plain env ctx repo (slugify title))
                (opened ctx.now (open_worktree-Within env ctx repo (slugify title)))))
            (λ wt. >>-Triple _ _ (implement-Triple wt) (
              >>=-Triple (snapshot env title repo writer wt) _
                (stage ctx.now (
                  keeping (snapshot-Plain env title repo writer wt) (λ s (i, r, v).
                    let w : Within (λ j. ⊥) (snapshot env title repo writer wt) =
                      snapshot-Within env title repo writer wt in
                    (
                      spares (impl_id ctx.now) done (λ x. x) w s i,
                      spares (root_id ctx.now) «open» (λ x. x) w s r,
                      spares (review_id ctx.now) «open» (λ x. x) w s v,
                    ))))
                (λ d.
                  >>=-Triple
                    (work env (root_id ctx.now) (review_id ctx.now) reviewer review_failed true wt)
                    _ (review-Triple wt)
                    (λ o.
                      stage ctx.now
                        (finish_run-Triple env ctx title writer reviewer d o.final_text))))))
