-- ===== src/Daemon/Scheduler/Outcome.antt =====
-- What a run of the write-review flow leaves, however it ends
-- (crates/divan-daemon/src/scheduler.rs).
use Prim.Native.String.{◌++◌ as concat}
use ajan_orkestrasyonu.Prelude.Decimal.{show}
use ajan_orkestrasyonu.Prelude.{ℕ, ◌≡◌, none, String, Result, ok, err, subst}
use ajan_orkestrasyonu.Core.Ids.{AgentId}
use ajan_orkestrasyonu.Core.TaskState.{«open», done, failed}
use ajan_orkestrasyonu.Db.Store.{Db}
use ajan_orkestrasyonu.Daemon.Scheduler.{
  Env, Scheduler, FlowError, FinalReport, implement_failed, review_failed, now_ms,
}
use ajan_orkestrasyonu.Daemon.Scheduler.Reviewer.{select_reviewer}
use ajan_orkestrasyonu.Daemon.Scheduler.Flow.{
  root_id, impl_id, review_id, publish, run_write_review,
}
use ajan_orkestrasyonu.Daemon.Scheduler.Plain.{publish-Plain, select_reviewer-Plain}
use ajan_orkestrasyonu.Daemon.Scheduler.Triples.{Post, Is, >>=-Triple, plainly}
use ajan_orkestrasyonu.Daemon.Scheduler.Stages.{Delivered, Halted, stage, run_tasks-Triple}

module _ {W : Type 0} (env : Env W) where
  -- The time that names the tasks of the run.
  abbrev pub started : Scheduler W → ℕ
  started s = (env.os.now_ms s.os).0

  run_write_review-Triple :
      (title spec_text repo : String) (writer default_reviewer : AgentId) (s : Scheduler W)
      → Post
          (Delivered (started s))
          (Halted (started s))
          (run_write_review env title spec_text repo writer default_reviewer s)
  unfolding run_write_review now_ms
  run_write_review-Triple title spec_text repo writer default_reviewer s =
      let now = started s in
      (>>=-Triple {Pre = λ db. Unit {0}} (select_reviewer env writer default_reviewer _) _
          (stage now (plainly (select_reviewer-Plain env writer default_reviewer _)))
          (λ reviewer.
            >>=-Triple (publish env spec_text _ _ none now) _
              (stage now (plainly (publish-Plain env spec_text _ _ none now)))
              (λ r.
                run_tasks-Triple env title repo writer reviewer (record {
                  trace_id = concat "trace-" (show now);
                  spec_ref = r;
                  now = now;
                })))).holds
        (now_ms env {E = FlowError} s).1 tt

  Post-ok :
      {A : Type 0} (Ok : A → Db → Type 0) (Bad : FlowError → Db → Type 0)
      (r : Result FlowError A × Scheduler W) (a : A)
      → r.0 ≡ ok a
      → Post Ok Bad r
      → Ok a r.1.db
  Post-ok Ok Bad (ok x, s) a q h = subst (λ y. Ok y s.db) {x = x} {y = a} (cc q) h
  Post-ok Ok Bad (err e, s) a q h = cc q

  Post-err :
      {A : Type 0} (Ok : A → Db → Type 0) (Bad : FlowError → Db → Type 0)
      (r : Result FlowError A × Scheduler W) (e : FlowError)
      → r.0 ≡ err e
      → Post Ok Bad r
      → Bad e r.1.db
  Post-err Ok Bad (ok x, s) e q h = cc q
  Post-err Ok Bad (err x, s) e q h = subst (λ y. Bad y s.db) {x = x} {y = e} (cc q) h

  module _ (title spec_text repo : String) (writer default_reviewer : AgentId)
      (s : Scheduler W) where
    abbrev run : Result FlowError FinalReport × Scheduler W
    run = run_write_review env title spec_text repo writer default_reviewer s

    -- A run that returns a report has done its three tasks, and the report shows the two that it
    -- names as done.
    pub run_write_review_ok :
        (r : FinalReport)
        → (run_write_review env title spec_text repo writer default_reviewer s).0 ≡ ok r
        → Delivered
            (started s)
            r
            (run_write_review env title spec_text repo writer default_reviewer s).1.db
    run_write_review_ok r h =
        Post-ok (Delivered (started s)) (Halted (started s)) run r h
          (run_write_review-Triple title spec_text repo writer default_reviewer s)

    -- When a run ends because the session of the writer failed, the implement task and the root
    -- are failed and the review task is still open: it was never taken up.
    pub run_write_review-implement_failed :
        (m : String)
        → (run_write_review env title spec_text repo writer default_reviewer s).0
          ≡ err (implement_failed m)
        → let db = (run_write_review env title spec_text repo writer default_reviewer s).1.db in
          Is (impl_id (started s)) failed db
          × Is (root_id (started s)) failed db
          × Is (review_id (started s)) «open» db
    run_write_review-implement_failed m h =
        Post-err (Delivered (started s)) (Halted (started s)) run (implement_failed m) h
          (run_write_review-Triple title spec_text repo writer default_reviewer s)

    -- When a run ends because the session of the reviewer failed, the review task and the root
    -- are failed and the implement task is done.
    pub run_write_review-review_failed :
        (m : String)
        → (run_write_review env title spec_text repo writer default_reviewer s).0
          ≡ err (review_failed m)
        → let db = (run_write_review env title spec_text repo writer default_reviewer s).1.db in
          Is (review_id (started s)) failed db
          × Is (root_id (started s)) failed db
          × Is (impl_id (started s)) done db
    run_write_review-review_failed m h =
        Post-err (Delivered (started s)) (Halted (started s)) run (review_failed m) h
          (run_write_review-Triple title spec_text repo writer default_reviewer s)
