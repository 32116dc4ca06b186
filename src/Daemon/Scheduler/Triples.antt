-- ===== src/Daemon/Scheduler/Triples.antt =====
-- Triples for the operations of the flow: what holds of the database before, after a success and
-- after an error (crates/divan-daemon/src/scheduler.rs).
use ajan_orkestrasyonu.Prelude.{
  ◌≡◌, refl, true, some, Result, ok, err, ◌>>=◌, ◌>>◌, proceed, ◌∙◌, ap,
}
use ajan_orkestrasyonu.Core.Ids.{TaskId}
use ajan_orkestrasyonu.Core.TaskState.{TaskState, is_terminal, can_transition_to}
use ajan_orkestrasyonu.Core.Task.{TransitionReason}
use ajan_orkestrasyonu.Db.Store.{Db, DbError}
use ajan_orkestrasyonu.Db.Tasks
use ajan_orkestrasyonu.Db.Tasks.Audit.{current}
use ajan_orkestrasyonu.Db.Tasks.Calls.{Calls-spares, Calls-Steps}
use ajan_orkestrasyonu.Db.Tasks.Current.{transition-current, edge-current}
use ajan_orkestrasyonu.Db.Tasks.Safety.{terminal_final}
use ajan_orkestrasyonu.Daemon.Scheduler.{
  Env, Scheduler, FlowExec, FlowError, of_db, now_ms, transition,
}
use ajan_orkestrasyonu.Daemon.Scheduler.Within.{Within}
use ajan_orkestrasyonu.Daemon.Scheduler.Plain.{IsPlain, Plain}

abbrev pub Post :
    {W A : Type 0}
    → (A → Db → Type 0)
    → (FlowError → Db → Type 0)
    → Result FlowError A × Scheduler W
    → Type 0
Post Ok Bad (ok a, s) = Ok a s.db
Post Ok Bad (err e, s) = Bad e s.db

pub record Triple {W A : Type 0} (Pre : Db → Type 0) (m : FlowExec W A) (Ok : A → Db → Type 0)
    (Bad : FlowError → Db → Type 0) : Type 0 where
  pub holds : (s : Scheduler W) → Pre s.db → Post Ok Bad (m s)

-- The task is in the state.
abbrev pub Is : TaskId → TaskState → Db → Type 0
Is id st db = current id db ≡ some st

abbrev pub Plainly : FlowError → Db → Type 0
Plainly e db = IsPlain e

module _ {W : Type 0} where
  proceed-Post :
      {A B : Type 0} {Mid : A → Db → Type 0} {Ok : B → Db → Type 0} {Bad : FlowError → Db → Type 0}
      (f : A → FlowExec W B) (r : Result FlowError A × Scheduler W)
      → Post Mid Bad r
      → ((a : A) → Triple (Mid a) (f a) Ok Bad)
      → Post Ok Bad (proceed f r)
  proceed-Post f (ok a, s) h k = (k a).holds s h
  proceed-Post f (err e, s) h k = h

  pub >>=-Triple :
      {A B : Type 0} {Pre : Db → Type 0} {Mid : A → Db → Type 0} {Ok : B → Db → Type 0}
      {Bad : FlowError → Db → Type 0} (m : FlowExec W A) (f : A → FlowExec W B)
      → Triple Pre m Mid Bad
      → ((a : A) → Triple (Mid a) (f a) Ok Bad)
      → Triple Pre (m >>= f) Ok Bad
  >>=-Triple m f h k = record { holds = λ s p. proceed-Post f (m s) (h.holds s p) k }

  pub >>-Triple :
      {A B : Type 0} {Pre Mid : Db → Type 0} {Ok : B → Db → Type 0} {Bad : FlowError → Db → Type 0}
      (m : FlowExec W A) (n : FlowExec W B)
      → Triple Pre m (λ a. Mid) Bad
      → Triple Mid n Ok Bad
      → Triple Pre (m >> n) Ok Bad
  >>-Triple m n h k = >>=-Triple m (λ x. n) h (λ x. k)

  weaken-Post :
      {A : Type 0} {Ok Ok' : A → Db → Type 0} {Bad Bad' : FlowError → Db → Type 0}
      (r : Result FlowError A × Scheduler W)
      → ((a : A) (db : Db) → Ok a db → Ok' a db)
      → ((e : FlowError) (db : Db) → Bad e db → Bad' e db)
      → Post Ok Bad r
      → Post Ok' Bad' r
  weaken-Post (ok a, s) f g h = f a s.db h
  weaken-Post (err e, s) f g h = g e s.db h

  pub weaken :
      {A : Type 0} {Pre Pre' : Db → Type 0} {Ok Ok' : A → Db → Type 0}
      {Bad Bad' : FlowError → Db → Type 0} {m : FlowExec W A}
      → Triple Pre m Ok Bad
      → ((db : Db) → Pre' db → Pre db)
      → ((a : A) (db : Db) → Ok a db → Ok' a db)
      → ((e : FlowError) (db : Db) → Bad e db → Bad' e db)
      → Triple Pre' m Ok' Bad'
  weaken {m = m} h p f g = record { holds = λ s q. weaken-Post (m s) f g (h.holds s (p s.db q)) }

  plain-Post :
      {A : Type 0} (Q : Db → Type 0) (r : Result FlowError A × Scheduler W)
      → ((e : FlowError) → r.0 ≡ err e → IsPlain e)
      → Q r.1.db
      → Post (λ a. Q) Plainly r
  plain-Post Q (ok a, s) h q = q
  plain-Post Q (err e, s) h q = h e refl

  -- An operation without failed sessions that keeps what holds.
  pub keeping :
      {A : Type 0} {Pre Q : Db → Type 0} {m : FlowExec W A}
      → Plain m
      → ((s : Scheduler W) → Pre s.db → Q (m s).1.db)
      → Triple Pre m (λ a. Q) Plainly
  keeping {Q = Q} {m = m} h k = record { holds = λ s p. plain-Post Q (m s) (h.error s) (k s p) }

  pub plainly :
      {A : Type 0} {Pre : Db → Type 0} {m : FlowExec W A}
      → Plain m
      → Triple Pre m (λ a db. Unit {0}) Plainly
  plainly h = keeping h (λ s p. tt)

  frame-Post :
      {A : Type 0} (Ok : A → Db → Type 0) (Bad : FlowError → Db → Type 0) (Q : Db → Type 0)
      (r : Result FlowError A × Scheduler W)
      → Q r.1.db
      → Post Ok Bad r
      → Post (λ a db. Ok a db × Q db) (λ e db. Bad e db × Q db) r
  frame-Post Ok Bad Q (ok a, s) q h = (h, q)
  frame-Post Ok Bad Q (err e, s) q h = (h, q)

  -- What an operation keeps in any case may be added to what holds.
  pub frame :
      {A : Type 0} {Pre Q : Db → Type 0} {Ok : A → Db → Type 0} {Bad : FlowError → Db → Type 0}
      {m : FlowExec W A}
      → Triple Pre m Ok Bad
      → ((s : Scheduler W) → Q s.db → Q (m s).1.db)
      → Triple (λ db. Pre db × Q db) m (λ a db. Ok a db × Q db) (λ e db. Bad e db × Q db)
  frame {Q = Q} {Ok = Ok} {Bad = Bad} {m = m} h k = record {
    holds = λ s p. frame-Post Ok Bad Q (m s) (k s p.1) (h.holds s p.0);
  }

  -- An operation that does not move a task keeps its state.
  pub spares :
      {E A : Type 0} {P : TaskId → Type 0} {m : Scheduler W → Result E A × Scheduler W}
      (id : TaskId) (st : TaskState)
      → ¬ P id
      → Within P m
      → (s : Scheduler W) → Is id st s.db
      → Is id st (m s).1.db
  spares id st other h s i = Calls-spares id other (h.calls s) ∙ i

  -- A terminal state is kept by every operation.
  pub final :
      {E A : Type 0} {P : TaskId → Type 0} {m : Scheduler W → Result E A × Scheduler W}
      (id : TaskId) (st : TaskState)
      → is_terminal st ≡ true
      → Within P m
      → (s : Scheduler W) → Is id st s.db
      → Is id st (m s).1.db
  final id st t h s i = terminal_final id st t (Calls-Steps (h.calls s)) i

  pub of_db-db : {A : Type 0} (s : Scheduler W) (r : Result DbError A × Db) → (of_db s r).1.db ≡ r.1
  of_db-db s (ok a, db) = refl
  of_db-db s (err e, db) = refl

  pub of_db-ok :
      {A : Type 0} (s : Scheduler W) (r : Result DbError A × Db) (a : A)
      → (of_db s r).0 ≡ ok a
      → r.0 ≡ ok a
  of_db-ok s (ok x, db) a h = cc h
  of_db-ok s (err e, db) a h = cc h

  module _ (env : Env W) (id : TaskId) (to : TaskState) (reason : TransitionReason) where
    pub transition-Is :
        (s : Scheduler W)
        → (transition env id to reason s).0 ≡ ok tt
        → Is id to (transition env id to reason s).1.db
    unfolding transition now_ms
    transition-Is s h =
        let (ts, w) = env.os.now_ms s.os in
        let t : Scheduler W = record s { os = w } in
        ap (current id) (of_db-db t (Tasks.transition id to reason ts s.db))
        ∙ transition-current id to reason ts s.db
            (of_db-ok t (Tasks.transition id to reason ts s.db) tt h)

    pub transition-edge :
        (from : TaskState)
        → can_transition_to from to ≡ true
        → (s : Scheduler W) → Is id from s.db
        → Is id to (transition env id to reason s).1.db
    unfolding transition now_ms
    transition-edge from c s i =
        let (ts, w) = env.os.now_ms s.os in
        let t : Scheduler W = record s { os = w } in
        ap (current id) (of_db-db t (Tasks.transition id to reason ts s.db))
        ∙ edge-current id to reason ts s.db from i c
