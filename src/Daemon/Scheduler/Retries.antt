-- ===== src/Daemon/Scheduler/Retries.antt =====
-- The retries of a session, against a relation that says which attempts failed
-- (crates/divan-daemon/src/scheduler.rs).
use ajan_orkestrasyonu.Prelude.{
  ℕ, zero, suc, ◌+◌, ◌-◌, ◌≤◌, ◌≡◌, refl, ◌⊎◌, inl, inr, ◌∙◌, sym, ap, subst, Bool, Option, some,
  String, Result, ok, err, ◌>>◌, arith,
}
use ajan_orkestrasyonu.Core.Ids.{AgentId}
use ajan_orkestrasyonu.Core.Task.{Task}
use ajan_orkestrasyonu.Core.TraceEventKind
use ajan_orkestrasyonu.Core.Trace.{retried}
use ajan_orkestrasyonu.Daemon.Scheduler.{
  Env, Scheduler, SessionFail, retryable_fail, fatal_fail, timed_out, trace, now_ms, append,
}
use ajan_orkestrasyonu.Daemon.Scheduler.Session.{
  SessionOutcome, run_session_once, retry_with, attempt_from, run_session,
}

module _ {W : Type 0} (env : Env W) (task : Task) (agent : AgentId) (read_only : Bool)
    (worktree : Option String) where
  abbrev pub once : Scheduler W → Result SessionFail SessionOutcome × Scheduler W
  once s = run_session_once env task agent read_only worktree s

  -- The state with the event of the `n`-th retry.
  abbrev pub noted : ℕ → String → Scheduler W → Scheduler W
  noted n m s =
      (trace env {E = SessionFail} task (some agent) TraceEventKind.error (retried n m) s).1

  -- From `s`, so many attempts have failed with a retryable error, each noted in the trace.
  pub data Retried (s : Scheduler W) : ℕ → Scheduler W → Type 0 where
    fresh_session : Retried s 0 s
    again :
        {n : ℕ} {t u : Scheduler W} {m : String}
        → Retried s n t
        → once t ≡ (err (retryable_fail m), u)
        → Retried s (suc n) (noted (suc n) m u)

  abbrev pub IsRetryable : {A : Type 0} → Result SessionFail A → Type 0
  IsRetryable (err (retryable_fail m)) = Unit
  IsRetryable r = ⊥

  retry_step :
      (left n : ℕ) (m : String) (t u : Scheduler W)
      → once t ≡ (err (retryable_fail m), u)
      → attempt_from env task agent read_only worktree (suc left) n t
        ≡ attempt_from env task agent read_only worktree left (suc n) (noted (suc n) m u)
  unfolding attempt_from trace now_ms append
  retry_step left n m t u h =
      ap
        (retry_with (λ x.
          trace env task (some agent) TraceEventKind.error (retried (suc n) x)
          >> attempt_from env task agent read_only worktree left (suc n)))
        h

  Retried-attempt_from :
      (s : Scheduler W) {t : Scheduler W} {n : ℕ} (left : ℕ)
      → Retried s n t
      → attempt_from env task agent read_only worktree (n + left) 0 s
        ≡ attempt_from env task agent read_only worktree left n t
  Retried-attempt_from s left fresh_session =
      let e : 0 + left ≡ left = omega arith in
      ap (λ k. attempt_from env task agent read_only worktree k 0 s) e
  Retried-attempt_from s left (again {n} {t} {u} {m} r h) =
      let e : suc n + left ≡ n + suc left = omega arith in
      ap (λ k. attempt_from env task agent read_only worktree k 0 s) e
      ∙ Retried-attempt_from s (suc left) r
      ∙ retry_step left n m t u h

  attempt_from-ok :
      (left n : ℕ) (t u : Scheduler W) (o : SessionOutcome)
      → once t ≡ (ok o, u)
      → attempt_from env task agent read_only worktree left n t ≡ (ok o, u)
  unfolding attempt_from
  attempt_from-ok zero n t u o h = h
  attempt_from-ok (suc left) n t u o h = ap (retry_with _) h

  -- If no more attempts than the budget fail with a retryable error and the next one succeeds, the
  -- session succeeds, with the outcome and the state of that attempt.
  pub run_session-succeeds :
      (s t u : Scheduler W) (n : ℕ) (o : SessionOutcome)
      → Retried s n t
      → n ≤ s.max_retries
      → once t ≡ (ok o, u)
      → run_session env task agent read_only worktree s ≡ (ok o, u)
  unfolding run_session
  run_session-succeeds s t u n o r b h =
      let left = s.max_retries - n in
      let e : s.max_retries ≡ n + left = omega arith in
      ap (λ k. attempt_from env task agent read_only worktree k 0 s) e
      ∙ Retried-attempt_from s left r
      ∙ attempt_from-ok left n t u o h

  -- The attempt that decides: its result stands, for it is not retryable or the budget is spent.
  pub record Decided (s : Scheduler W) (max : ℕ)
      (r : Result SessionFail SessionOutcome × Scheduler W) : Type 0 where
    pub retries : ℕ
    pub at : Scheduler W
    pub before : Retried s retries at
    pub bounded : retries ≤ max
    pub result : r ≡ once at
    pub last : (IsRetryable (once at).0 → ⊥) ⊎ (retries ≡ max)

  retry_with-stands :
      (f : String → Scheduler W → Result SessionFail SessionOutcome × Scheduler W)
      (a : Result SessionFail SessionOutcome × Scheduler W)
      → (IsRetryable a.0 → ⊥)
      → retry_with f a ≡ a
  retry_with-stands f (err (retryable_fail m), u) h = absurd (h tt)
  retry_with-stands f (err (fatal_fail m), u) h = refl
  retry_with-stands f (err timed_out, u) h = refl
  retry_with-stands f (ok o, u) h = refl

  stands :
      (s t : Scheduler W) (left n : ℕ)
      → Retried s n t
      → (IsRetryable (once t).0 → ⊥)
      → Decided s (n + suc left) (attempt_from env task agent read_only worktree (suc left) n t)
  unfolding attempt_from
  stands s t left n r k = record {
    retries = n;
    at = t;
    before = r;
    bounded = omega arith;
    result = retry_with-stands _ (once t) k;
    last = inl k;
  }

  attempt-cases :
      (s t : Scheduler W) (left n : ℕ)
      → Retried s n t
      → ((m : String) (u : Scheduler W)
          → once t ≡ (err (retryable_fail m), u)
          → Decided s
              (n + suc left)
              (attempt_from env task agent read_only worktree (suc left) n t))
      → (a : Result SessionFail SessionOutcome × Scheduler W) → once t ≡ a
      → Decided s (n + suc left) (attempt_from env task agent read_only worktree (suc left) n t)
  attempt-cases s t left n r later (err (retryable_fail m), u) h = later m u h
  attempt-cases s t left n r later (err (fatal_fail m), u) h =
      stands s t left n r (λ i. subst (λ a. IsRetryable a.0) h i)
  attempt-cases s t left n r later (err timed_out, u) h =
      stands s t left n r (λ i. subst (λ a. IsRetryable a.0) h i)
  attempt-cases s t left n r later (ok o, u) h =
      stands s t left n r (λ i. subst (λ a. IsRetryable a.0) h i)

  attempt_from-Decided :
      (s t : Scheduler W) (left n : ℕ)
      → Retried s n t
      → Decided s (n + left) (attempt_from env task agent read_only worktree left n t)
  unfolding attempt_from
  attempt_from-Decided s t zero n r = record {
    retries = n;
    at = t;
    before = r;
    bounded = omega arith;
    result = refl;
    last = inr (omega arith);
  }
  attempt_from-Decided s t (suc left) n r =
      let e : suc n + left ≡ n + suc left = omega arith in
      attempt-cases s t left n r
        (λ m u h.
          subst (λ k. Decided s k (attempt_from env task agent read_only worktree (suc left) n t)) e
            (subst (Decided s (suc n + left)) (sym (retry_step left n m t u h))
              (attempt_from-Decided s (noted (suc n) m u) left (suc n) (again r h))))
        (once t) refl

  -- Every session ends: after at most `max_retries` attempts that failed with a retryable error,
  -- each noted in the trace, one attempt decides, and its result is the result of the session.
  pub run_session-Decided :
      (s : Scheduler W) → Decided s s.max_retries (run_session env task agent read_only worktree s)
  unfolding run_session
  run_session-Decided s =
      let e : 0 + s.max_retries ≡ s.max_retries = omega arith in
      subst (λ k. Decided s k (attempt_from env task agent read_only worktree s.max_retries 0 s)) e
        (attempt_from-Decided s s s.max_retries 0 fresh_session)
