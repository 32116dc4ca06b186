-- ===== src/Daemon/Scheduler/Session.antt =====
-- Sessions: the prompt, one attempt with its watchdog, and the retries
-- (crates/divan-daemon/src/scheduler.rs).
use Prim.Native.String.{◌++◌ as concat}
use ajan_orkestrasyonu.Prelude.{
  ℕ, zero, suc, ◌*◌, Bool, true, false, Option, none, some, String, List, [], ◌∷◌, leb, Result, ok,
  err, pure, raise, ◌>>=◌, ◌>>◌, if◌then◌else◌,
}
use ajan_orkestrasyonu.Core.Ids.{AgentId, ArtifactRef}
use ajan_orkestrasyonu.Core.Task.{Task}
use ajan_orkestrasyonu.Core.Event.{
  Usage, NormalizedEvent, debug, tool_call, file_edit, turn_end, session_idle, session_end, error,
}
use ajan_orkestrasyonu.Core.TraceEventKind
use ajan_orkestrasyonu.Core.Trace.{tool, edited, session, spawned, retried}
use ajan_orkestrasyonu.Db.Artifacts.{get}
use ajan_orkestrasyonu.Adapters.{AgentAdapter, AdapterError, SessionHandle, SpawnCtx}
use ajan_orkestrasyonu.Daemon.Config.{runtime_secs}
use ajan_orkestrasyonu.Daemon.Bus
use ajan_orkestrasyonu.Daemon.Bus.{MessageBus, BusError}
use ajan_orkestrasyonu.Daemon.Scheduler.{
  Env, Scheduler, SchedExec, SessionFail, retryable_fail, fatal_fail, timed_out, FlowError,
  classify, now_ms, trace, on_store, lookup,
}

pub record SessionOutcome : Type 0 where
  pub usage : Usage
  pub final_text : Option String

abbrev pub review_prompt : String
review_prompt =
    "You are reviewing an implementation in the current worktree (read-only).\nReview the changes against the specification below and reply with your review as your final message — findings, risks, and a verdict.\n\n## Specification\n"

abbrev pub implement_prompt : String
implement_prompt =
    "Implement the following specification by editing files in the current worktree. When done, summarize what you changed as your final message.\n\n## Specification\n"

abbrev pub prompt_of : Bool → String → String
prompt_of true spec = concat review_prompt spec
prompt_of false spec = concat implement_prompt spec

abbrev pub max_turns : ℕ
max_turns = 8

abbrev pub artifact_refs : Option ArtifactRef → List String
artifact_refs none = []
artifact_refs (some r) = r ∷ []

abbrev pub timely : Option ℕ → ℕ → Bool
timely none budget = false
timely (some at) budget = leb at budget

abbrev pub SessExec : Type 0 → Type 0 → Type 0
SessExec W A = SchedExec W SessionFail A

module _ {W : Type 0} where
  -- `self.adapter(agent_id)`, its error as text.
  abbrev pub find_adapter : AgentId → Option (AgentAdapter W) → SessExec W (AgentAdapter W)
  find_adapter agent none = raise (fatal_fail (concat "no adapter registered for agent " agent))
  find_adapter agent (some a) = pure a

  abbrev pub of_adapter :
      {A : Type 0} → Scheduler W → Result AdapterError A × W → Result SessionFail A × Scheduler W
  of_adapter s (ok a, w) = (ok a, record s { os = w })
  of_adapter s (err e, w) = (err (classify e.class e.message), record s { os = w })

  abbrev pub on_adapter : {A : Type 0} → (W → Result AdapterError A × W) → SessExec W A
  on_adapter m s = of_adapter s (m s.os)

  -- The killed session's result is dropped.
  abbrev pub watched :
      {A : Type 0}
      → AgentAdapter W
      → SessionHandle
      → Result SessionFail A × Scheduler W
      → Result SessionFail A × Scheduler W
  watched a handle (err timed_out, s) = (err timed_out, record s { os = a.kill handle s.os })
  watched a handle r = r

  abbrev pub of_bus :
      {A E : Type 0}
      → Scheduler W
      → Result BusError A × MessageBus
      → Result E (Unit {0}) × Scheduler W
  of_bus s (r, bus) = (ok tt, record s { db = bus.db; bus = some bus.seq })

  -- What follows an attempt: `again` if its error is retryable.
  abbrev pub retry_with :
      {A : Type 0}
      → (String → SessExec W A)
      → Result SessionFail A × Scheduler W
      → Result SessionFail A × Scheduler W
  retry_with again (err (retryable_fail m), s) = again m s
  retry_with again r = r

  module _ (env : Env W) where
    abbrev pub text_or : Task → Result FlowError String × Scheduler W → Scheduler W × String
    text_or task (ok text, s) = (s, text)
    text_or task (err e, s) = (s, task.title)

    abbrev pub spec_from : Task → Option ArtifactRef → Scheduler W → Scheduler W × String
    spec_from task none s = (s, task.title)
    spec_from task (some r) s = text_or task (on_store (get env.os env.digest s.artifact_root r) s)

    -- The text of the artifact, or else the title.
    abbrev pub spec_text : Task → Scheduler W → Scheduler W × String
    spec_text task s = spec_from task task.spec_ref s

    unfoldable pub prompt_for : Task → Bool → SessExec W String
    prompt_for task read_only s =
        let t : Scheduler W × String = spec_text task s in (ok (prompt_of read_only t.1), t.0)

    -- The touch of an edited file, when a bus is attached; its result is dropped.
    abbrev pub touch : Task → AgentId → String → Option ℕ → SessExec W (Unit {0})
    touch task agent path none s = (ok tt, s)
    touch task agent path (some seq) s =
        (do
          ts ← now_ms env
          (λ t. of_bus t (
              Bus.record_touch env.path_json path agent (some task.id) ts
                (record { db = t.db; seq = seq }))))
          s

    abbrev pub record_edit : Task → AgentId → String → SessExec W (Unit {0})
    record_edit task agent path s = touch task agent path s.bus s

    -- An event of the stream; `rest` is what follows if the session goes on.
    abbrev pub hear :
        Task → AgentId → NormalizedEvent → SessExec W SessionOutcome → SessExec W SessionOutcome
    hear task agent (tool_call name input) rest =
        trace env task (some agent) TraceEventKind.tool_call (tool name) >> rest
    hear task agent (file_edit path kind) rest = do
      trace env task (some agent) TraceEventKind.file_edit (edited path (debug kind))
      record_edit task agent path
      rest
    hear task agent turn_end rest =
        trace env task (some agent) TraceEventKind.session_event (session "turn_end") >> rest
    hear task agent (session_end false usage final_text) rest =
        raise (fatal_fail "session reported failure (ok=false)")
    hear task agent (session_end true usage final_text) rest =
        pure (record { usage = usage; final_text = final_text })
    hear task agent (error class message) rest = raise (classify class message)
    hear task agent session_idle rest = rest

    -- `timeout(budget, drain)`: what comes after the budget, in milliseconds, is not heard.
    unfoldable pub drain :
        Task → AgentId → ℕ → Option ℕ → List (ℕ × NormalizedEvent) → SessExec W SessionOutcome
    drain task agent budget closes_at [] =
        if timely closes_at budget
        then raise (fatal_fail "session ended without result")
        else raise timed_out
    drain task agent budget closes_at ((at, ev) ∷ events) =
        let rest = drain task agent budget closes_at events in
        if leb at budget then hear task agent ev rest else raise timed_out

    abbrev pub spawn_ctx : Task → AgentId → Bool → Option String → String → SpawnCtx
    spawn_ctx task agent read_only worktree prompt = record {
      worktree = worktree;
      trace_id = task.trace_id;
      span_id = concat task.id (concat ":" agent);
      artifact_refs = artifact_refs task.spec_ref;
      read_only = read_only;
      prompt = prompt;
      max_turns = some max_turns;
    }

    unfoldable pub run_session_once :
        Task → AgentId → Bool → Option String → SessExec W SessionOutcome
    run_session_once task agent read_only worktree = do
      a ← (λ s. find_adapter agent (lookup agent s.adapters) s)
      prompt ← prompt_for task read_only
      handle ← on_adapter (a.spawn (spawn_ctx task agent read_only worktree prompt))
      trace env task (some agent) TraceEventKind.spawn (spawned handle.pid read_only)
      stream ← on_adapter (a.observe handle)
      (λ s. watched a handle (
          drain task agent (runtime_secs s.runtime task.kind task.max_runtime_secs * 1000)
            stream.closes_at stream.events s))

    -- `left` is `max_retries - attempt`.
    unfoldable pub attempt_from :
        Task → AgentId → Bool → Option String → (left attempt : ℕ) → SessExec W SessionOutcome
    attempt_from task agent read_only worktree zero attempt s =
        run_session_once task agent read_only worktree s
    attempt_from task agent read_only worktree (suc left) attempt s =
        retry_with
          (λ m.
            trace env task (some agent) TraceEventKind.error (retried (suc attempt) m)
            >> attempt_from task agent read_only worktree left (suc attempt))
          (run_session_once task agent read_only worktree s)

    unfoldable pub run_session : Task → AgentId → Bool → Option String → SessExec W SessionOutcome
    run_session task agent read_only worktree s =
        attempt_from task agent read_only worktree s.max_retries 0 s
