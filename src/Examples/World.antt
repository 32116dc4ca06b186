-- ===== src/Examples/World.antt =====
-- A small world for the scheduler: a clock and whether the branch of the run is there, a git that
-- knows it, and agents whose sessions end at once.
use ajan_orkestrasyonu.Prelude.{
  ℕ, suc, Bool, true, false, none, some, String, ◌==◌, List, [], ◌∷◌, any, eqb, Result, ok,
  if◌then◌else◌,
}
use ajan_orkestrasyonu.Prelude.Files.{Os, Output}
use ajan_orkestrasyonu.Core.Ids.{AgentId}
use ajan_orkestrasyonu.Core.AgentTool
use ajan_orkestrasyonu.Core.AgentStatus.{AgentStatus}
use ajan_orkestrasyonu.Core.Event.{NormalizedEvent, Usage, session_end, tool_call, error, retryable}
use ajan_orkestrasyonu.Core.TaskKind.{TaskKind}
use ajan_orkestrasyonu.Core.Task.{Task}
use ajan_orkestrasyonu.Core.TaskState
use ajan_orkestrasyonu.Db.Store.{fresh}
use ajan_orkestrasyonu.Adapters.{AgentAdapter, SessionHandle}
use ajan_orkestrasyonu.Daemon.Config.{runtime_defaults}
use ajan_orkestrasyonu.Daemon.Scheduler.{Env, Scheduler}
use ajan_orkestrasyonu.Daemon.Worktrees.{Worktree}
use ajan_orkestrasyonu.Examples.Data.{agent, all_granted}

pub record World : Type 0 where
  pub clock : ℕ
  pub has_branch : Bool

abbrev output : Bool → Output
output success = record { success = success; status = "exit status"; stdout = ""; stderr = "" }

abbrev has_arg : String → List String → Bool
has_arg a args = any (λ x. x == a) args

-- `rev-parse --verify` finds the branch that `worktree add` made; all else succeeds.
abbrev run_git : List String → World → Result String Output × World
run_git args w =
    if has_arg "--verify" args
    then (ok (output w.has_branch), w)
    else if has_arg "add" args
    then (ok (output true), record w { has_branch = true })
    else (ok (output true), w)

abbrev pub os : Os World
os = record {
  git = λ repo. run_git;
  exists = λ path w. false;
  create_dir_all = λ path w. (ok tt, w);
  write = λ path content w. (ok tt, w);
  read = λ path w. (ok "do it", w);
  now_ms = λ w. (w.clock, record w { clock = suc w.clock });
}

abbrev pub env : Env World
env = record {
  os = os;
  digest = λ content. "abcdef";
  path_json = λ path. path;
  report_json = λ r. "{}";
}

abbrev pub usage : Usage
usage = record { input_tokens = 1; output_tokens = 2; cache_read_tokens = 0 }

abbrev pub finished : Bool → NormalizedEvent
finished success = session_end success usage (some "fine")

abbrev handle : SessionHandle
handle = record {
  tool = AgentTool.claude;
  pid = some 7;
  session_id = none;
  task_id = "t";
  started_at = 0;
}

-- An agent whose sessions deliver these events, by the clock.
abbrev pub adapter : AgentId → (ℕ → List (ℕ × NormalizedEvent)) → AgentAdapter World
adapter id events = record {
  card = agent id all_granted AgentStatus.idle;
  spawn = λ ctx w. (ok handle, w);
  observe = λ h w. (ok (record { events = events w.clock; closes_at = none }), w);
  kill = λ h w. w;
}

abbrev pub scheduler :
    (ℕ → List (ℕ × NormalizedEvent)) → (ℕ → List (ℕ × NormalizedEvent)) → Scheduler World
scheduler writes reviews = record {
  db = record fresh {
    agents =
        agent "writer" all_granted AgentStatus.idle
        ∷ agent "reviewer" all_granted AgentStatus.idle
        ∷ [];
  };
  os = record { clock = 5; has_branch = false };
  artifact_root = "artifacts";
  worktree_root = "trees";
  adapters = ("writer", adapter "writer" writes) ∷ ("reviewer", adapter "reviewer" reviews) ∷ [];
  runtime = runtime_defaults;
  runs = [];
  bus = none;
  router = none;
  max_retries = 2;
}

abbrev pub succeeds : ℕ → List (ℕ × NormalizedEvent)
succeeds t = (3, tool_call "edit" none) ∷ (9, finished true) ∷ []

abbrev pub fails : ℕ → List (ℕ × NormalizedEvent)
fails t = (9, finished false) ∷ []

-- The first session meets a rate limit.
abbrev pub recovers : ℕ → List (ℕ × NormalizedEvent)
recovers t = if eqb t 6 then (1, error retryable "rate limit") ∷ [] else succeeds t

abbrev pub task : Task
task = record {
  id = "t";
  parent_id = none;
  kind = TaskKind.implement;
  title = "a task";
  spec_ref = none;
  state = TaskState.working;
  assignee = none;
  worktree = none;
  max_runtime_secs = none;
  trace_id = "tr";
  created_at = 0;
  updated_at = 0;
}

abbrev pub tree : Worktree
tree = record { task_id = "t"; branch = "divan/t-x"; path = "trees/t" }
