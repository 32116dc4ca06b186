-- ===== src/Examples/Data.antt =====
-- A small database: three agents, four tasks, two messages, two subscriptions and one file touch.
use ajan_orkestrasyonu.Prelude.{ℕ, true, false, none, some, String, List, [], ◌∷◌}
use ajan_orkestrasyonu.Core.Ids.{AgentId, MessageId, TaskId}
use ajan_orkestrasyonu.Core.AgentTool
use ajan_orkestrasyonu.Core.AgentStatus.{AgentStatus}
use ajan_orkestrasyonu.Core.Capability.{Capability}
use ajan_orkestrasyonu.Core.Agent.{AgentCard}
use ajan_orkestrasyonu.Core.MessageKind
use ajan_orkestrasyonu.Core.Message.{Message}
use ajan_orkestrasyonu.Core.Subscription.{Subscription}
use ajan_orkestrasyonu.Core.TaskKind
use ajan_orkestrasyonu.Core.TaskState
use ajan_orkestrasyonu.Core.Task.{Task}
use ajan_orkestrasyonu.Db.Store.{Db, TaskRow, FileTouch}
use ajan_orkestrasyonu.Daemon.Bus.{MessageBus, SendRequest}
use ajan_orkestrasyonu.Daemon.Paths.{FilePath, Component, normal}

abbrev pub alice : AgentId
alice = "alice"

abbrev pub bob : AgentId
bob = "bob"

abbrev pub carol : AgentId
carol = "carol"

abbrev pub agent : AgentId → List Capability → AgentStatus → AgentCard
agent id granted status = record {
  id = id;
  tool = AgentTool.claude;
  display_name = none;
  capabilities = granted;
  cost_class = 3;
  skills = [];
  delivery = [];
  multi_turn = true;
  status = status;
  session_id = none;
  registered_at = 0;
}

abbrev pub all_granted : List Capability
all_granted =
    Capability.read ∷ Capability.write ∷ Capability.broadcast ∷ Capability.kill ∷ Capability.spawn
    ∷ []

abbrev pub row : TaskId → String → ℕ → TaskRow
row id state at = record {
  id = id;
  parent_id = none;
  kind = "review";
  title = "a task";
  spec_ref = none;
  state = state;
  assignee = none;
  worktree = none;
  max_runtime_secs = none;
  trace_id = "tr";
  created_at = at;
  updated_at = at;
}

abbrev pub message : MessageId → Message
message id = record {
  id = id;
  origin_message_id = none;
  from_agent = "alice";
  to_agent = some "bob";
  kind = MessageKind.alert;
  summary = "look";
  payload = none;
  artifact_ref = none;
  task_id = none;
  trace_id = none;
  created_at = 1;
  delivered_at = none;
}

abbrev pub news : Message
news = record (message "m9") { to_agent = none }

abbrev pub subscription : AgentId → Subscription
subscription a = record { agent_id = a; event_kind = "*"; filter = none }

abbrev pub touch : FileTouch
touch = record { path = "a.rs"; agent_id = "bob"; task_id = none; ts = 1000 }

abbrev pub sample : Db
sample = record {
  agents =
      agent "alice" all_granted AgentStatus.idle
      ∷ agent "bob" [] AgentStatus.busy
      ∷ agent "carol" [] AgentStatus.offline
      ∷ [];
  tasks = row "t1" "open" 5 ∷ row "t2" "done" 3 ∷ row "t3" "working" 4 ∷ row "t4" "open" 2 ∷ [];
  task_deps = [];
  messages = message "m1" ∷ message "m2" ∷ [];
  subscriptions = subscription "bob" ∷ subscription "alice" ∷ [];
  trace_events = [];
  file_touches = touch ∷ [];
  artifacts = [];
}

abbrev pub sample_bus : MessageBus
sample_bus = record { db = sample; seq = 7 }

abbrev pub request : SendRequest
request = record {
  from = "alice";
  to = none;
  kind = MessageKind.alert;
  summary = "look";
  payload = some "{}";
  artifact_ref = none;
  task_id = none;
  trace_id = none;
}

abbrev pub new_task : Task
new_task = record {
  id = "t9";
  parent_id = some "t1";
  kind = TaskKind.test;
  title = "another";
  spec_ref = none;
  state = TaskState.«open»;
  assignee = none;
  worktree = none;
  max_runtime_secs = none;
  trace_id = "tr9";
  created_at = 9;
  updated_at = 9;
}

abbrev pub file : String → List Component → FilePath
file text components = record { text = text; absolute = false; components = components }

abbrev pub home : FilePath
home = record { text = "/home"; absolute = true; components = normal "home" ∷ [] }

abbrev pub worktree : FilePath
worktree = record {
  text = "/home/w";
  absolute = true;
  components = normal "home" ∷ normal "w" ∷ [];
}

abbrev pub clock : ℕ → ℕ
clock k = k
