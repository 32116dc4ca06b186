-- ===== src/Core/TraceEventKind.antt =====
-- Trace event kinds (crates/divan-core/src/trace.rs).
use ajan_orkestrasyonu.Prelude.{◌≡◌, refl, Option, none, some, String, ◌==◌, if◌then◌else◌}

pub data TraceEventKind : Type 0 where
  task_created task_transition router_decision agent_registered spawn session_event tool_call
        file_edit artifact_published msg_sent msg_delivered policy_denied worktree_created
        worktree_diffed worktree_merge_requested worktree_merged error :
      TraceEventKind

unfoldable pub discrete : Discrete TraceEventKind
discrete = hlevel

abbrev pub as_str : TraceEventKind → String
as_str task_created = "task_created"
as_str task_transition = "task_transition"
as_str router_decision = "router_decision"
as_str agent_registered = "agent_registered"
as_str spawn = "spawn"
as_str session_event = "session_event"
as_str tool_call = "tool_call"
as_str file_edit = "file_edit"
as_str artifact_published = "artifact_published"
as_str msg_sent = "msg_sent"
as_str msg_delivered = "msg_delivered"
as_str policy_denied = "policy_denied"
as_str worktree_created = "worktree_created"
as_str worktree_diffed = "worktree_diffed"
as_str worktree_merge_requested = "worktree_merge_requested"
as_str worktree_merged = "worktree_merged"
as_str error = "error"

-- serde reads the same words back.
abbrev pub of_str : String → Option TraceEventKind
of_str s =
    if s == "task_created"
    then some task_created
    else if s == "task_transition"
    then some task_transition
    else if s == "router_decision"
    then some router_decision
    else if s == "agent_registered"
    then some agent_registered
    else if s == "spawn"
    then some spawn
    else if s == "session_event"
    then some session_event
    else if s == "tool_call"
    then some tool_call
    else if s == "file_edit"
    then some file_edit
    else if s == "artifact_published"
    then some artifact_published
    else if s == "msg_sent"
    then some msg_sent
    else if s == "msg_delivered"
    then some msg_delivered
    else if s == "policy_denied"
    then some policy_denied
    else if s == "worktree_created"
    then some worktree_created
    else if s == "worktree_diffed"
    then some worktree_diffed
    else if s == "worktree_merge_requested"
    then some worktree_merge_requested
    else if s == "worktree_merged"
    then some worktree_merged
    else if s == "error"
    then some error
    else none

pub of_str-as_str : (x : TraceEventKind) → of_str (as_str x) ≡ some x
of_str-as_str task_created = refl
of_str-as_str _ = refl
