-- ===== src/Daemon/Mcp/Race.antt =====
-- Two claims whose writes interleave (crates/divan-daemon/src/rpc.rs).
use ajan_orkestrasyonu.Prelude.{
  List, [], ◌∷◌, ◌>>◌, pure, ℕ, ◌≡◌, refl, true, Option, none, some, String, map, find, arith,
  find-none_iff, update_if, Result, ok, err,
}
use ajan_orkestrasyonu.Prelude.Sort.{sort}
use ajan_orkestrasyonu.Core.Ids.{AgentId, TaskId}
use ajan_orkestrasyonu.Core.TaskState
use ajan_orkestrasyonu.Core.TaskState.{TaskState, can_transition_to}
use ajan_orkestrasyonu.Core.Task.{Task, other}
use ajan_orkestrasyonu.Core.Error.{illegal_transition}
use ajan_orkestrasyonu.Db.Store.{Db, TaskRow, domain, insert_trace}
use ajan_orkestrasyonu.Db.Tasks.{
  has_id, row_to_task, row_le, agent_known, get_task, list_tasks, assign, set_assignee, transition,
  set_state, write_state,
}
use ajan_orkestrasyonu.Db.Tasks.Rows.{find-update_self}
use ajan_orkestrasyonu.Db.Tasks.Transition.{transition_legal, transition_illegal, edge_event}
use ajan_orkestrasyonu.Daemon.Policy.{check, required_cap}
use ajan_orkestrasyonu.Daemon.Mcp.{
  McpError, McpExec, on_store, store_error, parse_kind, is_claimable, claim_task,
}
use ajan_orkestrasyonu.Daemon.Mcp.Claim.{IsClaimedBy}

-- The two writes of a claim that has chosen its task, each under its own acquisition of the lock.
abbrev pub claim_steps : TaskId → AgentId → (ℕ → ℕ) → List (McpExec (Unit {0}))
claim_steps id agent now =
    on_store (assign id agent none (now 1))
    ∷ on_store (transition id TaskState.claimed (other "claimed via MCP") (now 2))
    ∷ []

-- The steps run one after the other, then the answer.
abbrev pub run_alone : TaskId → List (McpExec (Unit {0})) → McpExec (Option TaskId)
run_alone id [] = pure (some id)
run_alone id (m ∷ steps) = m >> run_alone id steps

-- A handler: what it has left to do, or the error that it answered.
abbrev pub Handler : Type 0
Handler = Result McpError (List (McpExec (Unit {0})))

abbrev stepped : List (McpExec (Unit {0})) → Result McpError (Unit {0}) × Db → Handler × Db
stepped steps (ok u, db) = (ok steps, db)
stepped steps (err e, db) = (err e, db)

abbrev advance : Handler → Db → Handler × Db
advance (ok []) db = (ok [], db)
advance (ok (m ∷ steps)) db = stepped steps (m db)
advance (err e) db = (err e, db)

-- Two handlers on one database.
pub record Race : Type 0 where
  pub left : Handler
  pub right : Handler
  pub db : Db

pub data Turn : Type 0 where
  go_left go_right : Turn

abbrev take_turn : Turn → Race → Race
take_turn go_left r = record {
  left = (advance r.left r.db).0;
  right = r.right;
  db = (advance r.left r.db).1;
}
take_turn go_right r = record {
  left = r.left;
  right = (advance r.right r.db).0;
  db = (advance r.right r.db).1;
}

abbrev pub take_turns : List Turn → Race → Race
take_turns [] r = r
take_turns (t ∷ turns) r = take_turns turns (take_turn t r)

given_row : (id : TaskId) (agent : AgentId) (ts : ℕ) (db : Db) → Db
given_row id agent ts db = record db {
  tasks = update_if (has_id id) (set_assignee agent none ts) db.tasks;
}

assign_found :
    (id : TaskId) (agent : AgentId) (ts : ℕ) (db : Db) (row : TaskRow)
    → find (has_id id) db.tasks ≡ some row
    → agent_known agent db ≡ true
    → assign id agent none ts db ≡ (ok tt, given_row id agent ts db)
unfolding assign given_row
assign_found id agent ts db row found known = ground (arith, (find-none_iff (has_id id) db.tasks).1)

given_found :
    (id : TaskId) (agent : AgentId) (ts : ℕ) (db : Db) (row : TaskRow)
    → find (has_id id) db.tasks ≡ some row
    → find (has_id id) (given_row id agent ts db).tasks ≡ some (set_assignee agent none ts row)
unfolding given_row
given_found id agent ts db row found =
    find-update_self (set_assignee agent none ts) (λ r. refl) id db.tasks row found

-- A claim that finds the task among those that it lists goes on with the two writes.
claim_task-steps :
    (agent : AgentId) (kind : Option String) (now : ℕ → ℕ) (db : Db) (tasks : List Task) (t : Task)
    → (list_tasks db).0 ≡ ok tasks
    → find (is_claimable (parse_kind kind)) tasks ≡ some t
    → claim_task (some agent) kind now db ≡ run_alone t.id (claim_steps t.id agent now) db
unfolding claim_task check required_cap list_tasks
claim_task-steps agent kind now db tasks t listed chosen =
    let e : map row_to_task (sort row_le db.tasks) ≡ tasks = cc listed in rw (e, chosen) refl

race :
    (id : TaskId) (first second : AgentId) (now later : ℕ → ℕ) (db : Db) (row : TaskRow)
    → find (has_id id) db.tasks ≡ some row
    → TaskState.of_str row.state ≡ some TaskState.«open»
    → agent_known first db ≡ true
    → agent_known second db ≡ true
    → let r = take_turns (go_left ∷ go_right ∷ go_left ∷ go_right ∷ []) (record {
      left = ok (claim_steps id first now);
      right = ok (claim_steps id second later);
      db = db;
    }) in
      (r.left ≡ ok [])
      × (r.right
          ≡ err (store_error (domain (illegal_transition TaskState.claimed TaskState.claimed))))
      × IsClaimedBy second id r.db
unfolding get_task can_transition_to given_row
race id first second now later db row found read known1 known2 =
    let reason = other "claimed via MCP" in
    let d1 = given_row id first (now 1) db in
    let d2 = given_row id second (later 1) d1 in
    let f1 = given_found id first (now 1) db row found in
    let row1 = set_assignee first none (now 1) row in
    let f2 = given_found id second (later 1) d1 row1 f1 in
    let row2 = set_assignee second none (later 1) row1 in
    let a1 = assign_found id first (now 1) db row found known1 in
    let a2 = assign_found id second (later 1) d1 row1 f1 known2 in
    let d3 =
      insert_trace (edge_event row2 id TaskState.«open» TaskState.claimed reason (now 2))
        (write_state id TaskState.claimed (now 2) d2) in
    let moved =
      transition_legal id TaskState.claimed reason (now 2) d2 row2 TaskState.«open» f2 read refl in
    let row3 = set_state TaskState.claimed (now 2) row2 in
    let f3 =
      find-update_self (set_state TaskState.claimed (now 2)) (λ r. refl) id d2.tasks row2 f2 in
    let refused =
      transition_illegal id TaskState.claimed reason (later 2) d3 row3 TaskState.claimed f3 refl
        refl in
    rw (a1, a2, moved, refused) (refl, refl, (row_to_task row3, rw f3 refl, refl, refl))

-- Two claims, by agents that are registered, that list the same tasks and choose the same open one,
-- whose row is the one stored under its id: each goes on with two writes. When the handlers take turns, starting with `first`, the one of
-- `first` finishes, so `first` is told that it claimed the task, the one of `second` answers that
-- the transition is illegal, and the task is stored as claimed by `second`.
pub claims_interleaved :
    (first second : AgentId) (kind1 kind2 : Option String) (now later : ℕ → ℕ) (db : Db)
    (tasks : List Task) (row : TaskRow)
    → (list_tasks db).0 ≡ ok tasks
    → find (is_claimable (parse_kind kind1)) tasks ≡ some (row_to_task row)
    → find (is_claimable (parse_kind kind2)) tasks ≡ some (row_to_task row)
    → find (has_id row.id) db.tasks ≡ some row
    → TaskState.of_str row.state ≡ some TaskState.«open»
    → agent_known first db ≡ true
    → agent_known second db ≡ true
    → let r = take_turns (go_left ∷ go_right ∷ go_left ∷ go_right ∷ []) (record {
      left = ok (claim_steps row.id first now);
      right = ok (claim_steps row.id second later);
      db = db;
    }) in
      (claim_task (some first) kind1 now db ≡ run_alone row.id (claim_steps row.id first now) db)
      × (claim_task (some second) kind2 later db
          ≡ run_alone row.id (claim_steps row.id second later) db)
      × (r.left ≡ ok [])
      × (r.right
          ≡ err (store_error (domain (illegal_transition TaskState.claimed TaskState.claimed))))
      × IsClaimedBy second row.id r.db
claims_interleaved first second kind1 kind2 now later db tasks row listed c1 c2 found read known1
      known2 =
    let (l, r, s) = race row.id first second now later db row found read known1 known2 in
    (
      claim_task-steps first kind1 now db tasks (row_to_task row) listed c1,
      claim_task-steps second kind2 later db tasks (row_to_task row) listed c2,
      l,
      r,
      s,
    )
