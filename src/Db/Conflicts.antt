-- ===== src/Db/Conflicts.antt =====
-- File touches and conflicts (crates/divan-db/src/conflicts.rs). Times are not negative, so the
-- lower end of the window, `ts - window`, is compared as `ts ≤ t + window`.
pub mod Window
use ajan_orkestrasyonu.Prelude.{
  ℕ, ◌+◌, Bool, not, ◌&&◌, Option, String, ◌==◌, List, [], ◌∷◌, ◌++◌, map, filter, leb, ok, gets,
}
use ajan_orkestrasyonu.Prelude.Set.{set_of}
use ajan_orkestrasyonu.Core.Ids.{AgentId, TaskId}
use ajan_orkestrasyonu.Db.Store.{DbExec, FileTouch}

abbrev pub conflict_window_ms : ℕ
conflict_window_ms = 30000

unfoldable pub record_touch : String → AgentId → Option TaskId → ℕ → DbExec (Unit {0})
record_touch path agent task ts db = (
  ok tt,
  record db {
    file_touches =
        db.file_touches ++ (record { path = path; agent_id = agent; task_id = task; ts = ts } ∷ []);
  },
)

-- `path = ?1 AND agent_id <> ?2 AND ts >= ?3 AND ts <= ?4`
abbrev pub conflicts : String → AgentId → ℕ → ℕ → FileTouch → Bool
conflicts path agent ts window_ms t =
    t.path == path && (not (t.agent_id == agent) && (leb ts (t.ts + window_ms) && leb t.ts ts))

unfoldable pub conflicting_agents : String → AgentId → ℕ → ℕ → DbExec (List AgentId)
conflicting_agents path agent ts window_ms = gets (λ db.
    set_of (map (λ t. t.agent_id) (filter (conflicts path agent ts window_ms) db.file_touches)))
