-- ===== src/Db/Conflicts/Window.antt =====
-- When two agents conflict (crates/divan-db/src/conflicts.rs).
use ajan_orkestrasyonu.Prelude.{
  ℕ, ◌+◌, ◌≤◌, ◌≡◌, refl, sym, ◌≢◌, ◌↔◌, true, String, eq_iff, List, map, filter, arith, ok, IsIn,
  IsIn-filter, IsIn-map, map-IsIn, subst, text_ne, text_ne_false,
}
use ajan_orkestrasyonu.Prelude.Set.{set_of, IsIn-set_of, IsAscending, set_of-IsAscending}
use ajan_orkestrasyonu.Core.Ids.{AgentId}
use ajan_orkestrasyonu.Db.Store.{Db, FileTouch}
use ajan_orkestrasyonu.Db.Conflicts.{conflicts, conflicting_agents}

-- Another agent's touch of the same path, not later than `ts` and at most `window_ms` before it.
pub record IsConflict (path : String) (agent : AgentId) (ts window_ms : ℕ) (t : FileTouch)
    : Type 0 where
  pub same_path : t.path ≡ path
  pub other_agent : t.agent_id ≢ agent
  pub recent : ts ≤ t.ts + window_ms
  pub past : t.ts ≤ ts

conflicts_iff :
    (path : String) (agent : AgentId) (ts window_ms : ℕ) (t : FileTouch)
    → (conflicts path agent ts window_ms t ≡ true) ↔ IsConflict path agent ts window_ms t
conflicts_iff path agent ts window_ms t = (
  λ h. record {
    same_path = (eq_iff t.path path).0 (ground arith);
    other_agent = text_ne t.agent_id agent (ground arith);
    recent = ground arith;
    past = ground arith;
  },
  λ c. ground (
    arith,
    (eq_iff t.path path).1 c.same_path,
    text_ne_false t.agent_id agent c.other_agent,
    c.recent,
    c.past,
  ),
)

-- The conflicting agents are listed in ascending order with no repetition, and they are exactly
-- the agents with a conflicting touch.
pub conflicting_agents_exact :
    (path : String) (agent : AgentId) (ts window_ms : ℕ) (db : Db)
    → (out : List AgentId) × (conflicting_agents path agent ts window_ms db ≡ (ok out, db))
      × IsAscending out
      × ((a : AgentId)
          → IsIn a out ↔ (
              (t : FileTouch) × IsIn t db.file_touches
              × (t.agent_id ≡ a)
              × IsConflict path agent ts window_ms t))
unfolding conflicting_agents
conflicting_agents_exact path agent ts window_ms db =
    let test = conflicts path agent ts window_ms in
    let kept = filter test db.file_touches in
    let names = map (λ t. t.agent_id) kept in
    (
      set_of names,
      refl,
      set_of-IsAscending names,
      λ a. (
        λ h.
            let (t, i, e) =
              IsIn-map (λ (x : FileTouch). x.agent_id) a kept ((IsIn-set_of a names).0 h) in
            let (j, w) = (IsIn-filter test t db.file_touches).0 i in
            (t, j, sym e, (conflicts_iff path agent ts window_ms t).0 w),
        λ h.
            let w = (conflicts_iff path agent ts window_ms h.0).1 h.3 in
            let i = (IsIn-filter test h.0 db.file_touches).1 (h.1, w) in
            (IsIn-set_of a names).1
              (subst (λ x. IsIn x names) h.2 (map-IsIn (λ (x : FileTouch). x.agent_id) h.0 kept i)),
      ),
    )
