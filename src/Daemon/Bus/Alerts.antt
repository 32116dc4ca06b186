-- ===== src/Daemon/Bus/Alerts.antt =====
-- The alerts of a conflicting touch (crates/divan-daemon/src/bus.rs).
use Prim.Native.String.{◌++◌ as concat}
use Prim.Native.Char.{Char}
use Prim.Native.String.count.{nil, cons}
use Prim.Native.String.append
use ajan_orkestrasyonu.Prelude.{
  ltb, false, text_ne_false, ℕ, zero, suc, ◌+◌, ◌%◌, ◌≤◌, ◌≡◌, ◌≢◌, refl, ap, Option, none, String,
  count, List, [], ◌∷◌, ◌++◌, arith, ltb,
}
use ajan_orkestrasyonu.Core.Ids.{AgentId, TaskId}
use ajan_orkestrasyonu.Core.Message.{Message, validate_summary, max_summary_len}
use ajan_orkestrasyonu.Db.Store.{Db}
use ajan_orkestrasyonu.Db.Conflicts
use ajan_orkestrasyonu.Daemon.Bus.{
  MessageBus, take_chars, conflict_summary, alert, u64_mod, message_id,
}

pub take_chars-count : (n : ℕ) (s : String) → count (take_chars n s) ≤ n
take_chars-count zero s = omega arith
take_chars-count (suc n) String.[] = omega arith
take_chars-count (suc n) (String.◌∷◌ c s) =
    omega (arith, take_chars-count n s, cons c (take_chars n s))

starts :
    (t : String)
    → take_chars 400 (concat "conflict: " t)
      ≡ String.◌∷◌ "c" (take_chars 399 (concat "onflict: " t))
starts t = ap (take_chars 400) (append.cons "c" "onflict: " t)

nonempty_valid : (c : Char) (s : String) → count s ≤ 399 → validate_summary (String.◌∷◌ c s) ≡ none
unfolding validate_summary
nonempty_valid c s h =
    let short : ltb max_summary_len (count (String.◌∷◌ c s)) ≡ false = ground (arith, cons c s) in
    let ne : String.◌∷◌ c s ≢ "" = λ e. omega (arith, ap count e, cons c s, nil) in
    rw (text_ne_false (String.◌∷◌ c s) "" ne, short) refl

valid_start : (t : String) → validate_summary (take_chars 400 (concat "conflict: " t)) ≡ none
valid_start t = rw (starts t) (
    nonempty_valid "c" (take_chars 399 (concat "onflict: " t))
      (take_chars-count 399 (concat "onflict: " t)))

-- The summary of a conflict is valid, however long the path and the names are.
pub conflict_summary-valid :
    (path : String) (agent : AgentId) (others : List AgentId)
    → validate_summary (conflict_summary path agent others) ≡ none
unfolding conflict_summary
conflict_summary-valid path agent others = valid_start _

-- Who is alerted: the other agents and the one that touched the path, if there are others.
abbrev pub alerted : List AgentId → AgentId → List AgentId
alerted [] agent = []
alerted (other ∷ others) agent = (other ∷ others) ++ (agent ∷ [])

module _ (path_json : String → String) where
  -- The rows and the ids of the alerts, in order, from the counter on.
  abbrev pub alert_rows : String → Option TaskId → String → ℕ → List AgentId → ℕ → List Message
  alert_rows path task summary ts [] seq = []
  alert_rows path task summary ts (recipient ∷ rest) seq =
      alert path_json path task summary ts (message_id ts seq) recipient
      ∷ alert_rows path task summary ts rest ((seq + 1) % u64_mod)

  abbrev with_messages : List Message → MessageBus → MessageBus
  with_messages rows bus = record bus { db = record bus.db { messages = bus.db.messages ++ rows } }
