-- ===== src/Db/Messages.antt =====
-- The message repository (crates/divan-db/src/messages.rs).
pub mod Fanout
pub mod Total
pub mod Delivery
use Prim.Native.String.{◌++◌ as concat}
use ajan_orkestrasyonu.Prelude.{
  ℕ, ◌+◌, Bool, true, false, ◌&&◌, ◌||◌, Option, none, some, ◌==◌, count, List, [], ◌∷◌, ◌++◌, any,
  find, filter, count_if, update_if, map_or, is_none, is_some, holds, ltb, if◌then◌else◌, ok, pure,
  raise, gets, transaction, ◌>>=◌, ◌>>◌,
}
use ajan_orkestrasyonu.Prelude.Order.{text_leb}
use ajan_orkestrasyonu.Prelude.Sort.{sort}
use ajan_orkestrasyonu.Core.Ids.{AgentId, MessageId}
use ajan_orkestrasyonu.Core.Message.{Message, SummaryFault, validate_summary}
use ajan_orkestrasyonu.Core.Error.{invalid_summary}
use ajan_orkestrasyonu.Db.Store.{Db, DbExec, sqlite, domain, check, primary_key, foreign_key}

abbrev pub has_message_id : MessageId → Message → Bool
has_message_id id m = m.id == id

-- `origin_message_id REFERENCES messages(id)`
abbrev pub origin_ok : Message → Db → Bool
origin_ok m db =
    map_or true (λ o. m.id == o || any (has_message_id o) db.messages) m.origin_message_id

-- The insertion under the constraints of the table: the CHECK on the summary, the key, the origin.
unfoldable pub insert_row : Message → DbExec (Unit {0})
insert_row m db =
    if ltb 400 (count m.summary)
    then raise (sqlite check) db
    else if any (has_message_id m.id) db.messages
    then raise (sqlite primary_key) db
    else if origin_ok m db
    then (ok tt, record db { messages = db.messages ++ (m ∷ []) })
    else raise (sqlite foreign_key) db

-- `validate_summary(&s).map_err(DbError::Domain)?`
abbrev pub require_summary : Option SummaryFault → DbExec (Unit {0})
require_summary none = pure tt
require_summary (some fault) = raise (domain (invalid_summary fault))

unfoldable pub insert_message : Message → DbExec (Unit {0})
insert_message m = do require_summary (validate_summary m.summary); insert_row m

unfoldable pub get_message : MessageId → DbExec (Option Message)
get_message id = gets (λ db. find (has_message_id id) db.messages)

-- `ORDER BY created_at, id`
abbrev pub message_le : Message → Message → Bool
message_le a b =
    if ltb a.created_at b.created_at
    then true
    else if ltb b.created_at a.created_at
    then false
    else text_leb a.id b.id

unfoldable pub list_messages : DbExec (List Message)
list_messages = gets (λ db. sort message_le db.messages)

abbrev pub copy_id : MessageId → AgentId → MessageId
copy_id source target = concat source (concat "#" target)

abbrev pub copy_for : Message → AgentId → Message
copy_for source target = record source {
  id = copy_id source.id target;
  origin_message_id = some source.id;
  to_agent = some target;
  delivered_at = none;
}

-- The loop over the targets, which skips the sender.
unfoldable pub copy_to : Message → List AgentId → DbExec (List MessageId)
copy_to source [] = pure []
copy_to source (target ∷ targets) =
    let rest = copy_to source targets in
    if target == source.from_agent
    then rest
    else (do insert_row (copy_for source target); ids ← rest; pure (copy_id source.id target ∷ ids))

unfoldable pub fanout : Message → List AgentId → DbExec (List MessageId)
fanout source targets = do
  require_summary (validate_summary source.summary)
  transaction (do insert_row source; copy_to source targets)

-- `to_agent = ?1 AND delivered_at IS NULL`
abbrev pub is_pending : AgentId → Message → Bool
is_pending agent m = holds m.to_agent agent && is_none m.delivered_at

unfoldable pub pending_for : AgentId → DbExec (List Message)
pending_for agent = gets (λ db. sort message_le (filter (is_pending agent) db.messages))

-- `WHERE id = ?1 AND delivered_at IS NULL AND to_agent IS NOT NULL`
abbrev pub is_stampable : MessageId → Message → Bool
is_stampable id m = m.id == id && (is_none m.delivered_at && is_some m.to_agent)

abbrev pub stamp : ℕ → Message → Message
stamp ts m = record m { delivered_at = some ts }

-- The loop over the ids: how many rows were stamped, and the table after it.
unfoldable pub stamp_all : List MessageId → ℕ → List Message → ℕ × List Message
stamp_all [] ts rows = (0, rows)
stamp_all (id ∷ ids) ts rows =
    let (n, rest) = stamp_all ids ts (update_if (is_stampable id) (stamp ts) rows) in
    (count_if (is_stampable id) rows + n, rest)

-- With no ids the source returns before the transaction; the loop then does nothing either.
unfoldable pub mark_delivered : List MessageId → ℕ → DbExec ℕ
mark_delivered [] ts db = (ok 0, db)
mark_delivered (id ∷ ids) ts db =
    let (n, rows) = stamp_all (id ∷ ids) ts db.messages in (ok n, record db { messages = rows })
