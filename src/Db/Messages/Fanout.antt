-- ===== src/Db/Messages/Fanout.antt =====
-- The fan-out of a broadcast (crates/divan-db/src/messages.rs): one source row, one copy for each
-- target but the sender, all or nothing.
use ajan_orkestrasyonu.Prelude.{
  ◌≡◌, refl, sym, ap, ◌∙◌, inl, inr, not, Option, none, some, ◌==◌, List, [], ◌∷◌, ◌++◌, map,
  filter, arith, Bool-cases, ok, err, ◌>>=◌, ◌>>◌, pure, >>=-eq-ok, transaction, transaction_ok,
  transaction_err, Result,
}
use mathlib.Core.List.{append_assoc, append-nil}
use ajan_orkestrasyonu.Core.Ids.{AgentId, MessageId}
use ajan_orkestrasyonu.Core.Message.{Message, validate_summary, SummaryFault}
use ajan_orkestrasyonu.Db.Store.{DbExec, Db, DbError}
use ajan_orkestrasyonu.Db.Messages.{require_summary, insert_row, copy_id, copy_for, copy_to, fanout}

-- The targets that get a copy: all but the sender.
abbrev pub receivers : Message → List AgentId → List AgentId
receivers source targets = filter (λ t. not (t == source.from_agent)) targets

pub insert_row_ok :
    (m : Message) (db : Db)
    → (insert_row m db).0 ≡ ok tt
    → (insert_row m db).1 ≡ record db { messages = db.messages ++ (m ∷ []) }
unfolding insert_row
insert_row_ok m db h = ground arith

-- One copy in front of the rest.
copied_ok :
    (source : Message) (target : AgentId) (targets : List AgentId)
    (rest : Db → Result DbError (List MessageId) × Db) (db : Db) (ids : List MessageId)
    → ((more : List MessageId)
        → let db1 = record db { messages = db.messages ++ (copy_for source target ∷ []) } in
          (rest db1).0 ≡ ok more
          → (more ≡ map (copy_id source.id) (receivers source targets))
            × ((rest db1).1 ≡ record db1 {
              messages = db1.messages ++ map (copy_for source) (receivers source targets);
            }))
    → let all =
        (do
          insert_row (copy_for source target)
          more ← rest
          pure (copy_id source.id target ∷ more))
          db in
      all.0 ≡ ok ids
      → (ids ≡ copy_id source.id target ∷ map (copy_id source.id) (receivers source targets))
        × (all.1 ≡ record db {
          messages =
              db.messages
              ++ (copy_for source target ∷ map (copy_for source) (receivers source targets));
        })
copied_ok source target targets rest db ids ih h =
    let copy = copy_for source target in
    let (u, inserted, went, q1) = >>=-eq-ok (insert_row copy) _ db ids h in
    let (more, copied, made, q2) = >>=-eq-ok rest _ (insert_row copy db).1 ids went in
    let w = insert_row_ok copy db inserted in
    let (names, rows) = ih more (rw w at copied) in
    (
      ground (arith, names),
      ap (λ r. r.1) q1
          ∙ ap (λ r. r.1) q2
          ∙ ap (λ d. (rest d).1) w
          ∙ rows
          ∙ ap (λ l. record db { messages = l })
              (append_assoc db.messages (copy ∷ [])
                (map (copy_for source) (receivers source targets))),
    )

copy_to_ok :
    (source : Message) (targets : List AgentId) (db : Db) (ids : List MessageId)
    → (copy_to source targets db).0 ≡ ok ids
    → (ids ≡ map (copy_id source.id) (receivers source targets))
      × ((copy_to source targets db).1 ≡ record db {
        messages = db.messages ++ map (copy_for source) (receivers source targets);
      })
unfolding copy_to
copy_to_ok source [] db ids h =
    (ground arith, ap (λ rows. record db { messages = rows }) (sym (append-nil db.messages)))
copy_to_ok source (target ∷ targets) db ids h = elim (Bool-cases (target == source.from_agent)) [
  | inl e ↦ rw e (copy_to_ok source targets db ids (rw e at h))
  | inr e ↦ rw e (
      copied_ok source target targets (copy_to source targets) db ids
        (copy_to_ok source targets
          (record db { messages = db.messages ++ (copy_for source target ∷ []) }))
        (rw e at h))
]

-- The summary check in front of an operation.
checked_ok :
    {A : Type 0} (o : Option SummaryFault) (m : DbExec A) (db : Db) (a : A)
    → ((require_summary o >> m) db).0 ≡ ok a
    → (o ≡ none) × ((require_summary o >> m) db ≡ m db)
checked_ok none m db a h = (refl, refl)
checked_ok (some fault) m db a h = cc

checked_err :
    {A : Type 0} (o : Option SummaryFault) (m : DbExec A) (db : Db) (e : DbError)
    → ((require_summary o >> transaction m) db).0 ≡ err e
    → ((require_summary o >> transaction m) db).1 ≡ db
checked_err none m db e h = transaction_err m db e h
checked_err (some fault) m db e h = refl

-- A fan-out that succeeds has stored the source row and one copy for each target but the sender,
-- in order, has changed nothing else, and returns the ids of the copies.
pub fanout_ok :
    (source : Message) (targets : List AgentId) (db : Db) (ids : List MessageId)
    → (fanout source targets db).0 ≡ ok ids
    → (ids ≡ map (copy_id source.id) (receivers source targets))
      × ((fanout source targets db).1 ≡ record db {
        messages = db.messages ++ (source ∷ map (copy_for source) (receivers source targets));
      })
unfolding fanout
fanout_ok source targets db ids h =
    let body = insert_row source >> copy_to source targets in
    let (v, q) = checked_ok (validate_summary source.summary) (transaction body) db ids h in
    let committed : (transaction body db).0 ≡ ok ids = ap (λ r. r.0) (sym q) ∙ h in
    let (done, w) = transaction_ok body db ids committed in
    let (u, inserted, copied, p) =
      >>=-eq-ok (insert_row source) (λ _. copy_to source targets) db ids done in
    let stored = insert_row_ok source db inserted in
    let (names, rows) =
      copy_to_ok source targets (record db { messages = db.messages ++ (source ∷ []) }) ids
        (rw stored at copied) in
    (
      names,
      ap (λ r. r.1) q
          ∙ ap (λ r. r.1) w
          ∙ ap (λ r. r.1) p
          ∙ ap (λ d. (copy_to source targets d).1) stored
          ∙ rows
          ∙ ap (λ l. record db { messages = l })
              (append_assoc db.messages (source ∷ [])
                (map (copy_for source) (receivers source targets))),
    )

-- A fan-out that fails, at whatever copy, has stored nothing.
pub fanout_err :
    (source : Message) (targets : List AgentId) (db : Db) (e : DbError)
    → (fanout source targets db).0 ≡ err e
    → (fanout source targets db).1 ≡ db
unfolding fanout
fanout_err source targets db e h = checked_err (validate_summary source.summary) _ db e h
