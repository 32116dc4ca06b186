-- ===== src/Db/Messages/Total.antt =====
-- When a fan-out succeeds (crates/divan-db/src/messages.rs).
use Prim.Native.String.{◌++◌ as concat}
use text.Mathlib.TextLemmas.{append_cancel_left, append-nil, append-eq-nil_iff}
use ajan_orkestrasyonu.Prelude.{
  ◌≡◌, refl, sym, ◌∙◌, ◌≢◌, inl, inr, true, false, none, String, ◌==◌, List, [], ◌∷◌, ◌++◌, map,
  any, not, some, filter, arith, Bool-cases, ok, eq_iff, count, ltb, text_ne_false, eq_refl,
  any-append, transaction_total, ◌>>◌, All, Distinct,
}
use ajan_orkestrasyonu.Core.Ids.{AgentId, MessageId}
use ajan_orkestrasyonu.Core.Message.{Message, validate_summary, max_summary_len}
use ajan_orkestrasyonu.Db.Store.{Db}
use ajan_orkestrasyonu.Db.Messages.{
  require_summary, has_message_id, insert_row, copy_id, copy_for, copy_to, fanout,
}
use ajan_orkestrasyonu.Db.Messages.Fanout.{receivers, fanout_ok}

-- No row has this id.
abbrev pub IsFresh : Db → MessageId → Type 0
IsFresh db id = any (has_message_id id) db.messages ≡ false

-- Copies for two targets have two ids.
copy_id_inj : (source : MessageId) (s t : AgentId) → s ≢ t → copy_id source s ≢ copy_id source t
copy_id_inj source s t ne e =
    ne (append_cancel_left "#" s t (append_cancel_left source (concat "#" s) (concat "#" t) e))

fits : (s : String) → validate_summary s ≡ none → ltb max_summary_len (count s) ≡ false
unfolding validate_summary
fits s h = ground arith

module _ (source : Message) where
  stored : AgentId → Db → Db
  stored t db = record db { messages = db.messages ++ (copy_for source t ∷ []) }

  -- A copy is stored beside its source if its id is free.
  copy_row :
      (t : AgentId) (db : Db)
      → validate_summary source.summary ≡ none
      → any (has_message_id source.id) db.messages ≡ true
      → IsFresh db (copy_id source.id t)
      → insert_row (copy_for source t) db ≡ (ok tt, stored t db)
  unfolding insert_row stored
  copy_row t db v s f = ground (arith, fits source.summary v)

  still-IsFresh :
      (t u : AgentId) (db : Db)
      → t ≢ u
      → IsFresh db (copy_id source.id u)
      → IsFresh (stored t db) (copy_id source.id u)
  unfolding stored
  still-IsFresh t u db ne f = rw (
    any-append (has_message_id (copy_id source.id u)) db.messages (copy_for source t ∷ []),
    f,
    text_ne_false (copy_id source.id t) (copy_id source.id u) (copy_id_inj source.id t u ne),
  )

  All-still-IsFresh :
      (t : AgentId) (us : List AgentId) (db : Db)
      → All (λ u. t ≢ u) us
      → All (λ u. IsFresh db (copy_id source.id u)) us
      → All (λ u. IsFresh (stored t db) (copy_id source.id u)) us
  All-still-IsFresh t [] db ne f = tt
  All-still-IsFresh t (u ∷ us) db ne f =
      (still-IsFresh t u db ne.0 f.0, All-still-IsFresh t us db ne.1 f.1)

  source_stays :
      (t : AgentId) (db : Db)
      → any (has_message_id source.id) db.messages ≡ true
      → any (has_message_id source.id) (stored t db).messages ≡ true
  unfolding stored
  source_stays t db s =
      rw (any-append (has_message_id source.id) db.messages (copy_for source t ∷ []), s)

  copy_to_total :
      (targets : List AgentId) (db : Db)
      → validate_summary source.summary ≡ none
      → any (has_message_id source.id) db.messages ≡ true
      → Distinct targets
      → All (λ t. IsFresh db (copy_id source.id t)) targets
      → (copy_to source targets db).0 ≡ ok (map (copy_id source.id) (receivers source targets))
  unfolding copy_to
  copy_to_total [] db v s d f = refl
  copy_to_total (t ∷ ts) db v s d f = elim (Bool-cases (t == source.from_agent)) [
    | inl e ↦ rw e (copy_to_total ts db v s d.1 f.1)
    | inr e ↦ rw (
      e,
      copy_row t db v s f.0,
      copy_to_total ts (stored t db) v (source_stays t db s) d.1
          (All-still-IsFresh t ts db d.0 f.1),
    )
  ]

abbrev pub with_source : Message → Db → Db
with_source source db = record db { messages = db.messages ++ (source ∷ []) }

pub insert_source :
    (source : Message) (db : Db)
    → validate_summary source.summary ≡ none
    → source.origin_message_id ≡ none
    → IsFresh db source.id
    → insert_row source db ≡ (ok tt, with_source source db)
unfolding insert_row
insert_source source db v o free = ground (arith, fits source.summary v)

any_source :
    (source : Message) (db : Db)
    → any (has_message_id source.id) (with_source source db).messages ≡ true
any_source source db =
    rw (any-append (has_message_id source.id) db.messages (source ∷ []), eq_refl source.id)
      (ground arith)

source-ne-copy : (source : MessageId) (t : AgentId) → source ≢ copy_id source t
source-ne-copy source t e =
    let none_left = append_cancel_left source (concat "#" t) "" (sym e ∙ sym (append-nil source)) in
    ground (arith, eq_iff "#" "", (append-eq-nil_iff {p = "#"} {q = t}).0 none_left)

All-copies-IsFresh :
    (source : Message) (ts : List AgentId) (db : Db)
    → All (λ t. IsFresh db (copy_id source.id t)) ts
    → All (λ t. IsFresh (with_source source db) (copy_id source.id t)) ts
All-copies-IsFresh source [] db f = tt
All-copies-IsFresh source (t ∷ ts) db f = (
  rw (
    any-append (has_message_id (copy_id source.id t)) db.messages (source ∷ []),
    f.0,
    text_ne_false source.id (copy_id source.id t) (source-ne-copy source.id t),
  ),
  All-copies-IsFresh source ts db f.1,
)

fanout_returns :
    (source : Message) (targets : List AgentId) (db : Db)
    → validate_summary source.summary ≡ none
    → source.origin_message_id ≡ none
    → Distinct targets
    → IsFresh db source.id
    → All (λ t. IsFresh db (copy_id source.id t)) targets
    → (fanout source targets db).0 ≡ ok (map (copy_id source.id) (receivers source targets))
unfolding fanout
fanout_returns source targets db v o d free f =
    let start = insert_source source db v o free in
    let copied =
      copy_to_total source targets (with_source source db) v (any_source source db) d
        (All-copies-IsFresh source targets db f) in
    rw (v, require_summary)
      (transaction_total (insert_row source >> copy_to source targets) db
        (map (copy_id source.id) (receivers source targets)) (rw start copied))

-- A valid broadcast with fresh ids, to distinct targets, succeeds: behind the messages stand the
-- source as it was given and then, for each target but the sender and in their order, the source
-- again, addressed to the target, not delivered, under its own id and with the source as its origin.
-- The rest of the database is as before, and the ids of the copies are returned.
pub fanout_total :
    (source : Message) (targets : List AgentId) (db : Db)
    → validate_summary source.summary ≡ none
    → source.origin_message_id ≡ none
    → Distinct targets
    → IsFresh db source.id
    → All (λ t. IsFresh db (copy_id source.id t)) targets
    → let reached = filter (λ t. not (t == source.from_agent)) targets in
      fanout source targets db ≡ (
        ok (map (copy_id source.id) reached),
        record db {
          messages =
              db.messages
              ++ (source
                  ∷ map
                      (λ t. record source {
                        id = copy_id source.id t;
                        origin_message_id = some source.id;
                        to_agent = some t;
                        delivered_at = none;
                      })
                      reached);
        },
      )
fanout_total source targets db v o d free f =
    let ids = map (copy_id source.id) (receivers source targets) in
    let result = fanout_returns source targets db v o d free f in
    let (u, after) = fanout_ok source targets db ids result in pair result after
  where
    pair : {A B : Type 0} {r : A × B} {a : A} {b : B} → r.0 ≡ a → r.1 ≡ b → r ≡ (a, b)
    pair e g = λ i. (e i, g i)
