-- ===== src/Db/Messages/Delivery.antt =====
-- The delivery queue (crates/divan-db/src/messages.rs): what is pending, and what a receipt does.
use ajan_orkestrasyonu.Prelude.{
  ℕ, ◌+◌, ◌≡◌, refl, sym, ap, ◌∙◌, holds_iff, is_none_iff, any_of_none, ◌↔◌, inl, inr, Bool, true,
  false, ◌&&◌, none, some, List, [], ◌∷◌, any, filter, count_if, update_if, arith, Bool-cases,
  if◌then◌else◌, is_none, is_some, ok, eq_iff, IsIn, IsIn-filter,
}
use ajan_orkestrasyonu.Prelude.Order.{text_leb_total, text_leb_trans}
use ajan_orkestrasyonu.Prelude.Sort.{sort, IsSorted, sort-IsSorted, IsIn-sort}
use ajan_orkestrasyonu.Core.Ids.{AgentId, MessageId}
use ajan_orkestrasyonu.Core.Message.{Message}
use ajan_orkestrasyonu.Db.Store.{Db}
use ajan_orkestrasyonu.Db.Messages.{
  message_le, is_pending, is_stampable, stamp, stamp_all, pending_for, mark_delivered,
}

message_le_total : (a b : Message) → message_le a b ≡ false → message_le b a ≡ true
message_le_total a b h = ground (arith, text_leb_total a.id b.id)

message_le_trans :
    (a b c : Message) → message_le a b ≡ true → message_le b c ≡ true → message_le a c ≡ true
message_le_trans a b c p q = ground (arith, text_leb_trans a.id b.id c.id)

pending_iff :
    (agent : AgentId) (m : Message)
    → (is_pending agent m ≡ true) ↔ ((m.to_agent ≡ some agent) × (m.delivered_at ≡ none))
pending_iff agent m =
    let to = holds_iff m.to_agent agent in
    let un = is_none_iff m.delivered_at in
    (λ h. (to.0 (ground arith), un.0 (ground arith)), λ h. ground (arith, to.1 h.0, un.1 h.1))

-- The queue of an agent is sorted by time and id, and holds exactly the stored messages that are
-- addressed to the agent and carry no delivery stamp.
pub pending_exact :
    (agent : AgentId) (db : Db)
    → (queue : List Message) × ((pending_for agent db) ≡ (ok queue, db))
      × IsSorted message_le queue
      × ((m : Message)
          → IsIn m queue
            ↔ (IsIn m db.messages × (m.to_agent ≡ some agent) × (m.delivered_at ≡ none)))
unfolding pending_for
pending_exact agent db = (
  sort message_le (filter (is_pending agent) db.messages),
  refl,
  sort-IsSorted message_le message_le_total message_le_trans
      (filter (is_pending agent) db.messages),
  λ m.
      let s = IsIn-sort message_le m (filter (is_pending agent) db.messages) in
      let f = IsIn-filter (is_pending agent) m db.messages in
      let p = pending_iff agent m in
      (
        λ i. let (here, q) = f.0 (s.0 i) in let (to, un) = p.0 q in (here, to, un),
        λ h. s.1 (f.1 (h.0, p.1 (h.1, h.2))),
      ),
)

-- A row that a receipt for `ids` stamps.
abbrev pub is_covered : List MessageId → Message → Bool
is_covered ids m = any (λ id. is_stampable id m) ids

stamped_stays : (ids : List MessageId) (ts : ℕ) (m : Message) → is_covered ids (stamp ts m) ≡ false
stamped_stays [] ts m = refl
stamped_stays (id ∷ ids) ts m = ground (arith, stamped_stays ids ts m)

stamp_twice :
    (id : MessageId) (ids : List MessageId) (ts : ℕ) (rows : List Message)
    → update_if (is_covered ids) (stamp ts) (update_if (is_stampable id) (stamp ts) rows)
      ≡ update_if (is_covered (id ∷ ids)) (stamp ts) rows
stamp_twice id ids ts [] = refl
stamp_twice id ids ts (m ∷ rows) =
    ground (arith, stamp_twice id ids ts rows, stamped_stays ids ts m)

stamp_all-rows :
    (ids : List MessageId) (ts : ℕ) (rows : List Message)
    → (stamp_all ids ts rows).1 ≡ update_if (is_covered ids) (stamp ts) rows
unfolding stamp_all
stamp_all-rows [] ts rows = sym (nothing rows)
  where
    nothing : (rows : List Message) → update_if (is_covered []) (stamp ts) rows ≡ rows
    nothing [] = refl
    nothing (m ∷ rows) = ap (λ r. m ∷ r) (nothing rows)
stamp_all-rows (id ∷ ids) ts rows =
    stamp_all-rows ids ts (update_if (is_stampable id) (stamp ts) rows) ∙ stamp_twice id ids ts rows

-- In the delivery queue of some agent.
abbrev pub is_queued : Message → Bool
is_queued m = is_none m.delivered_at && is_some m.to_agent

stamp_count :
    (id : MessageId) (ts : ℕ) (rows : List Message)
    → count_if is_queued rows
      ≡ count_if (is_stampable id) rows
        + count_if is_queued (update_if (is_stampable id) (stamp ts) rows)
stamp_count id ts [] = omega arith
stamp_count id ts (m ∷ rows) = ground (arith, stamp_count id ts rows)

stamp_all_count :
    (ids : List MessageId) (ts : ℕ) (rows : List Message)
    → count_if is_queued rows
      ≡ (stamp_all ids ts rows).0 + count_if is_queued (stamp_all ids ts rows).1
unfolding stamp_all
stamp_all_count [] ts rows = omega arith
stamp_all_count (id ∷ ids) ts rows = omega (
  arith,
  stamp_count id ts rows,
  stamp_all_count ids ts (update_if (is_stampable id) (stamp ts) rows),
)

mark_delivered-stamp_all :
    (ids : List MessageId) (ts : ℕ) (db : Db)
    → mark_delivered ids ts db ≡ (
      ok (stamp_all ids ts db.messages).0,
      record db { messages = (stamp_all ids ts db.messages).1 },
    )
unfolding mark_delivered stamp_all
mark_delivered-stamp_all [] ts db = refl
mark_delivered-stamp_all (id ∷ ids) ts db = refl

-- A receipt always succeeds. It stamps the rows that it covers and no other, it touches nothing
-- else, and the number that it returns is the number of rows that left the delivery queues.
pub mark_delivered_exact :
    (ids : List MessageId) (ts : ℕ) (db : Db)
    → (n : ℕ) × (mark_delivered ids ts db
        ≡ (ok n, record db { messages = update_if (is_covered ids) (stamp ts) db.messages }))
      × (count_if is_queued db.messages
          ≡ n + count_if is_queued (mark_delivered ids ts db).1.messages)
mark_delivered_exact ids ts db =
    let n = (stamp_all ids ts db.messages).0 in
    let eq = mark_delivered-stamp_all ids ts db in
    (
      n,
      eq ∙ ap (λ rows. (ok n, record db { messages = rows })) (stamp_all-rows ids ts db.messages),
      rw eq (stamp_all_count ids ts db.messages),
    )

covered_stamped :
    (ids : List MessageId) (ts later : ℕ) (rows : List Message)
    → update_if (is_covered ids) (stamp later) (update_if (is_covered ids) (stamp ts) rows)
      ≡ update_if (is_covered ids) (stamp ts) rows
covered_stamped ids ts later [] = refl
covered_stamped ids ts later (m ∷ rows) =
    ground (arith, covered_stamped ids ts later rows, stamped_stays ids ts m)

pub marked :
    (ids : List MessageId) (ts : ℕ) (db : Db)
    → (mark_delivered ids ts db).1
      ≡ record db { messages = update_if (is_covered ids) (stamp ts) db.messages }
marked ids ts db = let (n, p, q) = mark_delivered_exact ids ts db in ap (λ r. r.1) p

again_rows :
    (ids : List MessageId) (ts later : ℕ) (db : Db)
    → record (mark_delivered ids ts db).1 {
      messages = update_if (is_covered ids) (stamp later) (mark_delivered ids ts db).1.messages;
    }
      ≡ (mark_delivered ids ts db).1
again_rows ids ts later db =
    rw (marked ids ts db)
      (ap (λ rows. record db { messages = rows }) (covered_stamped ids ts later db.messages))

-- A second receipt for the same messages stamps nothing: the first delivery time stands.
pub mark_delivered_again :
    (ids : List MessageId) (ts later : ℕ) (db : Db)
    → mark_delivered ids later (mark_delivered ids ts db).1 ≡ (ok 0, (mark_delivered ids ts db).1)
mark_delivered_again ids ts later db =
    let (n, p, q) = mark_delivered_exact ids later (mark_delivered ids ts db).1 in
    let same = p ∙ ap (λ d. (ok n, d)) (again_rows ids ts later db) in
    let gone = ap (λ r. count_if is_queued r.1.messages) same in
    let none_left : n ≡ 0 = omega arith in
    same ∙ ap (λ k. (ok k, (mark_delivered ids ts db).1)) none_left

covered-queued :
    (ids : List MessageId) (ts : ℕ) (id : MessageId) (x : Message)
    → IsIn id ids
    → x.id ≡ id
    → is_queued (if is_covered ids x then stamp ts x else x) ≡ false
covered-queued ids ts id x i e = elim (Bool-cases (is_covered ids x)) [
  | inl c ↦ rw c
  | inr c ↦
      let bare = any_of_none (λ j. is_stampable j x) id ids c i in
      rw c (ground (arith, bare, eq_iff x.id id))
]

rows_delivered :
    (ids : List MessageId) (ts : ℕ) (id : MessageId) (m : Message) (rows : List Message)
    → IsIn id ids
    → IsIn m (update_if (is_covered ids) (stamp ts) rows)
    → m.id ≡ id
    → is_queued m ≡ false
rows_delivered ids ts id m [] i j e = absurd j
rows_delivered ids ts id m (x ∷ rows) i j e = elim j [
  | inl p ↦ rw p (covered-queued ids ts id x i (ground arith))
  | inr k ↦ rows_delivered ids ts id m rows i k e
]

-- After a receipt no message that it names is in the delivery queue of any agent.
pub mark_delivered-queued :
    (ids : List MessageId) (ts : ℕ) (db : Db) (id : MessageId) (m : Message)
    → IsIn id ids
    → IsIn m (mark_delivered ids ts db).1.messages
    → m.id ≡ id
    → is_queued m ≡ false
mark_delivered-queued ids ts db id m i j e =
    rows_delivered ids ts id m db.messages i (rw (marked ids ts db) at j) e
