-- ===== src/Metrics/Exact.antt =====
-- What the metrics of a trace are (crates/divan-trace/src/lib.rs).
use ajan_orkestrasyonu.Prelude.{
  ℕ, suc, ◌+◌, ◌≤◌, ◌≡◌, ◌⊎◌, some, List, [], ◌∷◌, length, IsIn, count,
}
use ajan_orkestrasyonu.Core.Agent.{CostClass}
use ajan_orkestrasyonu.Core.Message.{Message}
use ajan_orkestrasyonu.Core.TraceEventKind
use ajan_orkestrasyonu.Core.Trace.{TraceEvent, session}
use ajan_orkestrasyonu.Metrics.{Floats, Metrics}
use ajan_orkestrasyonu.Metrics.Classes.{count_at, IsDist}

-- So many elements of the list are as the predicate says.
pub data Counts {A : Type 0} (P : A → Type 0) : List A → ℕ → Type 0 where
  none_left : Counts P [] 0
  counted : {x : A} {xs : List A} {n : ℕ} → P x → Counts P xs n → Counts P (x ∷ xs) (suc n)
  passed : {x : A} {xs : List A} {n : ℕ} → ¬ P x → Counts P xs n → Counts P (x ∷ xs) n

-- The characters of the summaries, added up.
pub data Totals : List Message → ℕ → Type 0 where
  no_message : Totals [] 0
  one_more :
      {m : Message} {ms : List Message} {n : ℕ}
      → Totals ms n
      → Totals (m ∷ ms) (count m.summary + n)

abbrev pub IsInjection : TraceEvent → Type 0
IsInjection e = e.event ≡ TraceEventKind.msg_delivered

-- The event of a session with the data `{"event": "turn_end"}`.
abbrev pub IsTurn : TraceEvent → Type 0
IsTurn e = (e.event ≡ TraceEventKind.session_event) × (e.detail ≡ some (session "turn_end"))

-- The longest of the summaries, 0 where there are none.
abbrev pub IsLongest : List Message → ℕ → Type 0
IsLongest messages n =
    ((m : Message) → IsIn m messages → count m.summary ≤ n)
    × (((messages ≡ []) × (n ≡ 0)) ⊎ ((m : Message) × IsIn m messages × (n ≡ count m.summary)))

-- The metrics of the messages, the events and the cost classes.
pub record IsMetrics {F : Type 0} (floats : Floats F) (messages : List Message)
    (events : List TraceEvent) (classes : List CostClass) (r : Metrics F) : Type 0 where
  pub message_count : r.message_count ≡ length messages
  pub average_of :
      ((messages ≡ []) × (r.avg_summary_len ≡ floats.zero))
      ⊎ ((total : ℕ) × Totals messages total
          × (r.avg_summary_len
              ≡ floats.divide (floats.of_usize total) (floats.of_usize (length messages))))
  pub longest : IsLongest messages r.max_summary_len
  pub injections : Counts IsInjection events r.injections
  pub turns : Counts IsTurn events r.turns
  pub classes_ascend : IsDist r.cost_class_dist
  pub class_counts : (c : CostClass) → Counts (λ x. x ≡ c) classes (count_at c r.cost_class_dist)
