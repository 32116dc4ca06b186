-- ===== src/Metrics.antt =====
-- The metrics of a trace (crates/divan-trace/src/lib.rs). The operations of `f64` are a
-- parameter, and a `BTreeMap` of counts is a list of pairs by key.
pub mod Classes
pub mod Exact
use ajan_orkestrasyonu.Prelude.{
  ℕ, zero, suc, ◌+◌, Bool, true, false, ◌&&◌, Option, none, some, map_or, String, ◌==◌, count, List,
  [], ◌∷◌, map, length, count_if, ltb, eqb, if◌then◌else◌, same,
}
use ajan_orkestrasyonu.Core.Agent.{CostClass}
use ajan_orkestrasyonu.Core.Message.{Message}
use ajan_orkestrasyonu.Core.TraceEventKind
use ajan_orkestrasyonu.Core.Trace.{TraceEvent, Detail, session}

-- The operations of `f64` that the average uses: `as f64`, `/` and `0.0`.
pub record Floats (F : Type 0) : Type 0 where
  pub of_usize : ℕ → F
  pub divide : F → F → F
  pub zero : F

pub record Metrics (F : Type 0) : Type 0 where
  pub message_count : ℕ
  pub avg_summary_len : F
  pub max_summary_len : ℕ
  pub injections : ℕ
  pub turns : ℕ
  pub cost_class_dist : List (CostClass × ℕ)

abbrev pub sum : List ℕ → ℕ
sum [] = 0
sum (n ∷ ns) = n + sum ns

-- `max().unwrap_or(0)`
abbrev pub max_of : List ℕ → ℕ
max_of [] = 0
max_of (n ∷ ns) = let rest = max_of ns in if ltb rest n then n else rest

abbrev pub summary_len : Message → ℕ
summary_len m = count m.summary

abbrev pub is_injection : TraceEvent → Bool
is_injection e = same TraceEventKind.discrete e.event TraceEventKind.msg_delivered

abbrev pub is_turn_end : Detail → Bool
is_turn_end (session event) = event == "turn_end"
is_turn_end _ = false

abbrev pub is_turn : TraceEvent → Bool
is_turn e =
    same TraceEventKind.discrete e.event TraceEventKind.session_event
    && map_or false is_turn_end e.detail

-- `*entry(cc).or_insert(0) += 1`, in the order of the keys.
abbrev pub count_class : CostClass → List (CostClass × ℕ) → List (CostClass × ℕ)
count_class cc [] = (cc, 1) ∷ []
count_class cc ((k, n) ∷ dist) =
    let rest = count_class cc dist in
    if eqb k cc
    then (k, suc n) ∷ dist
    else if ltb cc k
    then (cc, 1) ∷ (k, n) ∷ dist
    else (k, n) ∷ rest

abbrev pub distribution : List CostClass → List (CostClass × ℕ) → List (CostClass × ℕ)
distribution [] dist = dist
distribution (cc ∷ ccs) dist = distribution ccs (count_class cc dist)

module _ {F : Type 0} (floats : Floats F) where
  abbrev pub average : ℕ → ℕ → F
  average total n =
      if ltb 0 n then floats.divide (floats.of_usize total) (floats.of_usize n) else floats.zero

  unfoldable pub compute_metrics : List Message → List TraceEvent → List CostClass → Metrics F
  compute_metrics messages events task_cost_classes = record {
    message_count = length messages;
    avg_summary_len = average (sum (map summary_len messages)) (length messages);
    max_summary_len = max_of (map summary_len messages);
    injections = count_if is_injection events;
    turns = count_if is_turn events;
    cost_class_dist = distribution task_cost_classes [];
  }
