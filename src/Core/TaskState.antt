-- ===== src/Core/TaskState.antt =====
-- Task states and the legal transitions (crates/divan-core/src/task.rs).
pub mod Legal
use ajan_orkestrasyonu.Prelude.{
  ◌≡◌, refl, Option, none, some, String, ◌==◌, if◌then◌else◌, Bool, true, false,
}

pub data TaskState : Type 0 where
  «open» claimed working review done failed cancelled : TaskState

unfoldable pub discrete : Discrete TaskState
discrete = hlevel

abbrev pub as_str : TaskState → String
as_str «open» = "open"
as_str claimed = "claimed"
as_str working = "working"
as_str review = "review"
as_str done = "done"
as_str failed = "failed"
as_str cancelled = "cancelled"

-- serde reads the same words back.
abbrev pub of_str : String → Option TaskState
of_str s =
    if s == "open"
    then some «open»
    else if s == "claimed"
    then some claimed
    else if s == "working"
    then some working
    else if s == "review"
    then some review
    else if s == "done"
    then some done
    else if s == "failed"
    then some failed
    else if s == "cancelled"
    then some cancelled
    else none

pub of_str-as_str : (x : TaskState) → of_str (as_str x) ≡ some x
of_str-as_str «open» = refl
of_str-as_str _ = refl

abbrev pub is_terminal : TaskState → Bool
is_terminal done = true
is_terminal failed = true
is_terminal cancelled = true
is_terminal _ = false

-- The `match` of the source, arm by arm.
unfoldable pub can_transition_to : TaskState → TaskState → Bool
can_transition_to «open» claimed = true
can_transition_to claimed working = true
can_transition_to working review = true
can_transition_to review working = true
can_transition_to review done = true
can_transition_to working done = true
can_transition_to «open» failed = true
can_transition_to claimed failed = true
can_transition_to working failed = true
can_transition_to review failed = true
can_transition_to «open» cancelled = true
can_transition_to claimed cancelled = true
can_transition_to working cancelled = true
can_transition_to review cancelled = true
can_transition_to _ _ = false
