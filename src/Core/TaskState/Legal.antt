-- ===== src/Core/TaskState/Legal.antt =====
-- The transition diagram of spec §4.2, as the doc comment of `can_transition_to` draws it
-- (crates/divan-core/src/task.rs), and the proof that the code decides it.
use ajan_orkestrasyonu.Prelude.{◌≡◌, refl, ◌↔◌, true, false, arith}
use ajan_orkestrasyonu.Core.TaskState.{
  TaskState, «open», claimed, working, review, done, failed, cancelled, is_terminal,
  can_transition_to,
}

pub data Legal : TaskState → TaskState → Type 0 where
  claim : Legal «open» claimed
  start : Legal claimed working
  submit : Legal working review
  rework : Legal review working
  approve : Legal review done
  finish : Legal working done
  fail : {s : TaskState} → is_terminal s ≡ false → Legal s failed
  cancel : {s : TaskState} → is_terminal s ≡ false → Legal s cancelled

pub ruleset diagram = (claim, start, submit, rework, approve, finish)

pub can_transition_to-Legal : (s t : TaskState) → can_transition_to s t ≡ true → Legal s t
unfolding can_transition_to
can_transition_to-Legal s t h = grind (arith, diagram, fail, cancel)

pub Legal-can_transition_to : {s t : TaskState} → Legal s t → can_transition_to s t ≡ true
unfolding can_transition_to
Legal-can_transition_to claim = refl
Legal-can_transition_to start = refl
Legal-can_transition_to submit = refl
Legal-can_transition_to rework = refl
Legal-can_transition_to approve = refl
Legal-can_transition_to finish = refl
Legal-can_transition_to (fail {s} h) = ground arith
Legal-can_transition_to (cancel {s} h) = ground arith

-- The code allows a transition exactly when the diagram has that edge.
pub can_transition_to_iff : (s t : TaskState) → (can_transition_to s t ≡ true) ↔ Legal s t
can_transition_to_iff s t = (can_transition_to-Legal s t, Legal-can_transition_to)

-- No edge leaves a terminal state.
pub terminal_stuck : {s t : TaskState} → is_terminal s ≡ true → Legal s t → ⊥
unfolding can_transition_to
terminal_stuck h l = ground (arith, Legal-can_transition_to l)
