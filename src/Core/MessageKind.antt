-- ===== src/Core/MessageKind.antt =====
-- Message kinds (crates/divan-core/src/message.rs).
use ajan_orkestrasyonu.Prelude.{◌≡◌, refl, Option, none, some, String, ◌==◌, if◌then◌else◌}

pub data MessageKind : Type 0 where
  handoff review_done question status alert : MessageKind

unfoldable pub discrete : Discrete MessageKind
discrete = hlevel

abbrev pub as_str : MessageKind → String
as_str handoff = "handoff"
as_str review_done = "review_done"
as_str question = "question"
as_str status = "status"
as_str alert = "alert"

-- serde reads the same words back.
abbrev pub of_str : String → Option MessageKind
of_str s =
    if s == "handoff"
    then some handoff
    else if s == "review_done"
    then some review_done
    else if s == "question"
    then some question
    else if s == "status"
    then some status
    else if s == "alert"
    then some alert
    else none

pub of_str-as_str : (x : MessageKind) → of_str (as_str x) ≡ some x
of_str-as_str handoff = refl
of_str-as_str _ = refl
