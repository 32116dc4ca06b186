-- ===== src/Core/TaskKind.antt =====
-- Task kinds (crates/divan-core/src/task.rs). `of_str` is serde under `rename_all = "lowercase"`.
use ajan_orkestrasyonu.Prelude.{◌≡◌, refl, Option, none, some, String, ◌==◌, if◌then◌else◌}

pub data TaskKind : Type 0 where
  implement review test plan research analyze report : TaskKind

unfoldable pub discrete : Discrete TaskKind
discrete = hlevel

abbrev pub as_str : TaskKind → String
as_str implement = "implement"
as_str review = "review"
as_str test = "test"
as_str plan = "plan"
as_str research = "research"
as_str analyze = "analyze"
as_str report = "report"

-- serde reads the same words back.
abbrev pub of_str : String → Option TaskKind
of_str s =
    if s == "implement"
    then some implement
    else if s == "review"
    then some review
    else if s == "test"
    then some test
    else if s == "plan"
    then some plan
    else if s == "research"
    then some research
    else if s == "analyze"
    then some analyze
    else if s == "report"
    then some report
    else none

pub of_str-as_str : (x : TaskKind) → of_str (as_str x) ≡ some x
of_str-as_str implement = refl
of_str-as_str _ = refl
