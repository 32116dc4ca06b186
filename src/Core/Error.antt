-- ===== src/Core/Error.antt =====
-- Domain errors (crates/divan-core/src/error.rs).
use ajan_orkestrasyonu.Prelude.{String}
use ajan_orkestrasyonu.Core.TaskState.{TaskState}
use ajan_orkestrasyonu.Core.Message.{SummaryFault}

pub data DivanError : Type 0 where
  invalid_summary : SummaryFault → DivanError
  illegal_transition : TaskState → TaskState → DivanError
  policy_denied : String → String → DivanError
  not_found : String → DivanError
  invalid : String → DivanError
