-- ===== src/Examples/Metrics.antt =====
-- The metrics of two messages, a delivery and a turn.
use ajan_orkestrasyonu.Prelude.{ℕ, List, [], ◌∷◌}
use ajan_orkestrasyonu.Core.Agent.{CostClass}
use ajan_orkestrasyonu.Core.Message.{Message}
use ajan_orkestrasyonu.Core.TraceEventKind
use ajan_orkestrasyonu.Core.Trace.{TraceEvent, new, with_data, session}
use ajan_orkestrasyonu.Metrics.{Floats}
use ajan_orkestrasyonu.Examples.Data.{message}

abbrev messages : List Message
messages = message "m1" ∷ message "m2" ∷ []

abbrev events : List TraceEvent
events =
    new "t" TraceEventKind.msg_delivered 1
    ∷ with_data (new "t" TraceEventKind.session_event 2) (session "turn_end")
    ∷ []

abbrev classes : List CostClass
classes = 3 ∷ 1 ∷ 3 ∷ []

-- An average is held as the two numbers that are divided.
abbrev floats : Floats (ℕ × ℕ)
floats = record { of_usize = λ n. (n, 1); divide = λ a b. (a.0, b.0); zero = (0, 1) }
