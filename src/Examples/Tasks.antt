-- ===== src/Examples/Tasks.antt =====
-- The task theorems at the sample.

use ajan_orkestrasyonu.Prelude.{◌≡◌, refl, ◌↔◌, true, none, some, ok, err}
use ajan_orkestrasyonu.Core.TaskState.{TaskState}
use ajan_orkestrasyonu.Db.Tasks.Audit.{move}
use ajan_orkestrasyonu.Core.Task.{completed}
use ajan_orkestrasyonu.Core.TaskState.Legal.{Legal, can_transition_to_iff}
use ajan_orkestrasyonu.Core.Error.{illegal_transition}
use ajan_orkestrasyonu.Db.Store.{Db, fresh, domain}
use ajan_orkestrasyonu.Db.Tasks.{create_task, get_task, transition}
use ajan_orkestrasyonu.Db.Tasks.Transition.{Moved, transition_ok, Refused, transition_err}
use ajan_orkestrasyonu.Db.Tasks.Create.{create-get}
use ajan_orkestrasyonu.Db.Tasks.Audit.{
  current, IsAudited, Steps, Steps-IsAudited, create, here, next,
}
use ajan_orkestrasyonu.Db.Tasks.Safety.{terminal_final}
use ajan_orkestrasyonu.Core.TaskState.{can_transition_to}
use ajan_orkestrasyonu.Examples.Data.{sample, new_task}

claimed_ok : (transition "t1" TaskState.claimed completed 8 sample).0 ≡ ok tt
unfolding transition can_transition_to
claimed_ok = refl

transition_ok_example :
    Moved "t1" TaskState.claimed completed 8 sample
      (transition "t1" TaskState.claimed completed 8 sample).1
transition_ok_example = transition_ok "t1" TaskState.claimed completed 8 sample claimed_ok

reopened_err :
    (transition "t2" TaskState.working completed 8 sample).0
    ≡ err (domain (illegal_transition TaskState.done TaskState.working))
unfolding transition can_transition_to
reopened_err = refl

transition_err_example :
    ((transition "t2" TaskState.working completed 8 sample).1 ≡ sample)
    × Refused "t2" TaskState.working sample
        (domain (illegal_transition TaskState.done TaskState.working))
transition_err_example =
    transition_err "t2" TaskState.working completed 8 sample
      (domain (illegal_transition TaskState.done TaskState.working)) reopened_err

abbrev created_db : Db
created_db = (create_task (record new_task { parent_id = none }) fresh).1

run : Steps fresh (transition "t9" TaskState.claimed completed 8 created_db).1
run =
    next (next here (create (record new_task { parent_id = none }) refl))
      (move "t9" TaskState.claimed completed 8)

Steps-IsAudited_example : IsAudited (transition "t9" TaskState.claimed completed 8 created_db).1
Steps-IsAudited_example = Steps-IsAudited run

later : Steps sample (transition "t2" TaskState.working completed 8 sample).1
later = next here (move "t2" TaskState.working completed 8)

terminal_final_example :
    current "t2" (transition "t2" TaskState.working completed 8 sample).1 ≡ some TaskState.done
terminal_final_example = terminal_final "t2" TaskState.done refl later refl

created_ok : (create_task new_task sample).0 ≡ ok tt
unfolding create_task
created_ok = refl

create-get_example : (get_task new_task.id (create_task new_task sample).1).0 ≡ ok (some new_task)
create-get_example = create-get new_task sample created_ok

can_transition_to_iff_example :
    (can_transition_to TaskState.working TaskState.done ≡ true)
    ↔ Legal TaskState.working TaskState.done
can_transition_to_iff_example = can_transition_to_iff TaskState.working TaskState.done
