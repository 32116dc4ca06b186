-- ===== src/Examples/Guards.antt =====
-- The theorems on the policy and on paths at the sample.

use ajan_orkestrasyonu.Prelude.{ok, String, ◌==◌, if◌then◌else◌}
use ajan_orkestrasyonu.Db.Tasks.{row_to_task, list_tasks}
use ajan_orkestrasyonu.Db.Store.{Db, TaskRow}
use ajan_orkestrasyonu.Daemon.Paths.{FilePath}
use ajan_orkestrasyonu.Daemon.Handlers.{hook_pretooluse}
use ajan_orkestrasyonu.Daemon.Handlers.Boundary.{Bounded, Permitted, hook_pretooluse_exact}
use ajan_orkestrasyonu.Examples.Data.{row}
use ajan_orkestrasyonu.Prelude.{◌≡◌, refl, true, false, some, [], ◌∷◌, ◌++◌}
use ajan_orkestrasyonu.Core.Capability.{Capability}
use ajan_orkestrasyonu.Daemon.Policy.{check}
use ajan_orkestrasyonu.Prelude.{text_ne}
use ajan_orkestrasyonu.Core.Ids.{AgentId}
use ajan_orkestrasyonu.Daemon.Policy.{Action, required_cap, check_write}
use ajan_orkestrasyonu.Daemon.Policy.Checks.{Holds, Decides, check_exact, check_write_exact}
use ajan_orkestrasyonu.Daemon.Paths.{
  FilePath, walk, lexical_normalize, lexical_abs, path_within, parent_dir, normal,
}
use ajan_orkestrasyonu.Daemon.Paths.Containment.{within_stays, within_escape}
use ajan_orkestrasyonu.Examples.Data.{sample, file, home, worktree}

check_exact_example :
    Decides
      ((needed : Capability)
        → required_cap Action.broadcast ≡ some needed
        → (a : AgentId) × ((some "bob") ≡ some a) × Holds a needed sample)
      (check (some "bob") Action.broadcast 8 sample)
      8
      sample
check_exact_example = check_exact (some "bob") Action.broadcast 8 sample

check_write_exact_example :
    Decides
      (Holds "alice" Capability.write sample
        × (path_within home (file "a.rs" (normal "a.rs" ∷ [])) worktree ≡ true))
      (check_write home "alice" (file "a.rs" (normal "a.rs" ∷ [])) worktree 8 sample)
      8
      sample
check_write_exact_example =
    check_write_exact home "alice" (file "a.rs" (normal "a.rs" ∷ [])) worktree 8 sample

within_stays_example :
    path_within home (file "a/../b" (normal "a" ∷ parent_dir ∷ normal "b" ∷ [])) worktree ≡ true
within_stays_example =
    within_stays home (file "a/../b" (normal "a" ∷ parent_dir ∷ normal "b" ∷ [])) worktree refl refl

abbrev escaping : FilePath
escaping = file "a/../../x" (normal "a" ∷ parent_dir ∷ parent_dir ∷ normal "x" ∷ [])

rooted : (lexical_abs home worktree).names ≡ ("home" ∷ []) ++ ("w" ∷ [])
unfolding lexical_abs lexical_normalize walk
rooted = refl

back : walk [] (normal "a" ∷ parent_dir ∷ []) ≡ []
unfolding walk
back = refl

within_escape_example : path_within home escaping worktree ≡ false
within_escape_example =
    within_escape home escaping worktree ("home" ∷ []) "w" "x" (normal "a" ∷ parent_dir ∷ []) []
      refl refl rooted refl back refl (text_ne "x" "w" refl)

abbrev at_work : TaskRow
at_work = record (row "t5" "working" 1) { assignee = some "alice"; worktree = some "/home/w" }

abbrev busy : Db
busy = record sample { tasks = at_work ∷ [] }

abbrev read : String → FilePath
read text = if text == "/home/w" then worktree else file text (normal text ∷ [])

listed : (list_tasks busy).0 ≡ ok (row_to_task at_work ∷ [])
unfolding list_tasks
listed = refl

hook_pretooluse_exact_example :
    Bounded read home
      (Permitted read home "alice" "a.rs" (row_to_task at_work ∷ []) busy)
      (hook_pretooluse read home "alice" "a.rs" 8 busy)
      8
      busy
hook_pretooluse_exact_example =
    hook_pretooluse_exact read home "alice" "a.rs" 8 (row_to_task at_work ∷ []) busy listed
