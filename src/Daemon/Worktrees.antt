-- ===== src/Daemon/Worktrees.antt =====
-- The worktree manager (crates/divan-daemon/src/worktree.rs). `git` is a process of the operating
-- system; a path is its text.
pub mod Guards
use Prim.Native.String.{◌++◌ as concat}
use ajan_orkestrasyonu.Prelude.{
  Bool, true, false, not, String, ◌==◌, List, [], ◌∷◌, if◌then◌else◌, Result, ok, err, Exec, pure,
  raise, gets, ◌>>=◌, ◌>>◌,
}
use ajan_orkestrasyonu.Prelude.Files.{Os, Output, path_join}
use ajan_orkestrasyonu.Daemon.Router.Costs.{trim}

pub data WorktreeError : Type 0 where
  git_error io dirty_repo not_found : String → WorktreeError

-- `Display` of `WorktreeError`
abbrev pub error_text : WorktreeError → String
error_text (git_error m) = concat "git: " m
error_text (io m) = m
error_text (dirty_repo m) = concat "dirty repo: " m
error_text (not_found m) = concat "not found: " m

pub record Worktree : Type 0 where
  pub task_id : String
  pub branch : String
  pub path : String

abbrev pub branch_name : String → String → String
branch_name task_id slug = concat "divan/" (concat task_id (concat "-" slug))

abbrev pub worktree_path : String → String → String
worktree_path root task_id = path_join root task_id

-- `args.join(" ")`
abbrev pub join_args : List String → String
join_args [] = ""
join_args (a ∷ []) = a
join_args (a ∷ b ∷ rest) = concat a (concat " " (join_args (b ∷ rest)))

abbrev pub stdout_part : String → String
stdout_part out = if trim out == "" then "" else concat " | " (trim out)

abbrev pub failure : List String → Output → WorktreeError
failure args o = git_error (
    concat "`git " (
      concat (join_args args) (
        concat "` failed ("
          (concat o.status (concat "): " (concat (trim o.stderr) (stdout_part o.stdout)))))))

abbrev pub TreeExec : Type 0 → Type 0 → Type 0
TreeExec W A = Exec W WorktreeError A

abbrev pub verify_args : String → List String
verify_args branch = "rev-parse" ∷ "--verify" ∷ "--quiet" ∷ concat "refs/heads/" branch ∷ []

abbrev pub commit_args : String → List String
commit_args message =
    "-c" ∷ "user.name=Divan" ∷ "-c" ∷ "user.email=divan@local" ∷ "commit" ∷ "--no-verify" ∷ "-m"
    ∷ message ∷ []

module _ {W : Type 0} where
  abbrev pub finished : List String → Result String Output × W → Result WorktreeError Output × W
  finished args (ok o, w) = if o.success then (ok o, w) else (err (failure args o), w)
  finished args (err e, w) = (err (io e), w)

  abbrev of_io : {A : Type 0} → Result String A × W → Result WorktreeError A × W
  of_io (ok a, w) = (ok a, w)
  of_io (err e, w) = (err (io e), w)

  -- `.is_ok()`
  abbrev pub is_ok : {A : Type 0} → Result WorktreeError A × W → Result WorktreeError Bool × W
  is_ok (ok a, w) = (ok true, w)
  is_ok (err e, w) = (ok false, w)

  abbrev pub require : Bool → WorktreeError → TreeExec W (Unit {0})
  require true e = pure tt
  require false e = raise e

  module _ (os : Os W) where
    unfoldable pub git : String → List String → TreeExec W Output
    git repo args w = finished args (os.git repo args w)

    unfoldable pub is_git_repo : String → TreeExec W Bool
    is_git_repo repo w = is_ok (git repo ("rev-parse" ∷ "--is-inside-work-tree" ∷ []) w)

    unfoldable pub branch_exists : String → String → TreeExec W Bool
    branch_exists repo branch w = is_ok (git repo (verify_args branch) w)

    abbrev pub require_repo : String → TreeExec W (Unit {0})
    require_repo repo = do
      found ← is_git_repo repo
      require found (not_found (concat "not a git repo: " repo))

    abbrev pub require_branch : String → String → TreeExec W (Unit {0})
    require_branch repo branch = do
      found ← branch_exists repo branch
      require found (not_found (concat "worktree branch not found: " branch))

    unfoldable pub is_dirty : String → TreeExec W Bool
    is_dirty repo = do
      require_repo repo
      out ← git repo ("status" ∷ "--porcelain" ∷ [])
      pure (not (out.stdout == ""))

    unfoldable pub create : String → String → String → String → TreeExec W Worktree
    create root repo task_id slug = do
      require_repo repo
      taken ← branch_exists repo (branch_name task_id slug)
      require (not taken) (git_error (concat "branch already exists: " (branch_name task_id slug)))
      present ← gets (os.exists (worktree_path root task_id))
      require (not present)
          (git_error (concat "worktree path already exists: " (worktree_path root task_id)))
      (λ w. of_io (os.create_dir_all root w))
      git repo (
          "worktree"
          ∷ "add"
          ∷ "-b"
          ∷ branch_name task_id slug
          ∷ worktree_path root task_id
          ∷ "HEAD"
          ∷ [])
      pure (record {
        task_id = task_id;
        branch = branch_name task_id slug;
        path = worktree_path root task_id;
      })

    -- Nothing staged, nothing committed.
    abbrev pub commit_staged : String → String → Output → TreeExec W (Unit {0})
    commit_staged path message staged =
        if staged.stdout == "" then pure tt else (git path (commit_args message) >> pure tt)

    unfoldable pub commit_all : Worktree → String → TreeExec W (Unit {0})
    commit_all wt message = do
      found ← is_git_repo wt.path
      require found (not_found (concat "not a git worktree: " wt.path))
      git wt.path ("add" ∷ "-A" ∷ [])
      staged ← git wt.path ("diff" ∷ "--cached" ∷ "--name-only" ∷ [])
      commit_staged wt.path message staged

    unfoldable pub diff : String → Worktree → TreeExec W String
    diff repo wt = do
      require_repo repo
      require_branch repo wt.branch
      out ← git repo ("diff" ∷ "--no-color" ∷ concat "HEAD..." wt.branch ∷ [])
      pure out.stdout

    unfoldable pub merge : String → Worktree → TreeExec W (Unit {0})
    merge repo wt = do
      require_repo repo
      require_branch repo wt.branch
      dirty ← is_dirty repo
      require (not dirty) (dirty_repo (concat "refusing to merge into dirty repo: " repo))
      git repo ("merge" ∷ "--no-edit" ∷ wt.branch ∷ [])
      pure tt

    abbrev pub remove_if : String → String → Bool → TreeExec W (Unit {0})
    remove_if repo path true = git repo ("worktree" ∷ "remove" ∷ "--force" ∷ path ∷ []) >> pure tt
    remove_if repo path false = pure tt

    unfoldable pub cleanup : String → Worktree → TreeExec W (Unit {0})
    cleanup repo wt = do
      require_repo repo
      present ← gets (os.exists wt.path)
      remove_if repo wt.path present
      git repo ("worktree" ∷ "prune" ∷ [])
      pure tt
