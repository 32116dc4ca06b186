-- ===== src/Daemon/Worktrees/Guards.antt =====
-- The guards of the worktree manager (crates/divan-daemon/src/worktree.rs), for a `git` whose
-- queries change no commit, no branch and no file of a work tree.
use Prim.Native.String.{◌++◌ as concat}
use ajan_orkestrasyonu.Prelude.{
  ◌≡◌, refl, ◌∙◌, ap, ◌⊎◌, inl, inr, Bool, true, false, not, String, List, [], ◌∷◌, Result, ok, err,
  ◌>>=◌, ◌>>◌, proceed, pure, if◌then◌else◌,
}
use ajan_orkestrasyonu.Prelude.Files.{Os, Output}
use ajan_orkestrasyonu.Daemon.Worktrees.{
  WorktreeError, TreeExec, Worktree, dirty_repo, failure, finished, is_ok, require, git,
  is_git_repo, verify_args, branch_exists, require_repo, require_branch, is_dirty, merge,
}

-- The commands that only look: `rev-parse` and `status`.
pub data Query : List String → Type 0 where
  inside_work_tree : Query ("rev-parse" ∷ "--is-inside-work-tree" ∷ [])
  verify : (branch : String) → Query (verify_args branch)
  porcelain : Query ("status" ∷ "--porcelain" ∷ [])

-- `view` is what a world holds of commits, branches and the files of the work trees. The queries
-- leave it: git documents that `status` refreshes the index, which `view` leaves out, and writes
-- nothing else, and that `rev-parse` only prints.
abbrev pub QueriesAreQuiet : {W V : Type 0} → (W → V) → Os W → Type 0
QueriesAreQuiet {W} view os =
    (repo : String) (args : List String) (w : W) → Query args → view (os.git repo args w).1 ≡ view w

module _ {W V : Type 0} (view : W → V) where
  record Quiet {A : Type 0} (m : TreeExec W A) : Type 0 where
    world : (w : W) → view (m w).1 ≡ view w

  finished-world :
      (args : List String) (o : Output) (b : Bool) (w : W)
      → (let r : Result WorktreeError Output × W =
            if b then (ok o, w) else (err (failure args o), w) in
          r.1 ≡ w)
  finished-world args o true w = refl
  finished-world args o false w = refl

  git-world : (args : List String) (r : Result String Output × W) → (finished args r).1 ≡ r.1
  git-world args (ok o, w) = finished-world args o o.success w
  git-world args (err e, w) = refl

  is_ok-world : {A : Type 0} (r : Result WorktreeError A × W) → (is_ok r).1 ≡ r.1
  is_ok-world (ok a, w) = refl
  is_ok-world (err e, w) = refl

  require-Quiet : (b : Bool) (e : WorktreeError) → Quiet (require {W = W} b e)
  require-Quiet true e = record { world = λ w. refl }
  require-Quiet false e = record { world = λ w. refl }

  -- What follows an operation that leaves the view: the chain leaves it, or goes on from where the
  -- operation ends.
  abbrev After : {A B : Type 0} → TreeExec W A → (A → TreeExec W B) → W → Type 0
  After {A} m f w =
      (view ((m >>= f) w).1 ≡ view w)
      ⊎ ((a : A) × (v : W) × (m w ≡ (ok a, v)) × (view v ≡ view w) × ((m >>= f) w ≡ f a v))

  proceed-After :
      {A B : Type 0} (f : A → TreeExec W B) (r : Result WorktreeError A × W) (w : W)
      → view r.1 ≡ view w
      → (view (proceed f r).1 ≡ view w)
        ⊎ ((a : A) × (v : W) × (r ≡ (ok a, v)) × (view v ≡ view w) × (proceed f r ≡ f a v))
  proceed-After f (ok a, v) w h = inr (a, v, refl, h, refl)
  proceed-After f (err e, v) w h = inl h

  after : {A B : Type 0} (m : TreeExec W A) (f : A → TreeExec W B) → Quiet m → (w : W) → After m f w
  after m f h w = proceed-After f (m w) w (h.world w)

  >>=-Quiet :
      {A B : Type 0} (m : TreeExec W A) (f : A → TreeExec W B)
      → Quiet m
      → ((a : A) → Quiet (f a))
      → Quiet (m >>= f)
  >>=-Quiet m f h k = record {
    world = λ w. elim (after m f h w) [
      | inl q ↦ q
      | inr (a, v, p, e, q) ↦ ap (λ r. view r.1) q ∙ (k a).world v ∙ e
    ];
  }

  module _ (os : Os W) (quiet : QueriesAreQuiet view os) where
    git-Quiet : (repo : String) (args : List String) → Query args → Quiet (git os repo args)
    unfolding git
    git-Quiet repo args q = record {
      world = λ w. ap view (git-world args (os.git repo args w)) ∙ quiet repo args w q;
    }

    require_repo-Quiet : (repo : String) → Quiet (require_repo os repo)
    unfolding is_git_repo
    require_repo-Quiet repo =
        >>=-Quiet (is_git_repo os repo) _
          (record {
            world = λ w.
                ap view (is_ok-world (git os repo _ w))
                ∙ (git-Quiet repo _ inside_work_tree).world w;
          })
          (λ found. require-Quiet found _)

    require_branch-Quiet : (repo branch : String) → Quiet (require_branch os repo branch)
    unfolding branch_exists
    require_branch-Quiet repo branch =
        >>=-Quiet (branch_exists os repo branch) _
          (record {
            world = λ w.
                ap view (is_ok-world (git os repo _ w))
                ∙ (git-Quiet repo _ (verify branch)).world w;
          })
          (λ found. require-Quiet found _)

    is_dirty-Quiet : (repo : String) → Quiet (is_dirty os repo)
    unfolding is_dirty
    is_dirty-Quiet repo = >>=-Quiet (require_repo os repo) _ (require_repo-Quiet repo) (λ u.
        >>=-Quiet (git os repo _) _ (git-Quiet repo _ porcelain)
          (λ out. record { world = λ w. refl }))

    abbrev merge_args : Worktree → List String
    merge_args wt = "merge" ∷ "--no-edit" ∷ wt.branch ∷ []

    -- What a merge that wrote something has checked first, one check after the other, and what it
    -- ran after the last of them.
    pub record Merged (repo : String) (wt : Worktree) (w : W) : Type 0 where
      pub first : W
      pub second : W
      pub third : W
      pub is_repo : require_repo os repo w ≡ (ok tt, first)
      pub has_branch : require_branch os repo wt.branch first ≡ (ok tt, second)
      pub is_clean : is_dirty os repo second ≡ (ok false, third)
      pub unchanged : view third ≡ view w
      pub ran : (merge os repo wt w).1 ≡ (os.git repo (merge_args wt) third).1

    abbrev run_merge : String → Worktree → TreeExec W (Unit {0})
    run_merge repo wt = do git os repo (merge_args wt); pure tt

    proceed-world :
        (r : Result WorktreeError Output × W)
        → (proceed (λ o. pure {E = WorktreeError} tt) r).1 ≡ r.1
    proceed-world (ok o, w) = refl
    proceed-world (err e, w) = refl

    run_merge-world :
        (repo : String) (wt : Worktree) (w : W)
        → (run_merge repo wt w).1 ≡ (os.git repo (merge_args wt) w).1
    unfolding git
    run_merge-world repo wt w =
        proceed-world (git os repo (merge_args wt) w)
        ∙ git-world (merge_args wt) (os.git repo (merge_args wt) w)

    abbrev if_clean : String → Worktree → Bool → TreeExec W (Unit {0})
    if_clean repo wt dirty = do
      require (not dirty) (dirty_repo (concat "refusing to merge into dirty repo: " repo))
      run_merge repo wt

    -- A dirty repository is refused before `git merge` runs.
    clean_guarded :
        (repo : String) (wt : Worktree) (w : W) (dirty : Bool)
        → ((if_clean repo wt dirty w).1 ≡ w)
          ⊎ ((dirty ≡ false) × ((if_clean repo wt dirty w).1 ≡ (os.git repo (merge_args wt) w).1))
    clean_guarded repo wt w true = inl refl
    clean_guarded repo wt w false = inr (refl, run_merge-world repo wt w)

    -- A merge leaves the commits, the branches and the files of the work trees as they were, or the
    -- repository was found to be one, then to have the branch, and then to be clean, all with these
    -- unchanged, and what it ran after that is `git merge`.
    pub merge_guarded :
        (repo : String) (wt : Worktree) (w : W)
        → (view (merge os repo wt w).1 ≡ view w) ⊎ Merged repo wt w
    unfolding merge
    merge_guarded repo wt w =
        elim (after (require_repo os repo)
          (λ u. require_branch os repo wt.branch >> (is_dirty os repo >>= if_clean repo wt))
          (require_repo-Quiet repo) w) [
            | inl q ↦ inl q
            | inr (u, w1, a, e1, q) ↦
                elim (after (require_branch os repo wt.branch)
                  (λ v. is_dirty os repo >>= if_clean repo wt) (require_branch-Quiet repo wt.branch)
                  w1) [
                    | inl r ↦ inl (ap (λ x. view x.1) q ∙ r ∙ e1)
                    | inr (v, w2, b, e2, r) ↦
                        elim (after (is_dirty os repo) (if_clean repo wt) (is_dirty-Quiet repo)
                          w2) [
                            | inl t ↦ inl (ap (λ x. view x.1) (q ∙ r) ∙ t ∙ e2 ∙ e1)
                            | inr (dirty, w3, c, e3, t) ↦ elim (clean_guarded repo wt w3 dirty) [
                              | inl z ↦
                                  inl (ap (λ x. view x.1) (q ∙ r ∙ t) ∙ ap view z ∙ e3 ∙ e2 ∙ e1)
                              | inr (d, z) ↦ inr (record {
                                first = w1;
                                second = w2;
                                third = w3;
                                is_repo = a;
                                has_branch = b;
                                is_clean = c ∙ ap (λ x. (ok x, w3)) d;
                                unchanged = e3 ∙ e2 ∙ e1;
                                ran = ap (λ x. x.1) (q ∙ r ∙ t) ∙ z;
                              })
                            ]
                          ]
                  ]
          ]
