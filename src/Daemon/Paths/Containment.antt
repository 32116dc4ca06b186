-- ===== src/Daemon/Paths/Containment.antt =====
-- What path containment allows and denies (crates/divan-daemon/src/policy.rs).
use ajan_orkestrasyonu.Prelude.{
  ℕ, zero, suc, ◌≡◌, refl, sym, ap, ◌∙◌, ◌≢◌, ◌↔◌, Bool, true, false, String, eq_iff, List, [], ◌∷◌,
  ◌++◌, arith, length, inl, inr, Bool-cases,
}
use mathlib.Core.List.{append_assoc, append-nil}
use ajan_orkestrasyonu.Daemon.Paths.{
  Component, parent_dir, cur_dir, normal, FilePath, PathBuf, pop, walk, names_start_with, target,
  path_within, lexical_abs, normalize_joined,
}

-- `names` lies at or below `root`.
pub names_start_with_iff :
    (names root : List String)
    → (names_start_with names root ≡ true) ↔ ((rest : List String) × (names ≡ root ++ rest))
names_start_with_iff names [] = (λ h. (names, refl), λ h. refl)
names_start_with_iff [] (y ∷ root) = (λ h. cc, λ h. cc (h.1))
names_start_with_iff (x ∷ names) (y ∷ root) =
    let ih = names_start_with_iff names root in
    (
      λ h. let (rest, e) = ih.0 (ground arith) in (rest, ground (arith, eq_iff x y, e)),
      λ h. ground (arith, eq_iff x y, ih.1 (h.0, ground (arith, h.1)), h.1),
    )

-- A path never steps above the directory that it starts in, `depth` levels down.
abbrev pub stays : ℕ → List Component → Bool
stays depth [] = true
stays depth (cur_dir ∷ comps) = stays depth comps
stays depth (normal name ∷ comps) = stays (suc depth) comps
stays zero (parent_dir ∷ comps) = false
stays (suc depth) (parent_dir ∷ comps) = stays depth comps

pop-append :
    (base : List String) (x : String) (xs : List String)
    → pop (base ++ (x ∷ xs)) ≡ base ++ pop (x ∷ xs)
pop-append [] x xs = refl
pop-append (b ∷ []) x xs = refl
pop-append (b ∷ c ∷ base) x xs = ap (λ l. b ∷ l) (pop-append (c ∷ base) x xs)

length-pop : (x : String) (xs : List String) → length (pop (x ∷ xs)) ≡ length xs
length-pop x [] = refl
length-pop x (y ∷ xs) = ap suc (length-pop y xs)

length-push : (xs : List String) (x : String) → length (xs ++ (x ∷ [])) ≡ suc (length xs)
length-push [] x = refl
length-push (y ∷ xs) x = ap suc (length-push xs x)

-- Such a path is walked below the directory, which it leaves untouched.
walk_below :
    (comps : List Component) (base inner : List String)
    → stays (length inner) comps ≡ true
    → walk (base ++ inner) comps ≡ base ++ walk inner comps
unfolding walk
walk_below [] base inner h = refl
walk_below (cur_dir ∷ comps) base inner h = walk_below comps base inner h
walk_below (normal name ∷ comps) base inner h =
    ap (λ out. walk out comps) (append_assoc base inner (name ∷ []))
    ∙ walk_below comps base (inner ++ (name ∷ []))
        (ap (λ n. stays n comps) (length-push inner name) ∙ h)
walk_below (parent_dir ∷ comps) base [] h = cc
walk_below (parent_dir ∷ comps) base (x ∷ inner) h =
    ap (λ out. walk out comps) (pop-append base x inner)
    ∙ walk_below comps base (pop (x ∷ inner)) (ap (λ n. stays n comps) (length-pop x inner) ∙ h)

walk-append : (a b : List Component) (out : List String) → walk out (a ++ b) ≡ walk (walk out a) b
unfolding walk
walk-append [] b out = refl
walk-append (parent_dir ∷ a) b out = walk-append a b (pop out)
walk-append (cur_dir ∷ a) b out = walk-append a b out
walk-append (normal name ∷ a) b out = walk-append a b (out ++ (name ∷ []))

-- Containment holds exactly when the two normalized paths are both absolute or both relative, and
-- the names of the root are the first names of the target.
pub within_iff :
    (cwd path root : FilePath)
    → (path_within cwd path root ≡ true) ↔ (
        ((target cwd path root).absolute ≡ (lexical_abs cwd root).absolute)
        × ((rest : List String) × ((target cwd path root).names
              ≡ (lexical_abs cwd root).names ++ rest)))
unfolding path_within
within_iff cwd path root =
    let n = names_start_with_iff (target cwd path root).names (lexical_abs cwd root).names in
    (λ h. (ground arith, n.0 (ground arith)), λ h. ground (arith, n.1 h.1, h.0))

joined-names :
    (cwd path root : FilePath)
    → path.absolute ≡ false
    → target cwd path root ≡ record {
      absolute = (lexical_abs cwd root).absolute;
      names = walk (lexical_abs cwd root).names path.components;
    }
unfolding normalize_joined
joined-names cwd path root h = rw h

-- A relative path that never steps above the worktree is within it.
pub within_stays :
    (cwd path root : FilePath)
    → path.absolute ≡ false
    → stays 0 path.components ≡ true
    → path_within cwd path root ≡ true
within_stays cwd path root rel h =
    let base = (lexical_abs cwd root).names in
    let joined = joined-names cwd path root rel in
    let below = walk_below path.components base [] h in
    (within_iff cwd path root).1 (
      ap (λ (b : PathBuf). b.absolute) joined,
      (
        walk [] path.components,
        ap (λ (b : PathBuf). b.names) joined
            ∙ ap (λ l. walk l path.components) (sym (append-nil base))
            ∙ below,
      ),
    )

-- The last names of two lists of the same length differ, so neither begins with the other.
differ :
    (base rest more : List String) (x d : String)
    → base ++ (x ∷ rest) ≡ (base ++ (d ∷ [])) ++ more
    → x ≡ d
differ [] rest more x d e = ground arith
differ (b ∷ base) rest more x d e = differ base rest more x d (ground arith)

walk_escape :
    (base : List String) (d x : String) (pre post : List Component)
    → stays 0 pre ≡ true
    → walk [] pre ≡ []
    → stays 0 post ≡ true
    → walk (base ++ (d ∷ [])) (pre ++ (parent_dir ∷ normal x ∷ post)) ≡ base ++ (x ∷ walk [] post)
unfolding walk
walk_escape base d x pre post s w p =
    let root = base ++ (d ∷ []) in
    let back : walk root pre ≡ root =
      ap (λ l. walk l pre) (sym (append-nil root))
      ∙ walk_below pre root [] s
      ∙ ap (λ l. root ++ l) w
      ∙ append-nil root in
    let out : pop root ++ (x ∷ []) ≡ (base ++ (x ∷ [])) ++ [] =
      ap (λ l. l ++ (x ∷ [])) (pop-append base d [] ∙ append-nil base)
      ∙ sym (append-nil (base ++ (x ∷ []))) in
    walk-append pre (parent_dir ∷ normal x ∷ post) root
    ∙ ap (λ l. walk (pop l ++ (x ∷ [])) post) back
    ∙ ap (λ l. walk l post) out
    ∙ walk_below post (base ++ (x ∷ [])) [] p
    ∙ append_assoc base (x ∷ []) (walk [] post)

-- A relative path that returns to the worktree, steps out of it and enters a sibling of another
-- name is denied, whatever follows below the sibling.
pub within_escape :
    (cwd path root : FilePath) (base : List String) (d x : String) (pre post : List Component)
    → path.absolute ≡ false
    → path.components ≡ pre ++ (parent_dir ∷ normal x ∷ post)
    → (lexical_abs cwd root).names ≡ base ++ (d ∷ [])
    → stays 0 pre ≡ true
    → walk [] pre ≡ []
    → stays 0 post ≡ true
    → x ≢ d
    → path_within cwd path root ≡ false
within_escape cwd path root base d x pre post rel comps at s w p ne =
    elim (Bool-cases (path_within cwd path root)) [
      | inr no_way ↦ no_way
      | inl inside ↦
          let (flags, (more, names)) = (within_iff cwd path root).0 inside in
          let walked =
            ap (λ (b : PathBuf). b.names) (joined-names cwd path root rel)
            ∙ ap (λ l. walk l path.components) at
            ∙ ap (λ c. walk (base ++ (d ∷ [])) c) comps
            ∙ walk_escape base d x pre post s w p in
          absurd
            (ne (differ base (walk [] post) more x d (sym walked ∙ names ∙ ap (λ l. l ++ more) at)))
    ]
