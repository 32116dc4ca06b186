-- ===== src/Daemon/Paths.antt =====
-- The lexical path containment of the policy engine (crates/divan-daemon/src/policy.rs). A path is
-- the text that `display()` shows and what `std::path` reads from it: whether it is absolute, and
-- its components.
pub mod Containment
use ajan_orkestrasyonu.Prelude.{
  Bool, true, false, ◌&&◌, not, String, ◌==◌, List, [], ◌∷◌, ◌++◌, if◌then◌else◌,
}

pub data Component : Type 0 where
  parent_dir cur_dir : Component
  normal : String → Component

pub record FilePath : Type 0 where
  pub text : String
  pub absolute : Bool
  pub components : List Component

-- A normalized path: the buffer `out` of the loop.
pub record PathBuf : Type 0 where
  pub absolute : Bool
  pub names : List String

-- `PathBuf::pop` on names: the last one goes, the root and the empty path stay.
abbrev pub pop : List String → List String
pop [] = []
pop (x ∷ []) = []
pop (x ∷ y ∷ rest) = x ∷ pop (y ∷ rest)

-- The loop of `lexical_normalize`.
unfoldable pub walk : List String → List Component → List String
walk out [] = out
walk out (parent_dir ∷ comps) = walk (pop out) comps
walk out (cur_dir ∷ comps) = walk out comps
walk out (normal name ∷ comps) = walk (out ++ (name ∷ [])) comps

unfoldable pub lexical_normalize : FilePath → PathBuf
unfolding walk
lexical_normalize p = record { absolute = p.absolute; names = walk [] p.components }

-- `lexical_normalize(&base.join(p))` for a relative `p`: the loop runs on through the components
-- of `base`, then through those of `p`.
unfoldable pub normalize_joined : PathBuf → FilePath → PathBuf
unfolding walk
normalize_joined base p = record { absolute = base.absolute; names = walk base.names p.components }

-- `cwd` is the working directory, `/` where it cannot be read.
unfoldable pub lexical_abs : FilePath → FilePath → PathBuf
unfolding lexical_normalize normalize_joined
lexical_abs cwd p =
    if p.absolute then lexical_normalize p else normalize_joined (lexical_normalize cwd) p

abbrev same_flag : Bool → Bool → Bool
same_flag true b = b
same_flag false b = not b

-- `Path::starts_with` compares whole components.
abbrev pub names_start_with : List String → List String → Bool
names_start_with names [] = true
names_start_with [] (y ∷ prefix) = false
names_start_with (x ∷ names) (y ∷ prefix) = x == y && names_start_with names prefix

abbrev pub starts_with : PathBuf → PathBuf → Bool
starts_with p root = same_flag p.absolute root.absolute && names_start_with p.names root.names

abbrev pub target : FilePath → FilePath → FilePath → PathBuf
target cwd path root =
    if path.absolute then lexical_normalize path else normalize_joined (lexical_abs cwd root) path

unfoldable pub path_within : FilePath → FilePath → FilePath → Bool
path_within cwd path root = starts_with (target cwd path root) (lexical_abs cwd root)
