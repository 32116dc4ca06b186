-- ===== src/Prelude/Files.antt =====
-- The operating system as the code sees it: a process that runs `git`, the file system, the clock.
-- `W` is the state of the world, which every call may change.
use ajan_orkestrasyonu.Prelude.{
  ℕ, Bool, false, ◌||◌, String, ◌==◌, List, [], ◌∷◌, any, if◌then◌else◌, Result, eqb,
}
use Prim.Native.String.{◌++◌ as concat}
use Prim.Native.Char.{code}

-- What a finished process leaves: whether its status is zero, the text of the status, its output.
pub record Output : Type 0 where
  pub success : Bool
  pub status : String
  pub stdout : String
  pub stderr : String

-- Fallible calls give the text of their `io::Error`.
pub record Os (W : Type 0) : Type 0 where
  pub git : (repo : String) → (args : List String) → W → Result String Output × W
  pub exists : (path : String) → W → Bool
  pub create_dir_all : (path : String) → W → Result String (Unit {0}) × W
  pub write : (path : String) → (content : String) → W → Result String (Unit {0}) × W
  pub read : (path : String) → W → Result String String × W
  pub now_ms : W → ℕ × W

-- The parts of a text between the characters of code `sep`.
unfoldable pub split_from : ℕ → String → String → List String
split_from sep part String.[] = part ∷ []
split_from sep part (String.◌∷◌ c s) =
    let stop = split_from sep "" s in
    let go = split_from sep (concat part (String.◌∷◌ c "")) s in
    if eqb (code c) sep then part ∷ stop else go

-- The code of a slash.
abbrev pub slash : ℕ
slash = 47

-- `Path::is_absolute`
abbrev pub is_absolute : String → Bool
is_absolute String.[] = false
is_absolute (String.◌∷◌ c s) = eqb (code c) slash

-- Some component is `ParentDir`.
abbrev pub has_parent_dir : String → Bool
has_parent_dir p = any (λ c. c == "..") (split_from slash "" p)

abbrev pub ends_with_slash : String → Bool
ends_with_slash String.[] = false
ends_with_slash (String.◌∷◌ c s) =
    let rest = ends_with_slash s in if s == "" then eqb (code c) slash else rest

-- `Path::join`: an absolute path replaces the root.
unfoldable pub path_join : String → String → String
path_join root rel =
    if is_absolute rel
    then rel
    else if root == "" || ends_with_slash root
    then concat root rel
    else concat root (concat "/" rel)
