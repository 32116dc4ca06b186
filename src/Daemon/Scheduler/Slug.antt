-- ===== src/Daemon/Scheduler/Slug.antt =====
-- Branch-safe slugs (crates/divan-daemon/src/scheduler.rs).
pub mod Bounds
use Prim.Native.Char.{Char, code}
use Prim.Native.String.{◌++◌ as concat, char_at}
use ajan_orkestrasyonu.Prelude.{
  ℕ, ◌-◌, Bool, not, ◌&&◌, ◌||◌, String, ◌==◌, List, [], ◌∷◌, filter, leb, eqb, if◌then◌else◌,
}
use ajan_orkestrasyonu.Prelude.Files.{split_from}
use ajan_orkestrasyonu.Daemon.Bus.{take_chars}

abbrev pub between : ℕ → ℕ → Char → Bool
between lo hi c = leb lo (code c) && leb (code c) hi

abbrev pub is_upper : Char → Bool
is_upper c = between 65 90 c

-- A lower-case letter or a digit.
abbrev pub is_plain : Char → Bool
is_plain c = between 97 122 c || between 48 57 c

abbrev pub to_lower : Char → Char
to_lower c = char_at "abcdefghijklmnopqrstuvwxyz" (code c - 65)

-- The code of `-`.
abbrev pub dash : ℕ
dash = 45

abbrev pub slug_char : Char → String
slug_char c =
    if is_plain c then String.◌∷◌ c "" else if is_upper c then String.◌∷◌ (to_lower c) "" else "-"

abbrev pub slug_chars : String → String
slug_chars String.[] = ""
slug_chars (String.◌∷◌ c s) = concat (slug_char c) (slug_chars s)

abbrev pub trim_start_dashes : String → String
trim_start_dashes String.[] = ""
trim_start_dashes (String.◌∷◌ c s) =
    let rest = trim_start_dashes s in if eqb (code c) dash then rest else String.◌∷◌ c s

abbrev pub trim_end_dashes : String → String
trim_end_dashes String.[] = ""
trim_end_dashes (String.◌∷◌ c s) =
    let rest = trim_end_dashes s in
    if eqb (code c) dash && rest == "" then "" else String.◌∷◌ c rest

-- `trim_matches('-')`
abbrev pub trim_dashes : String → String
trim_dashes s = trim_end_dashes (trim_start_dashes s)

-- `join("-")`
abbrev pub join_dashes : List String → String
join_dashes [] = ""
join_dashes (p ∷ []) = p
join_dashes (p ∷ q ∷ rest) = concat p (concat "-" (join_dashes (q ∷ rest)))

abbrev pub collapse : String → String
collapse s = join_dashes (filter (λ p. not (p == "")) (split_from dash "" s))

abbrev pub max_slug_len : ℕ
max_slug_len = 40

unfoldable pub slugify : String → String
slugify title = take_chars max_slug_len (collapse (trim_dashes (slug_chars title)))
