-- ===== src/Daemon/Scheduler/Slug/Bounds.antt =====
-- A slug is short and branch-safe (crates/divan-daemon/src/scheduler.rs).
use Prim.Native.Char.{Char, code}
use Prim.Native.String.{◌++◌ as concat, char_at}
use Prim.Native.String.append
use ajan_orkestrasyonu.Prelude.{
  ℕ, zero, suc, ◌-◌, ◌≤◌, ◌≡◌, refl, inl, inr, Bool, true, false, not, ◌&&◌, ◌||◌, String, ◌==◌,
  List, [], ◌∷◌, filter, leb, eqb, count, arith, Bool-cases, leb→le, subst, sym,
}
use ajan_orkestrasyonu.Prelude.Files.{split_from}
use ajan_orkestrasyonu.Daemon.Bus.{take_chars}
use ajan_orkestrasyonu.Daemon.Bus.Alerts.{take_chars-count}
use ajan_orkestrasyonu.Daemon.Scheduler.Slug.{
  is_upper, is_plain, to_lower, dash, slug_char, slug_chars, trim_start_dashes, trim_end_dashes,
  trim_dashes, join_dashes, collapse, max_slug_len, slugify,
}

-- A lower-case letter, a digit or a dash.
abbrev pub is_safe : Char → Bool
is_safe c = is_plain c || eqb (code c) dash

abbrev pub all_safe : String → Bool
all_safe String.[] = true
all_safe (String.◌∷◌ c s) = is_safe c && all_safe s

and_both : (a b : Bool) → a && b ≡ true → (a ≡ true) × (b ≡ true)
and_both true b h = (refl, h)
and_both false b h = cc

and_intro : (a b : Bool) → a ≡ true → b ≡ true → a && b ≡ true
and_intro true b h k = k
and_intro false b h k = cc

or_left : (a b : Bool) → a ≡ true → a || b ≡ true
or_left true b h = refl
or_left false b h = cc

one_safe : (c : Char) → is_plain c ≡ true → all_safe (String.◌∷◌ c "") ≡ true
one_safe c h = and_intro (is_safe c) true (or_left (is_plain c) (eqb (code c) dash) h) refl

-- The letter of the table at each of its first places.
abbrev plain_below : ℕ → Bool
plain_below zero = true
plain_below (suc n) = is_plain (char_at "abcdefghijklmnopqrstuvwxyz" n) && plain_below n

below-plain :
    (n k : ℕ)
    → plain_below n ≡ true
    → suc k ≤ n
    → is_plain (char_at "abcdefghijklmnopqrstuvwxyz" k) ≡ true
below-plain zero k h l = absurd (omega arith)
below-plain (suc n) k h l = elim (Bool-cases (eqb k n)) [
  | inl e ↦
      let p : k ≡ n = ground arith in
      subst (λ i. is_plain (char_at "abcdefghijklmnopqrstuvwxyz" i) ≡ true) (sym p)
        (and_both _ (plain_below n) h).0
  | inr e ↦
      below-plain n k (and_both (is_plain (char_at "abcdefghijklmnopqrstuvwxyz" n)) _ h).1
        (ground arith)
]

letters : plain_below 26 ≡ true
letters = refl

all_safe-concat :
    (s t : String) → all_safe s ≡ true → all_safe t ≡ true → all_safe (concat s t) ≡ true
all_safe-concat String.[] t h k = rw (append.nil t) k
all_safe-concat (String.◌∷◌ c s) t h k =
    rw (append.cons c s t) (ground (arith, all_safe-concat s t))

take_chars-safe : (n : ℕ) (s : String) → all_safe s ≡ true → all_safe (take_chars n s) ≡ true
take_chars-safe zero s h = refl
take_chars-safe (suc n) String.[] h = refl
take_chars-safe (suc n) (String.◌∷◌ c s) h = ground (arith, take_chars-safe n s)

upper_at : (c : Char) → is_upper c ≡ true → suc (code c - 65) ≤ 26
upper_at c u =
    let (a, b) = and_both (leb 65 (code c)) (leb (code c) 90) u in
    let h : code c ≤ 90 = leb→le (code c) 90 b in omega arith

slug_char-safe : (c : Char) → all_safe (slug_char c) ≡ true
slug_char-safe c = elim (Bool-cases (is_plain c)) [
  | inl e ↦ rw e (one_safe c e)
  | inr e ↦ elim (Bool-cases (is_upper c)) [
    | inl u ↦
        rw (e, u) (one_safe (to_lower c) (below-plain 26 (code c - 65) letters (upper_at c u)))
    | inr u ↦ rw (e, u) refl
  ]
]

slug_chars-safe : (s : String) → all_safe (slug_chars s) ≡ true
slug_chars-safe String.[] = refl
slug_chars-safe (String.◌∷◌ c s) =
    all_safe-concat (slug_char c) (slug_chars s) (slug_char-safe c) (slug_chars-safe s)

start-safe : (s : String) → all_safe s ≡ true → all_safe (trim_start_dashes s) ≡ true
start-safe String.[] h = refl
start-safe (String.◌∷◌ c s) h = ground (arith, start-safe s)

end-safe : (s : String) → all_safe s ≡ true → all_safe (trim_end_dashes s) ≡ true
end-safe String.[] h = refl
end-safe (String.◌∷◌ c s) h = elim (Bool-cases (eqb (code c) dash && trim_end_dashes s == "")) [
  | inl e ↦ rw e refl
  | inr e ↦
      let (p, q) = and_both (is_safe c) (all_safe s) h in
      rw e (and_intro (is_safe c) (all_safe (trim_end_dashes s)) p (end-safe s q))
]

abbrev all_parts : List String → Bool
all_parts [] = true
all_parts (p ∷ ps) = all_safe p && all_parts ps

split-safe :
    (part s : String)
    → all_safe part ≡ true
    → all_safe s ≡ true
    → all_parts (split_from dash part s) ≡ true
unfolding split_from
split-safe part String.[] h k = ground arith
split-safe part (String.◌∷◌ c s) h k = elim (Bool-cases (eqb (code c) dash)) [
  | inl e ↦ rw e (ground (arith, split-safe "" s))
  | inr e ↦
      let (p, q) = and_both (is_safe c) (all_safe s) k in
      rw e (
        split-safe (concat part (String.◌∷◌ c "")) s
          (all_safe-concat part _ h (and_intro (is_safe c) true p refl)) q)
]

filter-safe :
    (p : String → Bool) (ps : List String) → all_parts ps ≡ true → all_parts (filter p ps) ≡ true
filter-safe p [] h = refl
filter-safe p (x ∷ xs) h = ground (arith, filter-safe p xs)

join-safe : (ps : List String) → all_parts ps ≡ true → all_safe (join_dashes ps) ≡ true
join-safe [] h = refl
join-safe (p ∷ []) h = ground arith
join-safe (p ∷ q ∷ ps) h =
    let (a, b) = and_both (all_safe p) (all_parts (q ∷ ps)) h in
    all_safe-concat p _ a (all_safe-concat "-" (join_dashes (q ∷ ps)) refl (join-safe (q ∷ ps) b))

-- A slug has at most forty characters, all of them lower-case letters, digits or dashes.
pub slugify-safe :
    (title : String) → (count (slugify title) ≤ max_slug_len) × (all_safe (slugify title) ≡ true)
unfolding slugify
slugify-safe title =
    let trimmed = trim_dashes (slug_chars title) in
    let parts = split_from dash "" trimmed in
    (
      take_chars-count max_slug_len (collapse trimmed),
      take_chars-safe max_slug_len (collapse trimmed) (
          join-safe (filter (λ p. not (p == "")) parts) (
            filter-safe (λ p. not (p == "")) parts
              (split-safe "" trimmed refl (
                end-safe (trim_start_dashes (slug_chars title))
                  (start-safe (slug_chars title) (slug_chars-safe title)))))),
    )
