-- ===== src/Daemon/Router/Costs.antt =====
-- The cost constraints of the router (crates/divan-daemon/src/router.rs), with what the standard
-- library does to their text: `trim`, `strip_prefix` and `parse::<u8>`.
use Prim.Native.Char.{Char, code}
use ajan_orkestrasyonu.Prelude.{
  ℕ, ◌+◌, ◌-◌, ◌*◌, Bool, false, ◌&&◌, ◌||◌, Option, none, some, String, ◌==◌, [], ◌∷◌, any, map_or,
  ltb, leb, eqb, if◌then◌else◌,
}

-- The characters with the property `White_Space`.
abbrev pub is_white : Char → Bool
is_white c =
    let n = code c in
    (leb 9 n && leb n 13)
    || ((leb 8192 n && leb n 8202)
        || any (λ k. eqb n k) (32 ∷ 133 ∷ 160 ∷ 5760 ∷ 8232 ∷ 8233 ∷ 8239 ∷ 8287 ∷ 12288 ∷ []))

abbrev pub trim_start : String → String
trim_start String.[] = ""
trim_start (String.◌∷◌ c s) = let rest = trim_start s in if is_white c then rest else String.◌∷◌ c s

abbrev pub trim_end : String → String
trim_end String.[] = ""
trim_end (String.◌∷◌ c s) =
    let rest = trim_end s in if is_white c && rest == "" then "" else String.◌∷◌ c rest

abbrev pub trim : String → String
trim s = trim_end (trim_start s)

abbrev pub strip_prefix : String → String → Option String
strip_prefix String.[] s = some s
strip_prefix (String.◌∷◌ p ps) String.[] = none
strip_prefix (String.◌∷◌ p ps) (String.◌∷◌ c s) =
    let rest = strip_prefix ps s in if eqb (code p) (code c) then rest else none

-- The digits from here on, after the value `n` so far.
abbrev pub digits : ℕ → String → Option ℕ
digits n String.[] = some n
digits n (String.◌∷◌ c s) =
    let rest = digits (n * 10 + (code c - 48)) s in
    if leb 48 (code c) && leb (code c) 57 then rest else none

abbrev pub in_u8 : ℕ → Option ℕ
in_u8 n = if leb n 255 then some n else none

abbrev pub parse_digits : String → Option ℕ
parse_digits s = if s == "" then none else elim (digits 0 s) [ none ↦ none | some n ↦ in_u8 n ]

-- A leading plus sign is accepted.
abbrev pub parse_u8 : String → Option ℕ
parse_u8 s = elim (strip_prefix "+" s) [ none ↦ parse_digits s | some t ↦ parse_digits t ]

pub data CostOp : Type 0 where
  at_most at_least below above exactly : CostOp

abbrev pub cost_op : String → CostOp × String
cost_op c = elim (strip_prefix "<=" c) [
  | some n ↦ (at_most, n)
  | none ↦ elim (strip_prefix ">=" c) [
    | some n ↦ (at_least, n)
    | none ↦ elim (strip_prefix "<" c) [
      | some n ↦ (below, n)
      | none ↦ elim (strip_prefix ">" c) [
        | some n ↦ (above, n)
        | none ↦ elim (strip_prefix "=" c) [ some n ↦ (exactly, n) | none ↦ (exactly, c) ]
      ]
    ]
  ]
]

abbrev pub meets : CostOp → ℕ → ℕ → Bool
meets at_most value n = leb value n
meets at_least value n = leb n value
meets below value n = ltb value n
meets above value n = ltb n value
meets exactly value n = eqb value n

unfoldable pub cost_matches : String → ℕ → Bool
cost_matches constraint value =
    let (op, num) = cost_op (trim constraint) in
    map_or false (λ n. meets op value n) (parse_u8 (trim num))
