-- ===== src/Prelude/Set.antt =====
-- Rust's `BTreeSet<String>`, as its elements in ascending order without repetition.
use Prim.Native.String.{String}
use mathlib.Core.Path.{◌≡◌}
use mathlib.Core.Logic.{◌⊎◌, inl, inr, ◌↔◌}
use mathlib.Core.Bool.{Bool, true, not, ◌&&◌}
use mathlib.Core.List.{List, [], ◌∷◌}
use native.Mathlib.Omega.{arith}
use text.Mathlib.Text.{◌==◌}
use text.Mathlib.TextEquality.{eq_iff}
use ajan_orkestrasyonu.Prelude.Tests.{if◌then◌else◌, Bool-cases}
use ajan_orkestrasyonu.Prelude.Lists.{IsIn, All, Distinct}
use ajan_orkestrasyonu.Prelude.Order.{text_leb, text_leb_total, text_leb_trans, text_leb_antisymm}

abbrev pub set_insert : String → List String → List String
set_insert x [] = x ∷ []
set_insert x (y ∷ ys) =
    if x == y then y ∷ ys else if text_leb x y then x ∷ y ∷ ys else y ∷ set_insert x ys

abbrev pub set_of : List String → List String
set_of [] = []
set_of (x ∷ xs) = set_insert x (set_of xs)

-- Strictly ascending.
abbrev text_ltb : String → String → Bool
text_ltb s t = text_leb s t && not (s == t)

abbrev pub IsAscending : List String → Type 0
IsAscending [] = Unit
IsAscending (x ∷ xs) = All (λ y. text_ltb x y ≡ true) xs × IsAscending xs

pub IsIn-set_insert :
    (a x : String) (xs : List String) → IsIn a (set_insert x xs) ↔ ((a ≡ x) ⊎ IsIn a xs)
IsIn-set_insert a x [] = (λ h. h, λ h. h)
IsIn-set_insert a x (y ∷ xs) =
    let ih = IsIn-set_insert a x xs in
    (λ h. ground (arith, ih, eq_iff x y), λ h. ground (arith, ih, eq_iff x y))

pub IsIn-set_of : (a : String) (xs : List String) → IsIn a (set_of xs) ↔ IsIn a xs
IsIn-set_of a [] = (λ h. h, λ h. h)
IsIn-set_of a (x ∷ xs) =
    let ih = IsIn-set_of a xs in
    let at = IsIn-set_insert a x (set_of xs) in
    (λ h. ground (arith, ih, at), λ h. ground (arith, ih, at))

text_ltb_trans : (s t u : String) → text_ltb s t ≡ true → text_ltb t u ≡ true → text_ltb s u ≡ true
text_ltb_trans s t u p q = ground (
  arith,
  text_leb_trans s t u,
  text_leb_antisymm s t,
  text_leb_antisymm t u,
  eq_iff s t,
  eq_iff t u,
  eq_iff s u,
)

All-below :
    (x y : String) (xs : List String)
    → text_ltb x y ≡ true
    → All (λ z. text_ltb y z ≡ true) xs
    → All (λ z. text_ltb x z ≡ true) xs
All-below x y [] h a = tt
All-below x y (z ∷ xs) h a = (text_ltb_trans x y z h a.0, All-below x y xs h a.1)

All-set_insert :
    (a x : String) (xs : List String)
    → text_ltb a x ≡ true
    → All (λ z. text_ltb a z ≡ true) xs
    → All (λ z. text_ltb a z ≡ true) (set_insert x xs)
All-set_insert a x [] h t = (h, tt)
All-set_insert a x (y ∷ xs) h t = elim (Bool-cases (x == y)) [
  | inl e ↦ rw e t
  | inr e ↦ elim (Bool-cases (text_leb x y)) [
    | inl l ↦ rw (e, l) (h, t)
    | inr l ↦ rw (e, l) (t.0, All-set_insert a x xs h t.1)
  ]
]

pub set_insert-IsAscending :
    (x : String) (xs : List String) → IsAscending xs → IsAscending (set_insert x xs)
set_insert-IsAscending x [] h = (tt, tt)
set_insert-IsAscending x (y ∷ xs) h = elim (Bool-cases (x == y)) [
  | inl e ↦ rw e h
  | inr e ↦ elim (Bool-cases (text_leb x y)) [
    | inl l ↦
        let below : text_ltb x y ≡ true = ground arith in
        rw (e, l) ((below, All-below x y xs below h.0), h)
    | inr l ↦
        rw (e, l)
          (
            All-set_insert y x xs (ground (arith, text_leb_total x y, eq_iff x y, eq_iff y x)) h.0,
            set_insert-IsAscending x xs h.1,
          )
  ]
]

pub set_of-IsAscending : (xs : List String) → IsAscending (set_of xs)
set_of-IsAscending [] = tt
set_of-IsAscending (x ∷ xs) = set_insert-IsAscending x (set_of xs) (set_of-IsAscending xs)

Distinct-below :
    (x : String) (xs : List String) → All (λ y. text_ltb x y ≡ true) xs → All (λ y. x ≡ y → ⊥) xs
Distinct-below x [] h = tt
Distinct-below x (y ∷ xs) h = (λ e. ground (arith, h.0, eq_iff x y), Distinct-below x xs h.1)

pub IsAscending-Distinct : (xs : List String) → IsAscending xs → Distinct xs
IsAscending-Distinct [] h = tt
IsAscending-Distinct (x ∷ xs) h = (Distinct-below x xs h.0, IsAscending-Distinct xs h.1)
