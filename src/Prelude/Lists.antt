-- ===== src/Prelude/Lists.antt =====
-- Lists measured by native numbers and searched by Boolean tests.
use Prim.Native.Nat.{ℕ, zero, suc, ◌+◌, ◌≤◌}
use mathlib.Core.Path.{◌≡◌, refl, ap}
use mathlib.Core.Logic.{◌⊎◌, inl, inr, ◌↔◌}
use mathlib.Core.Bool.{Bool, true, false, ◌||◌}
use mathlib.Core.List.{List, [], ◌∷◌, ◌++◌, map}
use mathlib.Core.Option.{Option, none, some}
use native.Mathlib.Omega.{arith}
use ajan_orkestrasyonu.Prelude.Tests.{if◌then◌else◌, Bool-cases}

module _ {ℓ} {A : Type ℓ} where
  abbrev pub length : List A → ℕ
  length [] = 0
  length (x ∷ xs) = suc (length xs)

  abbrev pub filter : (A → Bool) → List A → List A
  filter p [] = []
  filter p (x ∷ xs) = let rest = filter p xs in if p x then x ∷ rest else rest

  abbrev pub any : (A → Bool) → List A → Bool
  any p [] = false
  any p (x ∷ xs) = p x || any p xs

  abbrev pub find : (A → Bool) → List A → Option A
  find p [] = none
  find p (x ∷ xs) = let rest = find p xs in if p x then some x else rest

  -- How many elements pass the test.
  abbrev pub count_if : (A → Bool) → List A → ℕ
  count_if p [] = 0
  count_if p (x ∷ xs) = let rest = count_if p xs in if p x then suc rest else rest

  -- `UPDATE ... WHERE p`: the rows that pass the test are rewritten.
  abbrev pub update_if : (A → Bool) → (A → A) → List A → List A
  update_if p f [] = []
  update_if p f (x ∷ xs) = (if p x then f x else x) ∷ update_if p f xs

  abbrev pub take : ℕ → List A → List A
  take zero xs = []
  take (suc n) [] = []
  take (suc n) (x ∷ xs) = x ∷ take n xs

  pub length-append : (xs ys : List A) → length (xs ++ ys) ≡ length xs + length ys
  length-append [] ys = omega arith
  length-append (x ∷ xs) ys = omega (arith, length-append xs ys)

  pub length-filter : (p : A → Bool) (xs : List A) → length (filter p xs) ≡ count_if p xs
  length-filter p [] = refl
  length-filter p (x ∷ xs) = ground (arith, length-filter p xs)

  pub count_if-le : (p : A → Bool) (xs : List A) → count_if p xs ≤ length xs
  count_if-le p [] = omega arith
  count_if-le p (x ∷ xs) = ground (arith, count_if-le p xs)

  pub any-append : (p : A → Bool) (xs ys : List A) → any p (xs ++ ys) ≡ (any p xs || any p ys)
  any-append p [] ys = refl
  any-append p (x ∷ xs) ys = ground (arith, any-append p xs ys)

  pub filter-append :
      (p : A → Bool) (xs ys : List A) → filter p (xs ++ ys) ≡ filter p xs ++ filter p ys
  filter-append p [] ys = refl
  filter-append p (x ∷ xs) ys = ground (arith, filter-append p xs ys)

-- Membership and what holds of every element, as predicates that compute.
abbrev pub IsIn : {A : Type 0} → A → List A → Type 0
IsIn x [] = ⊥
IsIn x (y ∷ ys) = (x ≡ y) ⊎ IsIn x ys

abbrev pub All : {A : Type 0} → (A → Type 0) → List A → Type 0
All P [] = Unit
All P (x ∷ xs) = P x × All P xs

-- No element stands twice in the list.
abbrev pub Distinct : {A : Type 0} → List A → Type 0
Distinct [] = Unit
Distinct (x ∷ xs) = All (λ y. x ≡ y → ⊥) xs × Distinct xs

module _ {A : Type 0} where
  pub IsIn-append : (x : A) (xs ys : List A) → IsIn x (xs ++ ys) ↔ (IsIn x xs ⊎ IsIn x ys)
  IsIn-append x [] ys = (λ h. inr h, λ h. elim h [ inl i ↦ absurd i | inr i ↦ i ])
  IsIn-append x (y ∷ xs) ys =
      let ih = IsIn-append x xs ys in
      (
        λ h. elim h [
          | inl e ↦ inl (inl e)
          | inr i ↦ elim (ih.0 i) [ inl a ↦ inl (inr a) | inr b ↦ inr b ]
        ],
        λ h. elim h [
          | inl i ↦ elim i [ inl e ↦ inl e | inr a ↦ inr (ih.1 (inl a)) ]
          | inr b ↦ inr (ih.1 (inr b))
        ],
      )

  pub IsIn-filter :
      (p : A → Bool) (x : A) (xs : List A) → IsIn x (filter p xs) ↔ (IsIn x xs × (p x ≡ true))
  IsIn-filter p x [] = (λ h. absurd h, λ h. h.0)
  IsIn-filter p x (y ∷ xs) =
      let ih = IsIn-filter p x xs in (λ h. ground (arith, ih), λ h. ground (arith, ih))

  pub All-get : (P : A → Type 0) (x : A) (xs : List A) → All P xs → IsIn x xs → P x
  All-get P x [] h i = absurd i
  All-get P x (y ∷ xs) h i = elim i [ inl e ↦ rw e h.0 | inr j ↦ All-get P x xs h.1 j ]

  pub IsIn-of_any :
      (p : A → Bool) (xs : List A) → any p xs ≡ true → (x : A) × IsIn x xs × (p x ≡ true)
  IsIn-of_any p [] h = cc
  IsIn-of_any p (x ∷ xs) h = elim (Bool-cases (p x)) [
    | inl e ↦ (x, inl refl, e)
    | inr e ↦ let (y, i, q) = IsIn-of_any p xs (rw e at h) in (y, inr i, q)
  ]

  pub any_of_IsIn : (p : A → Bool) (x : A) (xs : List A) → IsIn x xs → p x ≡ true → any p xs ≡ true
  any_of_IsIn p x [] i e = absurd i
  any_of_IsIn p x (y ∷ xs) i e = elim i [
    | inl q ↦ rw (← q, e)
    | inr j ↦ ground (arith, any_of_IsIn p x xs j e)
  ]

  pub any_of_none :
      (p : A → Bool) (x : A) (xs : List A) → any p xs ≡ false → IsIn x xs → p x ≡ false
  any_of_none p x [] h i = absurd i
  any_of_none p x (y ∷ xs) h i = elim i [
    | inl q ↦ rw q (ground arith)
    | inr j ↦ any_of_none p x xs (ground arith) j
  ]

  pub find-IsIn :
      (p : A → Bool) (xs : List A) (x : A) → find p xs ≡ some x → IsIn x xs × (p x ≡ true)
  find-IsIn p [] x h = cc
  find-IsIn p (y ∷ xs) x h = elim (Bool-cases (p y)) [
    | inl e ↦ ground arith
    | inr e ↦ let (i, q) = find-IsIn p xs x (rw e at h) in (inr i, q)
  ]

  pub find-none_iff : (p : A → Bool) (xs : List A) → (find p xs ≡ none) ↔ (any p xs ≡ false)
  find-none_iff p [] = (λ _. refl, λ _. refl)
  find-none_iff p (x ∷ xs) =
      let ih = find-none_iff p xs in (λ h. ground (arith, ih), λ h. ground (arith, ih))

module _ {A B : Type 0} (f : A → B) where
  pub IsIn-map : (b : B) (xs : List A) → IsIn b (map f xs) → (x : A) × IsIn x xs × (b ≡ f x)
  IsIn-map b [] h = absurd h
  IsIn-map b (x ∷ xs) h = elim h [
    | inl e ↦ (x, inl refl, e)
    | inr i ↦ let (y, j, e) = IsIn-map b xs i in (y, inr j, e)
  ]

  pub map-IsIn : (x : A) (xs : List A) → IsIn x xs → IsIn (f x) (map f xs)
  map-IsIn x [] i = absurd i
  map-IsIn x (y ∷ xs) i = elim i [ inl e ↦ inl (ap f e) | inr j ↦ inr (map-IsIn x xs j) ]

module _ {A : Type 0} where
  -- A filter that every entry passes keeps the list.
  pub filter_all :
      (p : A → Bool) (xs : List A) → ((x : A) → IsIn x xs → p x ≡ true) → filter p xs ≡ xs
  filter_all p [] h = refl
  filter_all p (x ∷ xs) h =
      rw (h x (inl refl)) (ap (λ r. x ∷ r) (filter_all p xs (λ y i. h y (inr i))))

-- What is found among images is the image of what is found.
pub find-map :
    {A B : Type 0} (p : B → Bool) (f : A → B) (xs : List A) (y : B)
    → find p (map f xs) ≡ some y
    → (x : A) × (find (λ a. p (f a)) xs ≡ some x) × (y ≡ f x)
find-map p f [] y h = cc
find-map p f (x ∷ xs) y h = elim (Bool-cases (p (f x))) [
  | inl e ↦ (x, rw e refl, ground arith)
  | inr e ↦ let (z, q, w) = find-map p f xs y (rw e at h) in (z, rw e q, w)
]

pub find-map-none :
    {A B : Type 0} (p : B → Bool) (f : A → B) (xs : List A)
    → find p (map f xs) ≡ none
    → any (λ a. p (f a)) xs ≡ false
find-map-none p f [] h = refl
find-map-none p f (x ∷ xs) h = ground (arith, find-map-none p f xs)

module _ {A : Type 0} (p : A → Bool) (f : A → A) where
  -- An entry of an updated list is an untouched entry or the image of one that was touched.
  pub IsIn-update_if :
      (y : A) (xs : List A)
      → IsIn y (update_if p f xs)
      → (IsIn y xs × (p y ≡ false)) ⊎ ((x : A) × IsIn x xs × (p x ≡ true) × (y ≡ f x))
  IsIn-update_if y [] i = absurd i
  IsIn-update_if y (x ∷ xs) i = elim i [
    | inl e ↦ elim (Bool-cases (p x)) [
      | inl q ↦ inr (x, inl refl, q, (rw q at e))
      | inr q ↦ let same = rw q at e in inl (inl same, rw same q)
    ]
    | inr j ↦ elim (IsIn-update_if y xs j) [
      | inl (k, q) ↦ inl (inr k, q)
      | inr (z, k, q, e) ↦ inr (z, inr k, q, e)
    ]
  ]

pub count_if-map :
    {A B : Type 0} (p : B → Bool) (f : A → B) (xs : List A)
    → count_if p (map f xs) ≡ count_if (λ x. p (f x)) xs
count_if-map p f [] = refl
count_if-map p f (x ∷ xs) = ground (arith, count_if-map p f xs)
