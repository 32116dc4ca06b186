-- ===== src/Prelude/Sort.antt =====
-- `ORDER BY`: a stable insertion sort by a Boolean order.
use mathlib.Core.Path.{◌≡◌, refl}
use mathlib.Core.Logic.{◌⊎◌, inl, inr, ◌↔◌}
use mathlib.Core.Bool.{Bool, true, false}
use mathlib.Core.List.{List, [], ◌∷◌}
use mathlib.Core.Option.{some}
use native.Mathlib.Omega.{arith}
use ajan_orkestrasyonu.Prelude.Tests.{if◌then◌else◌, Bool-cases}
use ajan_orkestrasyonu.Prelude.Lists.{IsIn, All, All-get, find, length, count_if}

module _ {ℓ} {A : Type ℓ} (le : A → A → Bool) where
  abbrev pub insert : A → List A → List A
  insert x [] = x ∷ []
  insert x (y ∷ ys) = if le x y then x ∷ y ∷ ys else y ∷ insert x ys

  abbrev pub sort : List A → List A
  sort [] = []
  sort (x ∷ xs) = insert x (sort xs)

abbrev pub IsSorted : {A : Type 0} → (A → A → Bool) → List A → Type 0
IsSorted le [] = Unit
IsSorted le (x ∷ xs) = All (λ y. le x y ≡ true) xs × IsSorted le xs

module _ {A : Type 0} (le : A → A → Bool) where
  pub IsIn-insert : (a x : A) (xs : List A) → IsIn a (insert le x xs) ↔ ((a ≡ x) ⊎ IsIn a xs)
  IsIn-insert a x [] = (λ h. h, λ h. h)
  IsIn-insert a x (y ∷ xs) =
      let ih = IsIn-insert a x xs in (λ h. ground (arith, ih), λ h. ground (arith, ih))

  pub IsIn-sort : (a : A) (xs : List A) → IsIn a (sort le xs) ↔ IsIn a xs
  IsIn-sort a [] = (λ h. h, λ h. h)
  IsIn-sort a (x ∷ xs) =
      let ih = IsIn-sort a xs in
      let at = IsIn-insert a x (sort le xs) in
      (λ h. ground (arith, ih, at), λ h. ground (arith, ih, at))

  pub length-insert : (x : A) (xs : List A) → length (insert le x xs) ≡ length (x ∷ xs)
  length-insert x [] = refl
  length-insert x (y ∷ xs) = ground (arith, length-insert x xs)

  pub length-sort : (xs : List A) → length (sort le xs) ≡ length xs
  length-sort [] = refl
  length-sort (x ∷ xs) = ground (arith, length-sort xs, length-insert x (sort le xs))

  count_if-insert :
      (p : A → Bool) (x : A) (xs : List A) → count_if p (insert le x xs) ≡ count_if p (x ∷ xs)
  count_if-insert p x [] = refl
  count_if-insert p x (y ∷ xs) = ground (arith, count_if-insert p x xs)

  -- Sorting keeps how many entries pass a test.
  pub count_if-sort : (p : A → Bool) (xs : List A) → count_if p (sort le xs) ≡ count_if p xs
  count_if-sort p [] = refl
  count_if-sort p (x ∷ xs) = ground (arith, count_if-sort p xs, count_if-insert p x (sort le xs))

module _ {A : Type 0} (le : A → A → Bool) (total : (x y : A) → le x y ≡ false → le y x ≡ true)
    (trans : (x y z : A) → le x y ≡ true → le y z ≡ true → le x z ≡ true) where
  All-trans :
      (x y : A) (xs : List A)
      → le x y ≡ true
      → All (λ z. le y z ≡ true) xs
      → All (λ z. le x z ≡ true) xs
  All-trans x y [] h a = tt
  All-trans x y (z ∷ xs) h a = (trans x y z h a.0, All-trans x y xs h a.1)

  All-insert :
      (a x : A) (xs : List A)
      → le a x ≡ true
      → All (λ z. le a z ≡ true) xs
      → All (λ z. le a z ≡ true) (insert le x xs)
  All-insert a x [] h t = (h, tt)
  All-insert a x (y ∷ xs) h t = elim (Bool-cases (le x y)) [
    | inl e ↦ rw e (h, t)
    | inr e ↦ rw e (t.0, All-insert a x xs h t.1)
  ]

  pub insert-IsSorted : (x : A) (xs : List A) → IsSorted le xs → IsSorted le (insert le x xs)
  insert-IsSorted x [] h = (tt, tt)
  insert-IsSorted x (y ∷ xs) h = elim (Bool-cases (le x y)) [
    | inl e ↦ rw e ((e, All-trans x y xs e h.0), h)
    | inr e ↦ rw e (All-insert y x xs (total x y e) h.0, insert-IsSorted x xs h.1)
  ]

  pub sort-IsSorted : (xs : List A) → IsSorted le (sort le xs)
  sort-IsSorted [] = tt
  sort-IsSorted (x ∷ xs) = insert-IsSorted x (sort le xs) (sort-IsSorted xs)

-- In a sorted list the first element that passes a test is below all others that pass it.
pub find-le :
    {A : Type 0} (le : A → A → Bool) (le_refl : (x : A) → le x x ≡ true) (p : A → Bool)
    (xs : List A) (x y : A)
    → IsSorted le xs
    → find p xs ≡ some x
    → IsIn y xs
    → p y ≡ true
    → le x y ≡ true
find-le le le_refl p [] x y s f i q = absurd i
find-le le le_refl p (z ∷ xs) x y s f i q = elim (Bool-cases (p z)) [
  | inl e ↦
      let same : z ≡ x = ground arith in
      elim i [
        | inl j ↦ rw (j, same) (le_refl x)
        | inr j ↦ rw (← same) (All-get (λ w. le z w ≡ true) y xs s.0 j)
      ]
  | inr e ↦ elim i [
    | inl j ↦ ground arith
    | inr j ↦ find-le le le_refl p xs x y s.1 (ground arith) j q
  ]
]
