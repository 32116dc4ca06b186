-- ===== src/Metrics/Classes.antt =====
-- The distribution of the cost classes (crates/divan-trace/src/lib.rs).
use ajan_orkestrasyonu.Prelude.{
  ℕ, ◌+◌, ◌≤◌, ◌<◌, ◌≡◌, refl, subst, false, Bool-cases, inl, inr, List, [], ◌∷◌, count_if, ltb,
  eqb, All, arith, if◌then◌else◌,
}
use ajan_orkestrasyonu.Core.Agent.{CostClass}
use ajan_orkestrasyonu.Metrics.{count_class, distribution}

-- The number that a distribution gives a class, 0 for one that it does not have.
abbrev pub count_at : CostClass → List (CostClass × ℕ) → ℕ
count_at c [] = 0
count_at c ((k, n) ∷ dist) = let rest = count_at c dist in if eqb k c then n else rest

-- Every class is above `b`.
abbrev pub IsAbove : CostClass → List (CostClass × ℕ) → Type 0
IsAbove b dist = All (λ p. b < p.0) dist

-- The classes ascend, and each counts something.
abbrev pub IsDist : List (CostClass × ℕ) → Type 0
IsDist [] = Unit
IsDist ((k, n) ∷ dist) = (1 ≤ n) × IsAbove k dist × IsDist dist

IsAbove-weaken :
    (a b : CostClass) (dist : List (CostClass × ℕ)) → a < b → IsAbove b dist → IsAbove a dist
IsAbove-weaken a b [] h k = tt
IsAbove-weaken a b ((k, n) ∷ dist) h (p, q) = (omega (arith, h, p), IsAbove-weaken a b dist h q)

IsAbove-count_class :
    (b x : CostClass) (dist : List (CostClass × ℕ))
    → b < x
    → IsAbove b dist
    → IsAbove b (count_class x dist)
IsAbove-count_class b x [] h k = (h, tt)
IsAbove-count_class b x ((k, n) ∷ dist) h (p, q) = elim (Bool-cases (eqb k x)) [
  | inl e ↦ rw e (p, q)
  | inr e ↦ elim (Bool-cases (ltb x k)) [
    | inl l ↦ rw (e, l) (h, (p, q))
    | inr l ↦ rw (e, l) (p, IsAbove-count_class b x dist h q)
  ]
]

count_class-IsDist :
    (x : CostClass) (dist : List (CostClass × ℕ)) → IsDist dist → IsDist (count_class x dist)
count_class-IsDist x [] d = (omega arith, tt, tt)
count_class-IsDist x ((k, n) ∷ dist) (p, a, d) = elim (Bool-cases (eqb k x)) [
  | inl e ↦ rw e (omega arith, a, d)
  | inr e ↦ elim (Bool-cases (ltb x k)) [
    | inl l ↦
        let less : x < k = ground (arith, l) in
        rw (e, l) (omega arith, (less, IsAbove-weaken x k dist less a), (p, a, d))
    | inr l ↦
        let less : k < x = ground (arith, e, l) in
        rw (e, l) (p, IsAbove-count_class k x dist less a, count_class-IsDist x dist d)
  ]
]

abbrev hit : CostClass → CostClass → ℕ
hit x c = if eqb x c then 1 else 0

above-count_at :
    (c : CostClass) (dist : List (CostClass × ℕ)) → IsAbove c dist → count_at c dist ≡ 0
above-count_at c [] h = refl
above-count_at c ((k, n) ∷ dist) (p, q) = ground (arith, p, above-count_at c dist q)

count_at-count_class :
    (c x : CostClass) (dist : List (CostClass × ℕ))
    → IsDist dist
    → count_at c (count_class x dist) ≡ hit x c + count_at c dist
count_at-count_class c x [] d = elim (Bool-cases (eqb x c)) [
  | inl e ↦ rw e (omega arith)
  | inr e ↦ rw e (omega arith)
]
count_at-count_class c x ((k, n) ∷ dist) (p, a, d) = elim (Bool-cases (eqb k x)) [
  | inl e ↦ ground (arith, e)
  | inr e ↦ elim (Bool-cases (ltb x k)) [
    | inl l ↦
        let less : x < k = ground (arith, l) in
        let gone = above-count_at x dist (IsAbove-weaken x k dist less a) in
        elim (Bool-cases (eqb x c)) [
          | inl q ↦
              let same : x ≡ c = ground (arith, q) in
              let miss : eqb k c ≡ false = ground (arith, less, same) in
              let absent : count_at c dist ≡ 0 = subst (λ y. count_at y dist ≡ 0) same gone in
              rw (e, l, q, miss, absent) (omega arith)
          | inr q ↦ rw (e, l, q) (omega arith)
        ]
    | inr l ↦
        rw (e, l)
          (elim (Bool-cases (eqb k c)) [
            | inl q ↦
                let miss : eqb x c ≡ false = ground (arith, e, q) in rw (q, miss) (omega arith)
            | inr q ↦ rw q (count_at-count_class c x dist d)
          ])
  ]
]

distribution_from :
    (c : CostClass) (classes : List CostClass) (dist : List (CostClass × ℕ))
    → IsDist dist
    → IsDist (distribution classes dist)
      × (count_at c (distribution classes dist) ≡ count_if (λ x. eqb x c) classes + count_at c dist)
distribution_from c [] dist d = (d, omega arith)
distribution_from c (x ∷ classes) dist d =
    let (keys, counts) =
      distribution_from c classes (count_class x dist) (count_class-IsDist x dist d) in
    let one = count_at-count_class c x dist d in
    (
      keys,
      elim (Bool-cases (eqb x c)) [
        | inl e ↦ rw e (omega (arith, counts, rw e at one))
        | inr e ↦ rw e (omega (arith, counts, rw e at one))
      ],
    )

pub distribution-count_at :
    (c : CostClass) (classes : List CostClass)
    → count_at c (distribution classes []) ≡ count_if (λ x. eqb x c) classes
distribution-count_at c classes = omega (arith, (distribution_from c classes [] tt).1)

pub distribution-IsDist : (classes : List CostClass) → IsDist (distribution classes [])
distribution-IsDist classes = (distribution_from 0 classes [] tt).0
