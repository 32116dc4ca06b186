-- ===== src/Daemon/Router/Winner.antt =====
-- Which agent the router picks (crates/divan-daemon/src/router.rs).
use ajan_orkestrasyonu.Prelude.{
  ◌+◌, ◌<◌, ◌≡◌, refl, sym, ap, subst, ◌↔◌, ◌⊎◌, inl, inr, true, false, Option, List, [], ◌∷◌, map,
  IsIn, IsIn-map, map-IsIn, Bool-cases, arith, ok, err,
}
use ajan_orkestrasyonu.Prelude.Order.{text_leb, text_leb_refl, text_leb_total, text_leb_trans}
use ajan_orkestrasyonu.Core.Agent.{AgentCard}
use ajan_orkestrasyonu.Daemon.Router.{
  Rule, RouteTask, Decision, no_candidate, matched_from, pool_of, Scored, score_of, outranks,
  max_from, decide, pick,
}
use ajan_orkestrasyonu.Daemon.Router.Eligible.{IsEligible, pool_of-IsEligible}

-- The order of the comparison.
outranks_irrefl : (a : Scored) → outranks a a ≡ false
unfolding outranks
outranks_irrefl a = ground (arith, text_leb_refl a.1.id)

outranks_asym : (a b : Scored) → outranks a b ≡ true → outranks b a ≡ false
unfolding outranks
outranks_asym a b h = ground (arith, text_leb_total b.1.id a.1.id)

outranks_trans :
    (a b c : Scored) → outranks b a ≡ false → outranks c b ≡ false → outranks c a ≡ false
unfolding outranks
outranks_trans a b c p q = ground (arith, text_leb_trans a.1.id b.1.id c.1.id)

max_from-IsIn : (best : Scored) (xs : List Scored) → IsIn (max_from best xs) (best ∷ xs)
unfolding max_from
max_from-IsIn best [] = inl refl
max_from-IsIn best (x ∷ xs) = elim (Bool-cases (outranks best x)) [
  | inl e ↦
      let step : max_from best (x ∷ xs) ≡ max_from best xs = rw e refl in
      subst (λ y. IsIn y (best ∷ x ∷ xs)) (sym step)
        (elim (max_from-IsIn best xs) [ inl q ↦ inl q | inr i ↦ inr (inr i) ])
  | inr e ↦
      let step : max_from best (x ∷ xs) ≡ max_from x xs = rw e refl in
      subst (λ y. IsIn y (best ∷ x ∷ xs)) (sym step) (inr (max_from-IsIn x xs))
]

max_from-top :
    (best : Scored) (xs : List Scored) (y : Scored)
    → IsIn y (best ∷ xs)
    → outranks y (max_from best xs) ≡ false
unfolding max_from
max_from-top best [] y i = elim i [ inl e ↦ rw e (outranks_irrefl best) | inr j ↦ absurd j ]
max_from-top best (x ∷ xs) y i = elim (Bool-cases (outranks best x)) [
  | inl e ↦
      let top = max_from-top best xs in
      rw e (elim i [
        | inl q ↦ top y (inl q)
        | inr j ↦ elim j [
          | inl q ↦ rw q (
              outranks_trans (max_from best xs) best x (top best (inl refl))
                (outranks_asym best x e))
          | inr k ↦ top y (inr k)
        ]
      ])
  | inr e ↦
      let top = max_from-top x xs in
      rw e (elim i [
        | inl q ↦ rw q (outranks_trans (max_from x xs) x best (top x (inl refl)) e)
        | inr j ↦ top y j
      ])
]

-- The order of the comparison in `pick`: by score; then a multi-turn agent; then the cheaper; then the smaller id.
abbrev pub IsBetter : Scored → Scored → Type 0
IsBetter (s, c) (t, d) =
    (t.gain + s.loss < s.gain + t.loss)
    ⊎ ((s.gain + t.loss ≡ t.gain + s.loss)
        × (((c.multi_turn ≡ true) × (d.multi_turn ≡ false))
            ⊎ ((c.multi_turn ≡ d.multi_turn)
                × ((c.cost_class < d.cost_class)
                    ⊎ ((c.cost_class ≡ d.cost_class) × (text_leb d.id c.id ≡ false))))))

IsBetter-outranks : (a b : Scored) → IsBetter a b → outranks a b ≡ true
unfolding outranks
IsBetter-outranks a b h = ground arith

-- A pick that succeeds names a candidate that is eligible, and no eligible candidate is better.
pub pick-winner :
    (rules : List Rule) (task : RouteTask) (candidates : List AgentCard) (author : Option AgentCard)
    (d : Decision)
    → pick rules task candidates author ≡ ok d
    → (c : AgentCard) × (d.agent ≡ c.id)
      × IsIn c candidates
      × IsEligible rules task c
      × ((a : AgentCard)
          → IsIn a candidates
          → IsEligible rules task a
          → let rank = λ (x : AgentCard). (score_of author (matched_from 0 rules task) x).0 in
            IsBetter (rank a, a) (rank c, c) → ⊥)
unfolding pick
pick-winner rules task candidates author d h =
    decided (pool_of (matched_from 0 rules task) task candidates)
      (pool_of-IsEligible rules task candidates) h
  where
    decided :
        (pool : List AgentCard)
        → ((c : AgentCard) → IsIn c pool ↔ (IsIn c candidates × IsEligible rules task c))
        → decide task author (matched_from 0 rules task) pool ≡ ok d
        → (c : AgentCard) × (d.agent ≡ c.id)
          × IsIn c candidates
          × IsEligible rules task c
          × ((a : AgentCard)
              → IsIn a candidates
              → IsEligible rules task a
              → let rank = λ (x : AgentCard). (score_of author (matched_from 0 rules task) x).0 in
                IsBetter (rank a, a) (rank c, c) → ⊥)
    decided [] exact q = cc
    decided (x ∷ pool) exact q =
        let ranked : AgentCard → Scored =
          λ y. ((score_of author (matched_from 0 rules task) y).0, y) in
        let best = max_from (ranked x) (map ranked pool) in
        let (c, i, e) =
          IsIn-map ranked best (x ∷ pool) (max_from-IsIn (ranked x) (map ranked pool)) in
        let (here, fits) = (exact c).0 i in
        (
          c,
          ground (arith, ap (λ (y : Scored). y.1.id) e),
          here,
          fits,
          λ a k w better.
              let below =
                max_from-top (ranked x) (map ranked pool) (ranked a)
                  (map-IsIn ranked a (x ∷ pool) ((exact a).1 (k, w))) in
              cc (IsBetter-outranks (ranked a) (ranked c) better),
        )

-- A pick fails exactly when no candidate is eligible.
pub pick_err_iff :
    (rules : List Rule) (task : RouteTask) (candidates : List AgentCard) (author : Option AgentCard)
    → (pick rules task candidates author ≡ err (no_candidate task.kind))
      ↔ ((c : AgentCard) → IsIn c candidates → IsEligible rules task c → ⊥)
unfolding pick
pick_err_iff rules task candidates author =
    decided (pool_of (matched_from 0 rules task) task candidates)
      (pool_of-IsEligible rules task candidates)
  where
    decided :
        (pool : List AgentCard)
        → ((c : AgentCard) → IsIn c pool ↔ (IsIn c candidates × IsEligible rules task c))
        → (decide task author (matched_from 0 rules task) pool ≡ err (no_candidate task.kind))
          ↔ ((c : AgentCard) → IsIn c candidates → IsEligible rules task c → ⊥)
    decided [] exact = ((λ q c i e. (exact c).1 (i, e)), λ h. refl)
    decided (x ∷ pool) exact =
        ((λ q. cc), λ h. let (i, e) = (exact x).0 (inl refl) in absurd (h x i e))
