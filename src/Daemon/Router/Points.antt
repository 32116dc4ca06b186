-- ===== src/Daemon/Router/Points.antt =====
-- What the score of a candidate is made of (crates/divan-daemon/src/router.rs).
use ajan_orkestrasyonu.Prelude.{
  ℕ, ◌+◌, ◌≡◌, ◌≢◌, refl, Option, none, some, String, List, [], ◌∷◌, any, arith, Bool-cases, inl,
  inr, Option-cases, ◌==◌, same, same_iff, true, false, IsIn, IsIn-of_any, any_of_IsIn, text_eq,
  text_ne, eq_refl, sym, ◌∙◌, subst,
}
use ajan_orkestrasyonu.Core.AgentTool
use ajan_orkestrasyonu.Core.Agent.{AgentCard}
use ajan_orkestrasyonu.Daemon.Router.Costs.{cost_matches}
use ajan_orkestrasyonu.Daemon.Router.{
  Rule, PreferCond, Tally, score, score_rule, score_cost, score_skills, score_author, score_vendor,
  score_of, zero_score,
}

-- Two points for a cost class that the rule prefers.
pub data CostPoints (c : AgentCard) : Option String → ℕ → Type 0 where
  no_cost : CostPoints c none 0
  preferred : {wish : String} → cost_matches wish c.cost_class ≡ true → CostPoints c (some wish) 2
  other_cost : {wish : String} → cost_matches wish c.cost_class ≡ false → CostPoints c (some wish) 0

-- Two points for having one of the skills that the rule prefers.
pub data SkillPoints (c : AgentCard) : Option (List String) → ℕ → Type 0 where
  no_skills : SkillPoints c none 0
  skilled :
      {wish : List String} (s : String)
      → IsIn s wish
      → IsIn s c.skills
      → SkillPoints c (some wish) 2
  unskilled :
      {wish : List String}
      → ((s : String) → IsIn s wish → ¬ IsIn s c.skills)
      → SkillPoints c (some wish) 0

-- Where the rule wants another vendor than the author's: three points for one, three less for the
-- author's own.
pub data VendorPoints (c : AgentCard)
    : Option AgentCard → Option String → (gain loss : ℕ) → Type 0 where
  no_vendor : {author : Option AgentCard} → VendorPoints c author none 0 0
  unknown_wish :
      {author : Option AgentCard} {wish : String}
      → wish ≢ "author"
      → VendorPoints c author (some wish) 0 0
  no_author : VendorPoints c none (some "author") 0 0
  other_vendor :
      {author : AgentCard} → author.tool ≢ c.tool → VendorPoints c (some author) (some "author") 3 0
  same_vendor :
      {author : AgentCard} → author.tool ≡ c.tool → VendorPoints c (some author) (some "author") 0 3

-- The points over the matched rules: those of the preferences of each, added up.
pub data Points (c : AgentCard) (author : Option AgentCard)
    : List (ℕ × Rule) → (gain loss : ℕ) → Type 0 where
  no_rule : Points c author [] 0 0
  indifferent :
      {i gain loss : ℕ} {r : Rule} {rules : List (ℕ × Rule)}
      → r.prefer ≡ none
      → Points c author rules gain loss
      → Points c author ((i, r) ∷ rules) gain loss
  prefers :
      {i gain loss cost skill more less : ℕ} {r : Rule} {rules : List (ℕ × Rule)} (p : PreferCond)
      → r.prefer ≡ some p
      → CostPoints c p.cost_class cost
      → SkillPoints c p.skills skill
      → VendorPoints c author p.different_vendor_than more less
      → Points c author rules gain loss
      → Points c author ((i, r) ∷ rules) (cost + (skill + (more + gain))) (less + loss)

-- The second tally is the first with so much added and so much taken away.
abbrev Adds : Tally → Tally → ℕ → ℕ → Type 0
Adds s t gain loss = (s.0.gain ≡ t.0.gain + gain) × (s.0.loss ≡ t.0.loss + loss)

cost_points :
    (i : ℕ) (c : AgentCard) (o : Option String) (t : Tally)
    → (n : ℕ) × CostPoints c o n × Adds (score_cost i c o t) t n 0
cost_points i c none t = (0, no_cost, (omega arith, omega arith))
cost_points i c (some wish) t = elim (Bool-cases (cost_matches wish c.cost_class)) [
  | inl e ↦ (2, preferred e, rw e (refl, omega arith))
  | inr e ↦ (0, other_cost e, rw e (omega arith, omega arith))
]

skill_points :
    (i : ℕ) (c : AgentCard) (o : Option (List String)) (t : Tally)
    → (n : ℕ) × SkillPoints c o n × Adds (score_skills i c o t) t n 0
skill_points i c none t = (0, no_skills, (omega arith, omega arith))
skill_points i c (some wish) t =
    let has = λ (s : String). any (λ cs. cs == s) c.skills in
    elim (Bool-cases (any has wish)) [
      | inl e ↦
          let (s, j, h) = IsIn-of_any has wish e in
          let (k, l, m) = IsIn-of_any (λ cs. cs == s) c.skills h in
          (
            2,
            skilled s j (subst (λ x. IsIn x c.skills) (text_eq k s m) l),
            rw e (refl, omega arith),
          )
      | inr e ↦ (
        0,
        unskilled (λ s j l. cc (
            sym e
            ∙ any_of_IsIn has s wish j (any_of_IsIn (λ cs. cs == s) s c.skills l (eq_refl s)))),
        rw e (omega arith, omega arith),
      )
    ]

author_points :
    (i : ℕ) (c : AgentCard) (author : Option AgentCard) (t : Tally)
    → (gain loss : ℕ) × VendorPoints c author (some "author") gain loss
      × Adds (score_author i c author t) t gain loss
author_points i c none t = (0, 0, no_author, (omega arith, omega arith))
author_points i c (some a) t = elim (Bool-cases (same AgentTool.discrete a.tool c.tool)) [
  | inl e ↦ (
    0,
    3,
    same_vendor ((same_iff AgentTool.discrete a.tool c.tool).0 e),
    rw e (omega arith, refl),
  )
  | inr e ↦ (
    3,
    0,
    other_vendor (λ q. cc (sym e ∙ (same_iff AgentTool.discrete a.tool c.tool).1 q)),
    rw e (refl, omega arith),
  )
]

vendor_points :
    (i : ℕ) (c : AgentCard) (author : Option AgentCard) (o : Option String) (t : Tally)
    → (gain loss : ℕ) × VendorPoints c author o gain loss
      × Adds (score_vendor i c author o t) t gain loss
vendor_points i c author none t = (0, 0, no_vendor, (omega arith, omega arith))
vendor_points i c author (some wish) t = elim (Bool-cases (wish == "author")) [
  | inl e ↦
      let (gain, loss, p, a) = author_points i c author t in
      (
        gain,
        loss,
        subst (λ w. VendorPoints c author (some w) gain loss) (sym (text_eq wish "author" e)) p,
        rw e a,
      )
  | inr e ↦ (0, 0, unknown_wish (text_ne wish "author" e), rw e (omega arith, omega arith))
]

score-Points :
    (c : AgentCard) (author : Option AgentCard) (matched : List (ℕ × Rule)) (t : Tally)
    → (gain loss : ℕ) × Points c author matched gain loss
      × Adds (score c author matched t) t gain loss
unfolding score
score-Points c author [] t = (0, 0, no_rule, (omega arith, omega arith))
score-Points c author ((i, r) ∷ matched) t = elim (Option-cases r.prefer) [
  | inl e ↦
      let (gain, loss, p, a) = score-Points c author matched t in
      (gain, loss, indifferent e p, rw e a)
  | inr (p, e) ↦
      let costs = score_cost i c p.cost_class t in
      let skills = score_skills i c p.skills costs in
      let (n, x, ax) = cost_points i c p.cost_class t in
      let (m, y, ay) = skill_points i c p.skills costs in
      let (more, less, z, az) = vendor_points i c author p.different_vendor_than skills in
      let (gain, loss, q, aq) = score-Points c author matched (score_rule i c author (some p) t) in
      (
        n + (m + (more + gain)),
        less + loss,
        prefers p e x y z q,
        rw e (omega (arith, ax.0, ay.0, az.0, aq.0), omega (arith, ax.1, ay.1, az.1, aq.1)),
      )
]

-- The score of a candidate is what the preferences of the matched rules give it, added up: for each,
-- two points for the preferred cost class, two for having a preferred skill, and, where the rule
-- asks for a vendor other than the author's, three points for one and three less for the author's
-- own; nothing else counts.
pub score_exact :
    (author : Option AgentCard) (matched : List (ℕ × Rule)) (c : AgentCard)
    → Points c author matched (score_of author matched c).0.gain (score_of author matched c).0.loss
score_exact author matched c =
    let (gain, loss, p, a) = score-Points c author matched (zero_score, []) in
    let g : (score_of author matched c).0.gain ≡ gain = omega (arith, a.0) in
    let l : (score_of author matched c).0.loss ≡ loss = omega (arith, a.1) in
    subst (λ n. Points c author matched n (score_of author matched c).0.loss) (sym g)
      (subst (λ n. Points c author matched gain n) (sym l) p)
