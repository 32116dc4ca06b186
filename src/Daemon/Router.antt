-- ===== src/Daemon/Router.antt =====
-- The cost router (crates/divan-daemon/src/router.rs), on rules that are parsed. A matched rule is
-- carried with its index, which is what `self.rules[i]` looks up.
pub mod Costs
pub mod Eligible
pub mod Winner
pub mod Points
use Prim.Native.String.{◌++◌ as concat}
use ajan_orkestrasyonu.Prelude.{
  ℕ, suc, ◌+◌, Bool, true, false, not, ◌&&◌, ◌||◌, Option, none, some, String, ◌==◌, List, [], ◌∷◌,
  ◌++◌, map, filter, any, map_or, ltb, same, if◌then◌else◌, Result, ok, err,
}
use ajan_orkestrasyonu.Prelude.Order.{text_leb}
use ajan_orkestrasyonu.Prelude.Decimal.{show}
use ajan_orkestrasyonu.Core.Ids.{AgentId}
use ajan_orkestrasyonu.Core.AgentTool
use ajan_orkestrasyonu.Core.AgentTool.{AgentTool}
use ajan_orkestrasyonu.Core.Agent.{AgentCard}
use ajan_orkestrasyonu.Core.TaskKind
use ajan_orkestrasyonu.Core.TaskKind.{TaskKind}
use ajan_orkestrasyonu.Daemon.Router.Costs.{cost_matches}

pub record MatchCond : Type 0 where
  pub kind : Option TaskKind
  pub multi_turn : Option Bool

pub record PreferCond : Type 0 where
  pub cost_class : Option String
  pub skills : Option (List String)
  pub different_vendor_than : Option String

pub record ExcludeCond : Type 0 where
  pub tool : Option AgentTool
  pub multi_turn : Option Bool

pub record Rule : Type 0 where
  pub match_ : MatchCond
  pub prefer : Option PreferCond
  pub exclude : Option ExcludeCond

pub record RouteTask : Type 0 where
  pub kind : TaskKind
  pub multi_turn : Bool

pub record Decision : Type 0 where
  pub agent : AgentId
  pub matched_rules : List ℕ
  pub reasons : List String

-- `NoCandidate`
pub data RouterError : Type 0 where
  no_candidate : TaskKind → RouterError

abbrev pub flag_is : Bool → Bool → Bool
flag_is true b = b
flag_is false b = not b

unfoldable pub applies : MatchCond → RouteTask → Bool
applies m task =
    if not (map_or true (λ k. same TaskKind.discrete k task.kind) m.kind)
    then false
    else if not (map_or true (λ t. flag_is t task.multi_turn) m.multi_turn)
    then false
    else true

abbrev pub matched_from : ℕ → List Rule → RouteTask → List (ℕ × Rule)
matched_from i [] task = []
matched_from i (r ∷ rules) task =
    let rest = matched_from (suc i) rules task in
    if applies r.match_ task then (i, r) ∷ rest else rest

abbrev pub is_excluded : ExcludeCond → AgentCard → Bool
is_excluded ex c =
    map_or false (λ t. same AgentTool.discrete t c.tool) ex.tool
    || map_or false (λ m. flag_is m c.multi_turn) ex.multi_turn

abbrev pub retain : Rule → List AgentCard → List AgentCard
retain r pool = map_or pool (λ ex. filter (λ c. not (is_excluded ex c)) pool) r.exclude

abbrev pub retain_all : List (ℕ × Rule) → List AgentCard → List AgentCard
retain_all [] pool = pool
retain_all ((i, r) ∷ matched) pool = retain_all matched (retain r pool)

unfoldable pub pool_of : List (ℕ × Rule) → RouteTask → List AgentCard → List AgentCard
pool_of matched task candidates =
    retain_all matched (filter (λ c. not task.multi_turn || c.multi_turn) candidates)

-- An `i32` score: what was added to it and what was taken away.
pub record Score : Type 0 where
  pub gain : ℕ
  pub loss : ℕ

abbrev pub Tally : Type 0
Tally = Score × List String

abbrev pub add : ℕ → String → Tally → Tally
add n reason (s, reasons) = (record s { gain = s.gain + n }, reasons ++ (reason ∷ []))

abbrev pub take_away : ℕ → Tally → Tally
take_away n (s, reasons) = (record s { loss = s.loss + n }, reasons)

abbrev pub rule_text : ℕ → String → String
rule_text i rest = concat "rule " (concat (show i) (concat ": " rest))

abbrev pub score_cost : ℕ → AgentCard → Option String → Tally → Tally
score_cost i c none t = t
score_cost i c (some cc) t =
    if cost_matches cc c.cost_class
    then add 2 (rule_text i (concat c.id (concat " cost_class " cc))) t
    else t

abbrev pub score_skills : ℕ → AgentCard → Option (List String) → Tally → Tally
score_skills i c none t = t
score_skills i c (some skills) t =
    if any (λ s. any (λ cs. cs == s) c.skills) skills
    then add 2 (rule_text i (concat c.id " has preferred skill")) t
    else t

abbrev pub score_author : ℕ → AgentCard → Option AgentCard → Tally → Tally
score_author i c none t = t
score_author i c (some a) t =
    if not (same AgentTool.discrete a.tool c.tool)
    then add 3 (rule_text i (concat c.id (concat " is a different vendor than author " a.id))) t
    else take_away 3 t

abbrev pub score_vendor : ℕ → AgentCard → Option AgentCard → Option String → Tally → Tally
score_vendor i c author none t = t
score_vendor i c author (some dv) t = if dv == "author" then score_author i c author t else t

abbrev pub score_rule : ℕ → AgentCard → Option AgentCard → Option PreferCond → Tally → Tally
score_rule i c author none t = t
score_rule i c author (some p) t =
    score_vendor i c author p.different_vendor_than
      (score_skills i c p.skills (score_cost i c p.cost_class t))

-- The loop over the matched rules.
unfoldable pub score : AgentCard → Option AgentCard → List (ℕ × Rule) → Tally → Tally
score c author [] t = t
score c author ((i, r) ∷ matched) t = score c author matched (score_rule i c author r.prefer t)

abbrev pub zero_score : Score
zero_score = record { gain = 0; loss = 0 }

abbrev pub score_of : Option AgentCard → List (ℕ × Rule) → AgentCard → Tally
score_of author matched c = score c author matched (zero_score, [])

abbrev pub Scored : Type 0
Scored = Score × AgentCard

abbrev pub scored : Option AgentCard → List (ℕ × Rule) → List AgentCard → List Scored
scored author matched pool = map (λ c. ((score_of author matched c).0, c)) pool

abbrev pub reasons_of : Option AgentCard → List (ℕ × Rule) → List AgentCard → List String
reasons_of author matched [] = []
reasons_of author matched (c ∷ pool) =
    (score_of author matched c).1 ++ reasons_of author matched pool

abbrev pub higher : Score → Score → Bool
higher s t = ltb (t.gain + s.loss) (s.gain + t.loss)

-- The comparison of `max_by` says `Greater`.
unfoldable pub outranks : Scored → Scored → Bool
outranks (s, c) (t, d) =
    if higher s t
    then true
    else if higher t s
    then false
    else if c.multi_turn && not d.multi_turn
    then true
    else if not c.multi_turn && d.multi_turn
    then false
    else if ltb c.cost_class d.cost_class
    then true
    else if ltb d.cost_class c.cost_class
    then false
    else not (text_leb d.id c.id)

-- `max_by` keeps the later of two that compare as equal.
unfoldable pub max_from : Scored → List Scored → Scored
max_from best [] = best
max_from best (x ∷ rest) = let next = (if outranks best x then best else x) in max_from next rest

abbrev pub decide :
    RouteTask → Option AgentCard → List (ℕ × Rule) → List AgentCard → Result RouterError Decision
decide task author matched [] = err (no_candidate task.kind)
decide task author matched (c ∷ pool) = ok (record {
  agent = (max_from ((score_of author matched c).0, c) (scored author matched pool)).1.id;
  matched_rules = map (λ m. m.0) matched;
  reasons = reasons_of author matched (c ∷ pool);
})

unfoldable pub pick :
    List Rule → RouteTask → List AgentCard → Option AgentCard → Result RouterError Decision
pick rules task candidates author =
    let matched = matched_from 0 rules task in
    decide task author matched (pool_of matched task candidates)
