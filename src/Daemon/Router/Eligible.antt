-- ===== src/Daemon/Router/Eligible.antt =====
-- Which agents the router considers (crates/divan-daemon/src/router.rs).
use ajan_orkestrasyonu.Prelude.{
  ℕ, suc, ◌≡◌, refl, sym, ap, ◌∙◌, ◌↔◌, ◌⊎◌, inl, inr, Bool, true, false, not, ◌||◌, Option, none,
  some, List, [], ◌∷◌, filter, map_or, IsIn, IsIn-filter, Bool-cases, Option-cases, arith,
}
use ajan_orkestrasyonu.Core.AgentTool
use ajan_orkestrasyonu.Core.AgentTool.{AgentTool}
use ajan_orkestrasyonu.Core.TaskKind
use ajan_orkestrasyonu.Core.TaskKind.{TaskKind}
use ajan_orkestrasyonu.Prelude.{same, same_iff}
use ajan_orkestrasyonu.Daemon.Router.{MatchCond, flag_is}
use ajan_orkestrasyonu.Core.Agent.{AgentCard}
use ajan_orkestrasyonu.Daemon.Router.{
  Rule, RouteTask, ExcludeCond, applies, matched_from, is_excluded, retain, retain_all, pool_of,
}

-- The rule is about the task: what its condition names is what the task has.
abbrev pub IsAbout : MatchCond → RouteTask → Type 0
IsAbout m task =
    ((k : TaskKind) → m.kind ≡ some k → k ≡ task.kind)
    × ((b : Bool) → m.multi_turn ≡ some b → b ≡ task.multi_turn)

-- The exclusion names the agent's tool, or the agent's way with turns.
abbrev pub Excludes : ExcludeCond → AgentCard → Type 0
Excludes ex c = (ex.tool ≡ some c.tool) ⊎ (ex.multi_turn ≡ some c.multi_turn)

-- The agent can do the task, and no rule about the task excludes it.
abbrev pub IsEligible : List Rule → RouteTask → AgentCard → Type 0
IsEligible rules task c =
    (task.multi_turn ≡ true → c.multi_turn ≡ true)
    × ((r : Rule)
        → IsIn r rules
        → IsAbout r.match_ task
        → (ex : ExcludeCond) → r.exclude ≡ some ex
        → Excludes ex c
        → ⊥)

flag_is_iff : (a b : Bool) → (flag_is a b ≡ true) ↔ (a ≡ b)
flag_is_iff true b = ((λ h. sym h), λ h. sym h)
flag_is_iff false true = ((λ h. cc), λ h. cc)
flag_is_iff false false = ((λ h. refl), λ h. refl)

kind_iff :
    (o : Option TaskKind) (k : TaskKind)
    → (map_or true (λ x. same TaskKind.discrete x k) o ≡ true)
      ↔ ((x : TaskKind) → o ≡ some x → x ≡ k)
kind_iff none k = ((λ h x e. cc), λ h. refl)
kind_iff (some y) k =
    let s = same_iff TaskKind.discrete y k in
    ((λ h x e. ground (arith, s.0 h)), λ h. s.1 (h y refl))

turns_iff :
    (o : Option Bool) (k : Bool)
    → (map_or true (λ x. flag_is x k) o ≡ true) ↔ ((x : Bool) → o ≡ some x → x ≡ k)
turns_iff none k = ((λ h x e. cc), λ h. refl)
turns_iff (some y) k =
    let s = flag_is_iff y k in ((λ h x e. ground (arith, s.0 h)), λ h. s.1 (h y refl))

applies-IsAbout : (m : MatchCond) (task : RouteTask) → (applies m task ≡ true) ↔ IsAbout m task
unfolding applies
applies-IsAbout m task =
    let k = kind_iff m.kind task.kind in
    let t = turns_iff m.multi_turn task.multi_turn in
    ((λ h. (k.0 (ground arith), t.0 (ground arith))), λ h. ground (arith, k.1 h.0, t.1 h.1))

tool_iff :
    (o : Option AgentTool) (k : AgentTool)
    → (map_or false (λ x. same AgentTool.discrete x k) o ≡ true) ↔ (o ≡ some k)
tool_iff none k = ((λ h. cc), λ h. cc)
tool_iff (some y) k =
    let s = same_iff AgentTool.discrete y k in ((λ h. ap some (s.0 h)), λ h. s.1 (ground arith))

way_iff : (o : Option Bool) (k : Bool) → (map_or false (λ x. flag_is x k) o ≡ true) ↔ (o ≡ some k)
way_iff none k = ((λ h. cc), λ h. cc)
way_iff (some y) k = let s = flag_is_iff y k in ((λ h. ap some (s.0 h)), λ h. s.1 (ground arith))

is_excluded-Excludes :
    (ex : ExcludeCond) (c : AgentCard) → (is_excluded ex c ≡ true) ↔ Excludes ex c
is_excluded-Excludes ex c =
    let t = tool_iff ex.tool c.tool in
    let w = way_iff ex.multi_turn c.multi_turn in
    (
      (λ h. elim (Bool-cases (map_or false (λ x. same AgentTool.discrete x c.tool) ex.tool)) [
        | inl e ↦ inl (t.0 e)
        | inr e ↦ inr (w.0 (ground arith))
      ]),
      λ h. elim h [ inl e ↦ ground (arith, t.1 e) | inr e ↦ ground (arith, w.1 e) ],
    )

-- The code's own tests say so.
abbrev IsAllowed : List Rule → RouteTask → AgentCard → Type 0
IsAllowed rules task c =
    (task.multi_turn ≡ true → c.multi_turn ≡ true)
    × ((r : Rule)
        → IsIn r rules
        → applies r.match_ task ≡ true
        → (ex : ExcludeCond) → r.exclude ≡ some ex
        → is_excluded ex c ≡ false)

IsAllowed-IsEligible :
    (rules : List Rule) (task : RouteTask) (c : AgentCard)
    → IsAllowed rules task c ↔ IsEligible rules task c
IsAllowed-IsEligible rules task c = (
  (λ h. (
    h.0,
    λ r i a ex e x.
        cc (h.1 r i ((applies-IsAbout r.match_ task).1 a) ex e, (is_excluded-Excludes ex c).1 x),
  )),
  λ h. (
    h.0,
    λ r i a ex e. elim (Bool-cases (is_excluded ex c)) [
      | inl t ↦
          absurd
            (h.1 r i ((applies-IsAbout r.match_ task).0 a) ex e ((is_excluded-Excludes ex c).0 t))
      | inr f ↦ f
    ],
  ),
)

-- No matched rule excludes the agent.
abbrev IsKept : List (ℕ × Rule) → AgentCard → Type 0
IsKept matched c =
    (i : ℕ)
    → (r : Rule) → IsIn (i, r) matched
    → (ex : ExcludeCond) → r.exclude ≡ some ex
    → is_excluded ex c ≡ false

retain_iff :
    (r : Rule) (c : AgentCard) (pool : List AgentCard)
    → IsIn c (retain r pool)
      ↔ (IsIn c pool × ((ex : ExcludeCond) → r.exclude ≡ some ex → is_excluded ex c ≡ false))
retain_iff r c pool = elim (Option-cases r.exclude) [
  | inl e ↦ rw e ((λ i. (i, λ ex q. cc)), λ h. h.0)
  | inr (x, e) ↦
      let f = IsIn-filter (λ a. not (is_excluded x a)) c pool in
      rw e (
        (λ i. let (j, k) = f.0 i in (j, λ ex q. ground (arith, k))),
        λ h. f.1 (h.0, ground (arith, h.1 x refl)),
      )
]

retain_all_iff :
    (matched : List (ℕ × Rule)) (c : AgentCard) (pool : List AgentCard)
    → IsIn c (retain_all matched pool) ↔ (IsIn c pool × IsKept matched c)
retain_all_iff [] c pool = ((λ i. (i, λ j r k. absurd k)), λ h. h.0)
retain_all_iff ((i, r) ∷ matched) c pool =
    let ih = retain_all_iff matched c (retain r pool) in
    let one = retain_iff r c pool in
    (
      (λ h.
          let (j, kept) = ih.0 h in
          let (k, free) = one.0 j in
          (
            k,
            λ n s m ex q. elim m [
              | inl e ↦ free ex (ap (λ p. p.1.exclude) (sym e) ∙ q)
              | inr l ↦ kept n s l ex q
            ],
          )),
      λ h. ih.1 (one.1 (h.0, h.1 i r (inl refl)), λ n s m. h.1 n s (inr m)),
    )

matched_iff :
    (i : ℕ) (rules : List Rule) (task : RouteTask) (r : Rule)
    → ((j : ℕ) × IsIn (j, r) (matched_from i rules task))
      ↔ (IsIn r rules × (applies r.match_ task ≡ true))
matched_iff i [] task r = ((λ h. absurd h.1), λ h. absurd h.0)
matched_iff i (x ∷ rules) task r =
    let ih = matched_iff (suc i) rules task r in
    elim (Bool-cases (applies x.match_ task)) [
      | inl e ↦ rw e (
        (λ h. elim h.1 [
          | inl q ↦ let same : r ≡ x = ap (λ p. p.1) q in (inl same, rw same e)
          | inr l ↦ let (m, a) = ih.0 (h.0, l) in (inr m, a)
        ]),
        λ h. elim h.0 [
          | inl q ↦ (i, inl (ap (λ y. (i, y)) q))
          | inr m ↦ let (j, l) = ih.1 (m, h.1) in (j, inr l)
        ],
      )
      | inr e ↦ rw e (
        (λ h. let (m, a) = ih.0 h in (inr m, a)),
        λ h. elim h.0 [
          | inl q ↦ absurd (cc (ap (λ y. applies y.match_ task) q))
          | inr m ↦ ih.1 (m, h.1)
        ],
      )
    ]

pool_of-IsAllowed :
    (rules : List Rule) (task : RouteTask) (candidates : List AgentCard) (c : AgentCard)
    → IsIn c (pool_of (matched_from 0 rules task) task candidates)
      ↔ (IsIn c candidates × IsAllowed rules task c)
unfolding pool_of
pool_of-IsAllowed rules task candidates c =
    let turns = λ (a : AgentCard). not task.multi_turn || a.multi_turn in
    let kept = retain_all_iff (matched_from 0 rules task) c (filter turns candidates) in
    let f = IsIn-filter turns c candidates in
    (
      (λ h.
          let (i, k) = kept.0 h in
          let (j, t) = f.0 i in
          (
            j,
            (
              (λ m. ground arith),
              λ r l a. let (n, w) = (matched_iff 0 rules task r).1 (l, a) in k n r w,
            ),
          )),
      λ h. kept.1 (
        f.1 (h.0, turn c h.1.0),
        λ n r w. let (l, a) = (matched_iff 0 rules task r).0 (n, w) in h.1.1 r l a,
      ),
    )
  where
    turn :
        (a : AgentCard)
        → (task.multi_turn ≡ true → a.multi_turn ≡ true)
        → (not task.multi_turn || a.multi_turn) ≡ true
    turn a h = elim (Bool-cases task.multi_turn) [
      | inl e ↦ ground (arith, h e)
      | inr e ↦ ground arith
    ]

pub pool_of-IsEligible :
    (rules : List Rule) (task : RouteTask) (candidates : List AgentCard) (c : AgentCard)
    → IsIn c (pool_of (matched_from 0 rules task) task candidates)
      ↔ (IsIn c candidates × IsEligible rules task c)
pool_of-IsEligible rules task candidates c =
    let a = pool_of-IsAllowed rules task candidates c in
    let e = IsAllowed-IsEligible rules task c in
    ((λ i. let (j, h) = a.0 i in (j, e.0 h)), λ h. a.1 (h.0, e.1 h.1))
