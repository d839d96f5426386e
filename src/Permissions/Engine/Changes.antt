-- ===== src/Permissions/Engine/Changes.antt =====
-- What removing a source leaves, how adding a rule moves the decisions, and the bulk decision.
use tri_mc.Prelude.{
  ◌+◌, ◌≡◌, refl, sym, ◌∙◌, ◌≢◌, ◌↔◌, ◌⊎◌, inl, inr, true, not, none, some, List, [], ◌∷◌, ◌++◌,
  arith, length, In, All, In-keep_if, In-keep_if_of, In-append, In-append_left, In-append_right,
  length-keep_if,
}
use tri_mc.Prelude.Sort.{In-sort_desc}
use tri_mc.Prelude.Text.{Text}
use tri_mc.Map.{Map, get, put, get-put_self, get-put_ne}
use tri_mc.Json.{Fields}
use tri_mc.Permissions.{
  PermissionBehavior, allow, deny, ask, RuleSource, source_eq, PermissionRule, DecisionResult,
}
use tri_mc.Permissions.Pipeline.{priority_of}
use tri_mc.Permissions.Pipeline.Blocks.{Overridden, Blocked}
use tri_mc.Permissions.Pipeline.Steps.{Cleared}
use tri_mc.Permissions.Pipeline.Order.{Opened, allowed_iff}
use tri_mc.Permissions.Engine.{
  PermissionEngine, add_parsed_rule, remove_rules_by_source, context, engine_decide, ToolCall,
  decide_each, decide_all,
}

source_eq_iff : (a b : RuleSource) → (source_eq a b ≡ true) ↔ (a ≡ b)
source_eq_iff a b = (λ h. ground arith, λ h. ground arith)

-- Removing a source leaves the rules of the other sources and no others, and returns how many fewer
-- rules there are; mode and working directory stay.
pub remove_source_iff :
    (e : PermissionEngine) (source : RuleSource)
    → let (e', removed) = remove_rules_by_source e source in
      ((r : PermissionRule) → In r e'.rules ↔ (In r e.rules × (r.source ≢ source)))
      × (length e'.rules + removed ≡ length e.rules)
      × (e'.mode ≡ e.mode)
      × (e'.cwd ≡ e.cwd)
unfolding remove_rules_by_source
remove_source_iff e source =
    let other = λ (r : PermissionRule). not (source_eq r.source source) in
    (
      λ r. (
        λ m.
            let (m', q) = In-keep_if other r e.rules m in
            (m', λ z. ground (arith, source_eq_iff r.source source)),
        λ (m, n). In-keep_if_of other r e.rules m (ground (arith, source_eq_iff r.source source)),
      ),
      omega (arith, length-keep_if other e.rules),
      refl,
      refl,
    )

-- The rules after one more.
In-added :
    (e : PermissionEngine) (rule r : PermissionRule)
    → In r (add_parsed_rule e rule).rules ↔ (In r e.rules ⊎ (r ≡ rule))
unfolding add_parsed_rule
In-added e rule r =
    let s = In-sort_desc priority_of r (e.rules ++ rule ∷ []) in
    (
      λ m. elim (In-append r e.rules (rule ∷ []) (s.0 m)) [
        | inl k ↦ inl k
        | inr (inl q) ↦ inr q
        | inr (inr z) ↦ absurd z
      ],
      λ m. s.1 (elim m [
        | inl k ↦ In-append_left r e.rules (rule ∷ []) k
        | inr k ↦ In-append_right r e.rules (rule ∷ []) (inl k)
      ]),
    )

module _ (name : Text) (args : Fields) (e : PermissionEngine) (rule : PermissionRule) where
  abbrev after : PermissionEngine
  after = add_parsed_rule e rule

  -- With a new rule that is no allow rule nothing is overridden that was not before.
  Overridden-restrict :
      (r : PermissionRule)
      → rule.behavior ≢ allow
      → Overridden name args after.rules r
      → Overridden name args e.rules r
  Overridden-restrict r n (o, m, a, b, c) = elim ((In-added e rule o).0 m) [
    | inl k ↦ (o, k, a, b, c)
    | inr k ↦ absurd (n (rw k at a))
  ]

  Overridden-extend :
      (r : PermissionRule) → Overridden name args e.rules r → Overridden name args after.rules r
  Overridden-extend r (o, m, a, b, c) = (o, (In-added e rule o).1 (inl m), a, b, c)

  Blocked-restrict :
      (b : PermissionBehavior)
      → rule.behavior ≢ allow
      → Blocked name args b e.rules
      → Blocked name args b after.rules
  Blocked-restrict b n (r, m, x, y, z) =
      (r, (In-added e rule r).1 (inl m), x, y, λ o. z (Overridden-restrict r n o))

  Blocked-extend :
      (b : PermissionBehavior)
      → rule.behavior ≢ b
      → Blocked name args b after.rules
      → Blocked name args b e.rules
  Blocked-extend b n (r, m, x, y, z) = elim ((In-added e rule r).0 m) [
    | inl k ↦ (r, k, x, y, λ o. z (Overridden-extend r o))
    | inr k ↦ absurd (n (rw k at x))
  ]

  Cleared-extend :
      rule.behavior ≡ allow
      → Cleared (context e name args) e.rules
      → Cleared (context after name args) after.rules
  Cleared-extend a c = record {
    not_denied = λ b. c.not_denied (Blocked-extend deny (λ q. cc) b);
    not_asked = λ b. c.not_asked (Blocked-extend ask (λ q. cc) b);
    safe = c.safe;
  }

  Cleared-restrict :
      rule.behavior ≢ allow
      → Cleared (context after name args) after.rules
      → Cleared (context e name args) e.rules
  Cleared-restrict n c = record {
    not_denied = λ b. c.not_denied (Blocked-restrict deny n b);
    not_asked = λ b. c.not_asked (Blocked-restrict ask n b);
    safe = c.safe;
  }

  Opened-extend :
      Opened (context e name args) e.rules → Opened (context after name args) after.rules
  unfolding add_parsed_rule
  Opened-extend (inl m) = inl m
  Opened-extend (inr (inl t)) = inr (inl t)
  Opened-extend (inr (inr (r, m, a, b))) = inr (inr (r, (In-added e rule r).1 (inl m), a, b))

  Opened-restrict :
      rule.behavior ≢ allow
      → Opened (context after name args) after.rules
      → Opened (context e name args) e.rules
  unfolding add_parsed_rule
  Opened-restrict n (inl m) = inl m
  Opened-restrict n (inr (inl t)) = inr (inl t)
  Opened-restrict n (inr (inr (r, m, a, b))) = elim ((In-added e rule r).0 m) [
    | inl k ↦ inr (inr (r, k, a, b))
    | inr k ↦ absurd (n (rw k at a))
  ]

-- One more deny or ask rule never lets a call run that did not, and one more allow rule never stops
-- a call that ran.
pub added_rule_monotone :
    (e : PermissionEngine) (rule : PermissionRule) (name : Text) (args : Fields)
    → (rule.behavior ≢ allow
        → (engine_decide (add_parsed_rule e rule) name args).allowed ≡ true
        → (engine_decide e name args).allowed ≡ true)
      × (rule.behavior ≡ allow
          → (engine_decide e name args).allowed ≡ true
          → (engine_decide (add_parsed_rule e rule) name args).allowed ≡ true)
unfolding engine_decide add_parsed_rule
added_rule_monotone e rule name args =
    let before = allowed_iff (context e name args) in
    let later = allowed_iff (context (add_parsed_rule e rule) name args) in
    (
      λ n h.
          let (c, o) = later.0 h in
          before.1 (Cleared-restrict name args e rule n c, Opened-restrict name args e rule n o),
      λ a h.
          let (c, o) = before.0 h in
          later.1 (Cleared-extend name args e rule a c, Opened-extend name args e rule o),
    )

-- No two calls of the list have one id.
abbrev pub DistinctCalls : List ToolCall → Type 0
DistinctCalls [] = Unit
DistinctCalls (c ∷ cs) = All (λ (d : ToolCall). c.id ≢ d.id) cs × DistinctCalls cs

decide_each_keeps :
    (e : PermissionEngine) (m : Map DecisionResult) (cs : List ToolCall) (k : Text)
    → All (λ (d : ToolCall). k ≢ d.id) cs
    → get (decide_each e m cs) k ≡ get m k
unfolding decide_each
decide_each_keeps e m [] k h = refl
decide_each_keeps e m (c ∷ cs) k (n, h) =
    decide_each_keeps e (put m c.id (engine_decide e c.name c.arguments)) cs k h
    ∙ get-put_ne m c.id k _ (λ q. n (sym q))

decide_each_finds :
    (e : PermissionEngine) (m : Map DecisionResult) (cs : List ToolCall) (c : ToolCall)
    → DistinctCalls cs
    → In c cs
    → get (decide_each e m cs) c.id ≡ some (engine_decide e c.name c.arguments)
unfolding decide_each
decide_each_finds e m [] c h i = elim i [ ]
decide_each_finds e m (d ∷ cs) c (n, h) (inl q) = rw q (
    decide_each_keeps e (put m d.id (engine_decide e d.name d.arguments)) cs d.id n
    ∙ get-put_self m d.id (engine_decide e d.name d.arguments))
decide_each_finds e m (d ∷ cs) c (n, h) (inr i) =
    decide_each_finds e (put m d.id (engine_decide e d.name d.arguments)) cs c h i

-- Where no two calls share an id, the bulk decision holds under the id of each call what deciding
-- that call alone returns, and nothing under any other id.
pub decide_all_iff :
    (e : PermissionEngine) (calls : List ToolCall)
    → DistinctCalls calls
    → ((c : ToolCall)
        → In c calls
        → get (decide_all e calls) c.id ≡ some (engine_decide e c.name c.arguments))
      × ((k : Text) → All (λ (c : ToolCall). k ≢ c.id) calls → get (decide_all e calls) k ≡ none)
unfolding decide_all get
decide_all_iff e calls h =
    (λ c i. decide_each_finds e [] calls c h i, λ k n. decide_each_keeps e [] calls k n)
