-- ===== src/Permissions/Pipeline/Blocks.antt =====
-- Which rules block a call and which let it through, as statements, and what the searches of the
-- pipeline make of them.
use tri_mc.Prelude.{◌<◌, ◌≡◌, ◌↔◌, inl, inr, true, List, arith, any, In, Bool-cases, any_iff}
use tri_mc.Prelude.Text.{Text}
use tri_mc.Json.{Fields}
use tri_mc.Permissions.{PermissionBehavior, allow, behavior_eq, PermissionRule}
use tri_mc.Permissions.Pipeline.{priority_of, rule_matches, overrides, blocks, allows}

abbrev pub SameRules : List PermissionRule → List PermissionRule → Type 0
SameRules xs ys = (r : PermissionRule) → In r xs ↔ In r ys

behavior_eq_iff : (a b : PermissionBehavior) → (behavior_eq a b ≡ true) ↔ (a ≡ b)
behavior_eq_iff a b = (λ h. ground arith, λ h. ground arith)

module _ (name : Text) (args : Fields) where
  abbrev pub Matches : PermissionRule → Type 0
  Matches r = rule_matches r name args ≡ true

  -- An allow rule of strictly higher priority that matches too.
  abbrev pub Overridden : List PermissionRule → PermissionRule → Type 0
  Overridden rules rule =
      (r : PermissionRule) × In r rules
      × (r.behavior ≡ allow)
      × Matches r
      × (priority_of rule < priority_of r)

  abbrev pub Blocked : PermissionBehavior → List PermissionRule → Type 0
  Blocked b rules =
      (rule : PermissionRule) × In rule rules
      × (rule.behavior ≡ b)
      × Matches rule
      × ¬ Overridden rules rule

  abbrev pub Permitted : List PermissionRule → Type 0
  Permitted rules = (r : PermissionRule) × In r rules × (r.behavior ≡ allow) × Matches r

  overrides_iff :
      (rule r : PermissionRule)
      → (overrides name args rule r ≡ true)
        ↔ ((r.behavior ≡ allow) × Matches r × (priority_of rule < priority_of r))
  unfolding overrides
  overrides_iff rule r = (
    λ h. ground (arith, behavior_eq_iff r.behavior allow),
    λ h. ground (arith, behavior_eq_iff r.behavior allow),
  )

  any-overrides_iff :
      (rules : List PermissionRule) (rule : PermissionRule)
      → (any (overrides name args rule) rules ≡ true) ↔ Overridden rules rule
  any-overrides_iff rules rule = (
    λ h.
        let (r, m, e) = (any_iff (overrides name args rule) rules).0 h in
        let (a, b, c) = (overrides_iff rule r).0 e in (r, m, a, b, c),
    λ (r, m, a, b, c).
        (any_iff (overrides name args rule) rules).1 (r, m, (overrides_iff rule r).1 (a, b, c)),
  )

  blocks_iff :
      (b : PermissionBehavior) (rules : List PermissionRule) (rule : PermissionRule)
      → (blocks name args b rules rule ≡ true)
        ↔ ((rule.behavior ≡ b) × Matches rule × ¬ Overridden rules rule)
  unfolding blocks
  blocks_iff b rules rule =
      let o = any-overrides_iff rules rule in
      let q = behavior_eq_iff rule.behavior b in
      (
        λ h. (ground (arith, q), ground arith, λ v. ground (arith, o.1 v)),
        λ (e, m, n). elim (Bool-cases (any (overrides name args rule) rules)) [
          | inl v ↦ absurd (n (o.0 v))
          | inr v ↦ ground (arith, q)
        ],
      )

  -- The search for a blocking rule succeeds exactly when there is one.
  pub any-blocks_iff :
      (b : PermissionBehavior) (rules : List PermissionRule)
      → (any (blocks name args b rules) rules ≡ true) ↔ Blocked b rules
  any-blocks_iff b rules = (
    λ h.
        let (r, m, e) = (any_iff (blocks name args b rules) rules).0 h in
        let (x, y, z) = (blocks_iff b rules r).0 e in (r, m, x, y, z),
    λ (r, m, x, y, z).
        (any_iff (blocks name args b rules) rules).1 (r, m, (blocks_iff b rules r).1 (x, y, z)),
  )

  allows_iff :
      (r : PermissionRule) → (allows name args r ≡ true) ↔ ((r.behavior ≡ allow) × Matches r)
  unfolding allows
  allows_iff r = (
    λ h. ground (arith, behavior_eq_iff r.behavior allow),
    λ h. ground (arith, behavior_eq_iff r.behavior allow),
  )

  pub any-allows_iff :
      (rules : List PermissionRule) → (any (allows name args) rules ≡ true) ↔ Permitted rules
  any-allows_iff rules = (
    λ h.
        let (r, m, e) = (any_iff (allows name args) rules).0 h in
        let (x, y) = (allows_iff r).0 e in (r, m, x, y),
    λ (r, m, x, y). (any_iff (allows name args) rules).1 (r, m, (allows_iff r).1 (x, y)),
  )

  -- The order of the rules, and how often one is listed, do not matter.
  Overridden-SameRules :
      (xs ys : List PermissionRule) (rule : PermissionRule)
      → SameRules xs ys
      → Overridden xs rule
      → Overridden ys rule
  Overridden-SameRules xs ys rule s (r, m, a, b, c) = (r, (s r).0 m, a, b, c)

  pub Blocked-SameRules :
      (xs ys : List PermissionRule) (b : PermissionBehavior)
      → SameRules xs ys
      → Blocked b xs
      → Blocked b ys
  Blocked-SameRules xs ys b s (r, m, x, y, n) =
      (r, (s r).0 m, x, y, λ o. n (Overridden-SameRules ys xs r (λ q. ((s q).1, (s q).0)) o))

  pub Permitted-SameRules :
      (xs ys : List PermissionRule) → SameRules xs ys → Permitted xs → Permitted ys
  Permitted-SameRules xs ys s (r, m, x, y) = (r, (s r).0 m, x, y)
