-- ===== src/Permissions/Pipeline/Order.antt =====
-- The pipeline decides a relation between the rules and the verdict, in which the order of the
-- rules has no part.
use tri_mc.Prelude.{◌≡◌, refl, ap, ◌∙◌, ◌↔◌, ◌⊎◌, inl, inr, true, ◌&&◌, List, arith, Bool-cases}
use tri_mc.Prelude.Sort.{sort_desc, In-sort_desc}
use tri_mc.Permissions.{accept_edits, bypass_permissions, PermissionRule, DecisionContext}
use tri_mc.Permissions.Safety.{is_edit_tool}
use tri_mc.Permissions.Pipeline.{priority_of, decide, is_bypass, is_accept_edits}
use tri_mc.Permissions.Pipeline.Blocks.{SameRules, Permitted}
use tri_mc.Permissions.Pipeline.Decision.{Verdict, verdict}
use tri_mc.Permissions.Pipeline.Steps.{
  back, Cleared, Decides, denied, asked, unsafe, bypassed, edited, permitted, refused,
  sorted-Decides, Decides-sorted, Decides-SameRules,
}

sorted-SameRules : (rules : List PermissionRule) → SameRules (sort_desc priority_of rules) rules
sorted-SameRules rules r = In-sort_desc priority_of r rules

-- The pipeline computes the decision relation: its verdict on a call is `v` exactly when `v` is what
-- the seven steps give. A matching deny rule, then a matching ask rule, stops the call unless
-- an allow rule of strictly higher priority matches; then the safety check stops it, in every mode;
-- then the bypass mode lets it run, then the accept-edits mode if the tool edits files, at any
-- path, inside the working directory or not, then any matching allow rule; what is left is denied.
pub decide_iff :
    (ctx : DecisionContext) (v : Verdict) → (verdict (decide ctx) ≡ v) ↔ Decides ctx ctx.rules v
unfolding decide
decide_iff ctx v =
    let sorted = sort_desc priority_of ctx.rules in
    let same = sorted-SameRules ctx.rules in
    (
      λ e. Decides-SameRules ctx sorted ctx.rules v same (rw e at (sorted-Decides ctx sorted)),
      λ d.
          Decides-sorted ctx sorted v
            (Decides-SameRules ctx ctx.rules sorted v (back sorted ctx.rules same) d),
    )

moved_Cleared :
    (ctx : DecisionContext) (rules : List PermissionRule)
    → Cleared ctx rules
    → Cleared (record ctx { rules = rules }) rules
moved_Cleared ctx rules c = record {
  not_denied = c.not_denied;
  not_asked = c.not_asked;
  safe = c.safe;
}

-- The rules of a context are read from the list alone.
moved_rules :
    (ctx : DecisionContext) (rules : List PermissionRule) (v : Verdict)
    → Decides ctx rules v
    → Decides (record ctx { rules = rules }) rules v
moved_rules ctx rules v (denied d e) = denied d e
moved_rules ctx rules v (asked d a e) = asked d a e
moved_rules ctx rules v (unsafe d a t e) = unsafe d a t e
moved_rules ctx rules v (bypassed c m e) = bypassed (moved_Cleared ctx rules c) m e
moved_rules ctx rules v (edited c m t e) = edited (moved_Cleared ctx rules c) m t e
moved_rules ctx rules v (permitted c b t p e) = permitted (moved_Cleared ctx rules c) b t p e
moved_rules ctx rules v (refused c b t p e) = refused (moved_Cleared ctx rules c) b t p e

-- Two contexts that differ in nothing but the order of their rules, and in how often one is listed,
-- get the same verdict.
pub decide_order :
    (ctx : DecisionContext) (rules : List PermissionRule)
    → SameRules ctx.rules rules
    → verdict (decide (record ctx { rules = rules })) ≡ verdict (decide ctx)
decide_order ctx rules s = (decide_iff (record ctx { rules = rules }) (verdict (decide ctx))).1 (
    moved_rules ctx rules _ (Decides-SameRules ctx ctx.rules rules _ s ((decide_iff ctx _).0 refl)))

-- What lets a cleared call run.
abbrev pub Opened : DecisionContext → List PermissionRule → Type 0
Opened ctx rules =
    (ctx.mode ≡ bypass_permissions)
    ⊎ ((ctx.mode ≡ accept_edits) × (is_edit_tool ctx.tool_name ≡ true)
        ⊎ Permitted ctx.tool_name ctx.tool_args rules)

Opened-of_Decides :
    (ctx : DecisionContext) (rules : List PermissionRule) (v : Verdict)
    → Decides ctx rules v
    → v.allowed ≡ true
    → Cleared ctx rules × Opened ctx rules
Opened-of_Decides ctx rules v (denied d e) h = cc
Opened-of_Decides ctx rules v (asked d a e) h = cc
Opened-of_Decides ctx rules v (unsafe d a t e) h = cc
Opened-of_Decides ctx rules v (bypassed c m e) h = (c, inl m)
Opened-of_Decides ctx rules v (edited c m t e) h = (c, inr (inl (m, t)))
Opened-of_Decides ctx rules v (permitted c b t p e) h = (c, inr (inr p))
Opened-of_Decides ctx rules v (refused c b t p e) h = cc

allowed_by :
    (ctx : DecisionContext) {v : Verdict}
    → Decides ctx ctx.rules v
    → v.allowed ≡ true
    → (decide ctx).allowed ≡ true
allowed_by ctx {v} d h = ap (λ (w : Verdict). w.allowed) ((decide_iff ctx v).1 d) ∙ h

allowed_of_Opened :
    (ctx : DecisionContext)
    → Cleared ctx ctx.rules
    → Opened ctx ctx.rules
    → (decide ctx).allowed ≡ true
allowed_of_Opened ctx c o = elim (Bool-cases (is_bypass ctx.mode)) [
  | inl b ↦ allowed_by ctx (bypassed c (ground arith) refl) refl
  | inr b ↦ elim (Bool-cases (is_accept_edits ctx.mode && is_edit_tool ctx.tool_name)) [
    | inl e ↦ allowed_by ctx (edited c (ground arith) (ground arith) refl) refl
    | inr e ↦
        allowed_by ctx
          (permitted c b e
            (elim o [ inl m ↦ cc | inr (inl (m, t)) ↦ ground arith | inr (inr p) ↦ p ]) refl)
          refl
  ]
]

-- A call is allowed exactly when nothing stops it and the mode or a matching allow rule lets it run.
pub allowed_iff :
    (ctx : DecisionContext)
    → ((decide ctx).allowed ≡ true) ↔ (Cleared ctx ctx.rules × Opened ctx ctx.rules)
allowed_iff ctx = (
  λ h. Opened-of_Decides ctx ctx.rules (verdict (decide ctx)) ((decide_iff ctx _).0 refl) h,
  λ (c, o). allowed_of_Opened ctx c o,
)
