-- ===== src/Gater/Layers.antt =====
-- What passes both layers of the gater.
use tri_mc.Prelude.{
  ◌≡◌, refl, sym, subst, ◌∙◌, ◌↔◌, ◌⊎◌, inl, inr, Bool, true, false, Bool-cases, Option, none, some,
  Option-cases, List, [], arith, find, get_or,
}
use tri_mc.Prelude.Text.{Text}
use tri_mc.Contracts.{ToolSpec, ToolRiskLevel, low, medium, high, critical}
use tri_mc.Gater.{
  PermissionResult, check_tool_permission, check_specs, check_risk, evaluate_tool, risk_policy,
  named, check_found, granted, audited,
}

-- The levels that need nobody's approval.
pub data Harmless : ToolRiskLevel → Type 0 where
  low_risk : Harmless low
  medium_risk : Harmless medium

level-cases : (l : ToolRiskLevel) → ((l ≡ low) ⊎ (l ≡ medium)) ⊎ ((l ≡ high) ⊎ (l ≡ critical))
level-cases low = inl (inl refl)
level-cases medium = inl (inr refl)
level-cases high = inr (inl refl)
level-cases critical = inr (inr refl)

harmless : ToolRiskLevel → Bool
harmless low = true
harmless medium = true
harmless high = false
harmless critical = false

Harmless-iff : (l : ToolRiskLevel) → (harmless l ≡ true) ↔ Harmless l
unfolding harmless
Harmless-iff low = (λ _. low_risk, λ _. refl)
Harmless-iff medium = (λ _. medium_risk, λ _. refl)
Harmless-iff high = (λ h. cc h, λ x. elim x [ ])
Harmless-iff critical = (λ h. cc h, λ x. elim x [ ])

check_risk-harmless : (s : ToolSpec) → (check_risk s).allowed ≡ harmless s.risk_level
unfolding check_risk evaluate_tool risk_policy harmless
check_risk-harmless s = elim (level-cases s.risk_level) [
  | inl (inl e) ↦ rw e refl
  | inl (inr e) ↦ rw e refl
  | inr (inl e) ↦ rw e refl
  | inr (inr e) ↦ rw e refl
]

check_risk-audited : (s : ToolSpec) → s.risk_level ≡ medium → (check_risk s).reason ≡ some audited
unfolding check_risk evaluate_tool risk_policy
check_risk-audited s e = rw e refl

module _ (name : Text) (tools : List ToolSpec) where
  abbrev Passes : Type 0
  Passes = (s : ToolSpec) → find (named name) tools ≡ some s → Harmless s.risk_level

  specs-none : find (named name) tools ≡ none → check_specs name tools ≡ granted
  unfolding check_specs check_found
  specs-none e = rw e refl

  specs-some :
      (s : ToolSpec) → find (named name) tools ≡ some s → check_specs name tools ≡ check_risk s
  unfolding check_specs check_found
  specs-some s e = rw e refl

  specs_iff : ((check_specs name tools).allowed ≡ true) ↔ Passes
  specs_iff = elim (Option-cases (find (named name) tools)) [
    | inl e ↦ (λ h s f. absurd (cc (e, f)), λ h. rw (specs-none e) refl)
    | inr (s, e) ↦ (
      λ h t f.
          let same : s ≡ t = ground arith in
          let ok =
            (Harmless-iff s.risk_level).0
              (sym (check_risk-harmless s) ∙ (rw (specs-some s e) at h)) in
          subst (λ (x : ToolSpec). Harmless x.risk_level) same ok,
      λ h. rw (specs-some s e) (check_risk-harmless s ∙ (Harmless-iff s.risk_level).1 (h s e)),
    )
  ]

module _ {Tier : Type 0} (can_use_tool : Text → Tier → PermissionResult) (name : Text) (tier : Tier)
    (specs : Option (List ToolSpec)) where
  tier-passed :
      (can_use_tool name tier).allowed ≡ true
      → check_tool_permission can_use_tool name tier specs ≡ check_specs name (get_or specs [])
  unfolding check_tool_permission
  tier-passed e = rw e refl

  tier-stopped :
      (can_use_tool name tier).allowed ≡ false
      → check_tool_permission can_use_tool name tier specs ≡ can_use_tool name tier
  unfolding check_tool_permission
  tier-stopped e = rw e refl

-- A call passes exactly when the tier may use the tool, and the first specification of the contract
-- with the tool's name, if there is one, has a low or a medium risk. A refusal by tier is passed on
-- as it is, and a medium risk is allowed with the mark of the audit.
pub gater_iff :
    {Tier : Type 0} (can_use_tool : Text → Tier → PermissionResult) (name : Text) (tier : Tier)
    (specs : Option (List ToolSpec))
    → let r = check_tool_permission can_use_tool name tier specs in
      let tools = get_or specs [] in
      ((r.allowed ≡ true) ↔ (
        ((can_use_tool name tier).allowed ≡ true)
        × ((s : ToolSpec) → find (named name) tools ≡ some s → Harmless s.risk_level)))
      × ((can_use_tool name tier).allowed ≡ false → r ≡ can_use_tool name tier)
      × ((s : ToolSpec)
          → (can_use_tool name tier).allowed ≡ true
          → find (named name) tools ≡ some s
          → s.risk_level ≡ medium
          → r.reason ≡ some audited)
gater_iff can_use_tool name tier specs = elim (Bool-cases (can_use_tool name tier).allowed) [
  | inl e ↦
      let tools = get_or specs [] in
      rw (tier-passed can_use_tool name tier specs e) (
        (λ h. (e, (specs_iff name tools).0 h), λ (_, h). (specs_iff name tools).1 h),
        λ h. absurd (cc (e, h)),
        λ s _ f m. rw (specs-some name tools s f) (check_risk-audited s m),
      )
  | inr e ↦ rw (tier-stopped can_use_tool name tier specs e) (
    (λ h. absurd (cc (e, h)), λ (h, _). absurd (cc (e, h))),
    λ _. refl,
    λ s h f m. absurd (cc (e, h)),
  )
]
