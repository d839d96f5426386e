-- ===== src/Permissions/Pipeline/Decision.antt =====
-- When a tool call is allowed, and by which step.
use tri_mc.Prelude.{
  ◌≡◌, Bool, true, false, ◌&&◌, Option, some, List, arith, any, is_some-find, if◌then◌else◌,
}
use tri_mc.Permissions.{
  PermissionMode, PermissionBehavior, allow, deny, ask, PermissionRule, DecisionStep, always_deny,
  always_ask, safety_check, mode_bypass, mode_accept_edits, always_allow, default_deny,
  DecisionResult, DecisionContext,
}
use tri_mc.Permissions.Safety.{run_safety_check, is_edit_tool}
use tri_mc.Permissions.Pipeline.{
  blocks, allows, decide_by_allow, decide_by_mode, decide_sorted, is_bypass, is_accept_edits,
}

-- A decision without its explanation: whether the call runs, how it is settled, and by which step.
pub record Verdict : Type 0 where
  pub allowed : Bool
  pub behavior : PermissionBehavior
  pub decided_by : Option DecisionStep

abbrev pub verdict : DecisionResult → Verdict
verdict d = record { allowed = d.allowed; behavior = d.behavior; decided_by = d.decided_by }

abbrev pub settled : Bool → PermissionBehavior → DecisionStep → Verdict
settled a b s = record { allowed = a; behavior = b; decided_by = some s }

-- The pipeline as one table over its tests.
abbrev pub table : Bool → Bool → Bool → PermissionMode → Bool → Bool → Verdict
table denied asked unsafe mode edit permitted =
    if denied
    then settled false deny always_deny
    else if asked
    then settled false ask always_ask
    else if unsafe
    then settled false ask safety_check
    else if is_bypass mode
    then settled true allow mode_bypass
    else if is_accept_edits mode && edit
    then settled true allow mode_accept_edits
    else if permitted
    then settled true allow always_allow
    else settled false deny default_deny

module _ (ctx : DecisionContext) where
  open ctx use {tool_name, tool_args}

  allow-table :
      (rules : List PermissionRule)
      → verdict (decide_by_allow ctx rules) ≡ (
          if any (allows tool_name tool_args) rules
          then settled true allow always_allow
          else settled false deny default_deny)
  unfolding decide_by_allow
  allow-table rules = ground (arith, is_some-find (allows tool_name tool_args) rules)

  mode-table :
      (rules : List PermissionRule)
      → verdict (decide_by_mode ctx rules)
        ≡ table false false
            (run_safety_check tool_name tool_args).triggered
            ctx.mode
            (is_edit_tool tool_name)
            (any (allows tool_name tool_args) rules)
  unfolding decide_by_mode
  mode-table rules = ground (arith, allow-table rules)

  pub sorted-table :
      (rules : List PermissionRule)
      → verdict (decide_sorted ctx rules)
        ≡ table
            (any (blocks tool_name tool_args deny rules) rules)
            (any (blocks tool_name tool_args ask rules) rules)
            (run_safety_check tool_name tool_args).triggered
            ctx.mode
            (is_edit_tool tool_name)
            (any (allows tool_name tool_args) rules)
  unfolding decide_sorted
  sorted-table rules = ground (
    arith,
    mode-table rules,
    is_some-find (blocks tool_name tool_args deny rules) rules,
    is_some-find (blocks tool_name tool_args ask rules) rules,
  )
