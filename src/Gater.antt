-- ===== src/Gater.antt =====
-- The policy gate and the tool gater (src/policy-gate/service.ts, src/tool-gater/gater.ts): a check
-- by tier, which agent-core makes, and a check by the risk that the agent's contract gives the tool.
pub mod Layers
mod Samples
use tri_mc.Prelude.{
  ℕ, Bool, true, false, not, ◌||◌, Option, none, some, List, [], ◌∷◌, ◌++◌, ◌==◌, if◌then◌else◌,
  find, keep_if, map, length, get_or,
}
use tri_mc.Prelude.Text.{Text, text, text_eq}
use tri_mc.Contracts.{ToolSpec, ToolRiskLevel, low, medium, high, critical}

pub data PolicyReason : Type 0 where
  auto_allowed allowed_with_audit approval_required denied_no_override : PolicyReason

pub record PolicyDecision : Type 0 where
  pub allowed : Bool
  pub reason : Option PolicyReason

pub risk_policy : ToolRiskLevel → PolicyDecision
risk_policy low = record { allowed = true; reason = some auto_allowed }
risk_policy medium = record { allowed = true; reason = some allowed_with_audit }
risk_policy high = record { allowed = false; reason = some approval_required }
risk_policy critical = record { allowed = false; reason = some denied_no_override }

pub evaluate_tool : ToolSpec → PolicyDecision
evaluate_tool tool = risk_policy tool.risk_level

-- The older interface; the task's type is not read.
pub evaluate : Text → Text → PolicyDecision
evaluate task_type risk_level =
    if text_eq risk_level (text "high") || text_eq risk_level (text "critical")
    then record {
      allowed = false;
      reason =
          some (
            if text_eq risk_level (text "critical") then denied_no_override else approval_required);
    }
    else record { allowed = true; reason = none }

-- A reason of the tier check is a text of agent-core's.
pub data GateReason : Type 0 where
  by_tier : Text → GateReason
  by_risk : ToolRiskLevel → Option PolicyReason → GateReason
  audited : GateReason

pub record PermissionResult : Type 0 where
  pub allowed : Bool
  pub reason : Option GateReason

abbrev pub granted : PermissionResult
granted = record { allowed = true; reason = none }

abbrev pub is_medium : ToolRiskLevel → Bool
is_medium medium = true
is_medium _ = false

abbrev pub named : Text → ToolSpec → Bool
named name t = text_eq t.name name

-- The risk of one specification.
pub check_risk : ToolSpec → PermissionResult
check_risk spec =
    let risk = evaluate_tool spec in
    if not risk.allowed
    then record { allowed = false; reason = some (by_risk spec.risk_level risk.reason) }
    else if is_medium spec.risk_level
    then record { allowed = true; reason = some audited }
    else granted

pub check_found : Option ToolSpec → PermissionResult
check_found none = granted
check_found (some spec) = check_risk spec

-- The second layer: the first specification with the tool's name.
pub check_specs : Text → List ToolSpec → PermissionResult
check_specs name specs = check_found (find (named name) specs)

-- `can_use_tool` is the tier check of agent-core.
module _ {Tier : Type 0} (can_use_tool : Text → Tier → PermissionResult) where
  pub check_tool_permission : Text → Tier → Option (List ToolSpec) → PermissionResult
  check_tool_permission name tier specs =
      let tier_result = can_use_tool name tier in
      if not tier_result.allowed then tier_result else check_specs name (get_or specs [])

  pub create_tool_gater : Option (List ToolSpec) → Text → Tier → PermissionResult
  unfolding check_tool_permission
  create_tool_gater specs name tier = check_tool_permission name tier specs

pub record GaterSummary : Type 0 where
  pub total_tools : ℕ
  pub by_risk_level : ToolRiskLevel → List Text
  pub high_risk_tools : List Text
  pub critical_risk_tools : List Text

abbrev risk_index : ToolRiskLevel → ℕ
risk_index low = 0
risk_index medium = 1
risk_index high = 2
risk_index critical = 3

abbrev pub risk_eq : ToolRiskLevel → ToolRiskLevel → Bool
risk_eq a b = risk_index a == risk_index b

-- The bucket of a level after the loop.
abbrev pub bucket : List ToolSpec → ToolRiskLevel → List Text
bucket tools level =
    map (λ (t : ToolSpec). t.name) (keep_if (λ (t : ToolSpec). risk_eq t.risk_level level) tools)

pub summarize_gater : Option (List ToolSpec) → GaterSummary
summarize_gater specs =
    let tools = get_or specs [] in
    record {
      total_tools = length tools;
      by_risk_level = bucket tools;
      high_risk_tools = bucket tools high;
      critical_risk_tools = bucket tools critical;
    }
