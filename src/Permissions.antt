-- ===== src/Permissions.antt =====
-- The tool permission engine (src/agent-loop/permissions-engine): its types. The children model
-- rule-parser.ts, safety-check.ts, decision-pipeline.ts and index.ts.
pub mod Rules
pub mod Safety
pub mod Pipeline
pub mod Engine
mod Samples
use tri_mc.Prelude.{ℕ, Bool, Option, List, ◌==◌}
use tri_mc.Prelude.Text.{Text}
use tri_mc.Json.{Fields}

pub data PermissionMode : Type 0 where
  default_mode accept_edits bypass_permissions : PermissionMode

pub data PermissionBehavior : Type 0 where
  allow deny ask : PermissionBehavior

abbrev behavior_index : PermissionBehavior → ℕ
behavior_index allow = 0
behavior_index deny = 1
behavior_index ask = 2

abbrev pub behavior_eq : PermissionBehavior → PermissionBehavior → Bool
behavior_eq a b = behavior_index a == behavior_index b

pub data DecisionStep : Type 0 where
  always_deny always_ask safety_check mode_bypass mode_accept_edits always_allow : DecisionStep
  default_deny : DecisionStep

pub data RuleSource : Type 0 where
  user_settings project_settings local_settings flag_settings policy_settings : RuleSource
  cli_arg command session : RuleSource

abbrev pub rule_source_priority : RuleSource → ℕ
rule_source_priority user_settings = 100
rule_source_priority project_settings = 90
rule_source_priority local_settings = 80
rule_source_priority flag_settings = 70
rule_source_priority policy_settings = 60
rule_source_priority cli_arg = 50
rule_source_priority command = 40
rule_source_priority session = 30

-- Sources are told apart by their priorities, which are all different.
abbrev pub source_eq : RuleSource → RuleSource → Bool
source_eq a b = rule_source_priority a == rule_source_priority b

-- `undefined` in `isWildcard` reads as false.
pub record PermissionRule : Type 0 where
  pub tool_name : Text
  pub content : Option Text
  pub behavior : PermissionBehavior
  pub source : RuleSource
  pub is_wildcard : Bool

-- The reasons, with what their texts interpolate; a rule is named by its source and its content.
pub data Reason : Type 0 where
  by_deny_rule by_ask_rule by_allow_rule : RuleSource → Option Text → Reason
  sensitive_path config_file : Text → Reason
  recursive_removal : Reason
  bypass_active : Reason
  edit_within_cwd edit_unbounded : Text → Reason
  no_allow_rule : Text → Reason

pub record DecisionResult : Type 0 where
  pub allowed : Bool
  pub behavior : PermissionBehavior
  pub reason : Option Reason
  pub decided_by : Option DecisionStep

pub record DecisionContext : Type 0 where
  pub mode : PermissionMode
  pub rules : List PermissionRule
  pub tool_name : Text
  pub tool_args : Fields
  pub cwd : Option Text

pub record SafetyCheckResult : Type 0 where
  pub triggered : Bool
  pub reason : Option Reason
