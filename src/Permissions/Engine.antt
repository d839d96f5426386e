-- ===== src/Permissions/Engine.antt =====
-- index.ts: the engine keeps a mode, a working directory and its rules, the rules in the order of
-- their sources.
pub mod Laws
pub mod Changes
use tri_mc.Prelude.{
  ℕ, suc, ◌-◌, ◌+◌, Bool, true, false, not, Option, none, some, List, [], ◌∷◌, ◌++◌, keep_if,
  length, get_or, if◌then◌else◌,
}
use tri_mc.Prelude.Sort.{sort_desc}
use tri_mc.Prelude.Text.{Text}
use tri_mc.Map.{Map, put}
use tri_mc.Json.{Fields}
use tri_mc.Permissions.{
  PermissionMode, default_mode, PermissionBehavior, allow, deny, ask, behavior_eq, RuleSource,
  source_eq, PermissionRule, DecisionContext, DecisionResult,
}
use tri_mc.Permissions.Rules.{parse_rule, parse_rules}
use tri_mc.Permissions.Pipeline
use tri_mc.Permissions.Pipeline.{priority_of}

pub record PermissionEngine : Type 0 where
  pub mode : PermissionMode
  pub rules : List PermissionRule
  pub cwd : Option Text

-- The options as they are given, each of them optional.
pub new_engine :
    Option PermissionMode → Option (List PermissionRule) → Option Text → PermissionEngine
new_engine mode rules cwd = record {
  mode = get_or mode default_mode;
  rules = get_or rules [];
  cwd = cwd;
}

pub set_mode : PermissionEngine → PermissionMode → PermissionEngine
set_mode e mode = record e { mode = mode }

pub set_cwd : PermissionEngine → Option Text → PermissionEngine
set_cwd e cwd = record e { cwd = cwd }

pub sort_rules : PermissionEngine → PermissionEngine
sort_rules e = record e { rules = sort_desc priority_of e.rules }

pub add_parsed_rule : PermissionEngine → PermissionRule → PermissionEngine
unfolding sort_rules
add_parsed_rule e rule = sort_rules (record e { rules = e.rules ++ rule ∷ [] })

pub add_rule :
    PermissionEngine → Text → PermissionBehavior → RuleSource → PermissionEngine × PermissionRule
unfolding sort_rules
add_rule e raw behavior source =
    let rule = parse_rule raw behavior source in
    (sort_rules (record e { rules = e.rules ++ rule ∷ [] }), rule)

pub add_rules :
    PermissionEngine
    → List Text
    → PermissionBehavior
    → RuleSource
    → PermissionEngine × List PermissionRule
unfolding sort_rules
add_rules e raws behavior source =
    let rules = parse_rules raws behavior source in
    (sort_rules (record e { rules = e.rules ++ rules }), rules)

pub remove_rules_by_source : PermissionEngine → RuleSource → PermissionEngine × ℕ
remove_rules_by_source e source =
    let kept = keep_if (λ (r : PermissionRule). not (source_eq r.source source)) e.rules in
    (record e { rules = kept }, length e.rules - length kept)

pub clear_rules : PermissionEngine → PermissionEngine
clear_rules e = record e { rules = [] }

abbrev pub context : PermissionEngine → Text → Fields → DecisionContext
context e name args = record {
  mode = e.mode;
  rules = e.rules;
  tool_name = name;
  tool_args = args;
  cwd = e.cwd;
}

pub engine_decide : PermissionEngine → Text → Fields → DecisionResult
engine_decide e name args = Pipeline.decide (context e name args)

pub record ToolCall : Type 0 where
  pub id : Text
  pub name : Text
  pub arguments : Fields

-- The loop of `decideAll`, with the results so far.
decide_each : PermissionEngine → Map DecisionResult → List ToolCall → Map DecisionResult
decide_each e results [] = results
decide_each e results (c ∷ cs) =
    decide_each e (put results c.id (engine_decide e c.name c.arguments)) cs

pub decide_all : PermissionEngine → List ToolCall → Map DecisionResult
unfolding decide_each
decide_all e calls = decide_each e [] calls

-- `counts[k] = (counts[k] ?? 0) + 1`
bump : RuleSource → List (RuleSource × ℕ) → List (RuleSource × ℕ)
bump k [] = (k, 1) ∷ []
bump k ((j, n) ∷ counts) = if source_eq j k then (j, n + 1) ∷ counts else (j, n) ∷ bump k counts

pub record EngineSummary : Type 0 where
  pub mode : PermissionMode
  pub rule_count : ℕ
  pub rules_by_source : List (RuleSource × ℕ)
  pub allow_rules : ℕ
  pub deny_rules : ℕ
  pub ask_rules : ℕ

-- One round of the loop of `summarize`.
count_rule : EngineSummary → PermissionRule → EngineSummary
unfolding bump
count_rule s r =
    let t = record s { rules_by_source = bump r.source s.rules_by_source } in
    elim r.behavior [
      | allow ↦ record t { allow_rules = s.allow_rules + 1 }
      | deny ↦ record t { deny_rules = s.deny_rules + 1 }
      | ask ↦ record t { ask_rules = s.ask_rules + 1 }
    ]

count_rules : EngineSummary → List PermissionRule → EngineSummary
count_rules s [] = s
count_rules s (r ∷ rs) = count_rules (count_rule s r) rs

pub summarize : PermissionEngine → EngineSummary
unfolding count_rules count_rule
summarize e =
    count_rules
      (record {
        mode = e.mode;
        rule_count = length e.rules;
        rules_by_source = [];
        allow_rules = 0;
        deny_rules = 0;
        ask_rules = 0;
      })
      e.rules
