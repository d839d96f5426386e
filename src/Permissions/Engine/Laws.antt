-- ===== src/Permissions/Engine/Laws.antt =====
-- The order that the engine keeps, what its operations do to the rules, and how adding a rule moves
-- the decisions.
use tri_mc.Prelude.{◌≡◌, ap, Option, some, List, [], ◌∷◌}
use tri_mc.Prelude.Sort.{IsDesc, sort_desc-IsDesc, sort_desc_of_IsDesc, IsDesc-keep_if}
use tri_mc.Prelude.Text.{Text}
use tri_mc.Json.{Fields}
use tri_mc.Permissions.{PermissionMode, PermissionBehavior, RuleSource, PermissionRule}
use tri_mc.Permissions.Pipeline
use tri_mc.Permissions.Pipeline.{priority_of, decide_sorted}
use tri_mc.Permissions.Engine.{
  PermissionEngine, new_engine, set_mode, set_cwd, add_parsed_rule, add_rule, add_rules,
  remove_rules_by_source, clear_rules, context, engine_decide,
}

-- The calls that change an engine.
pub data Edit : Type 0 where
  mode_set : PermissionMode → Edit
  cwd_set : Option Text → Edit
  parsed_added : PermissionRule → Edit
  added : Text → PermissionBehavior → RuleSource → Edit
  many_added : List Text → PermissionBehavior → RuleSource → Edit
  source_removed : RuleSource → Edit
  cleared : Edit

pub edit : PermissionEngine → Edit → PermissionEngine
edit e (mode_set m) = set_mode e m
edit e (cwd_set c) = set_cwd e c
edit e (parsed_added r) = add_parsed_rule e r
edit e (added raw b s) = (add_rule e raw b s).0
edit e (many_added raws b s) = (add_rules e raws b s).0
edit e (source_removed s) = (remove_rules_by_source e s).0
edit e cleared = clear_rules e

pub edits : PermissionEngine → List Edit → PermissionEngine
unfolding edit
edits e [] = e
edits e (x ∷ xs) = edits (edit e x) xs

abbrev pub IsSorted : PermissionEngine → Type 0
IsSorted e = IsDesc priority_of e.rules

edit-IsSorted : (e : PermissionEngine) (x : Edit) → IsSorted e → IsSorted (edit e x)
unfolding edit set_mode set_cwd add_parsed_rule add_rule add_rules remove_rules_by_source
    clear_rules
edit-IsSorted e (mode_set m) h = h
edit-IsSorted e (cwd_set c) h = h
edit-IsSorted e (parsed_added r) h = sort_desc-IsDesc priority_of _
edit-IsSorted e (added raw b s) h = sort_desc-IsDesc priority_of _
edit-IsSorted e (many_added raws b s) h = sort_desc-IsDesc priority_of _
edit-IsSorted e (source_removed s) h = IsDesc-keep_if priority_of _ e.rules h
edit-IsSorted e cleared h = tt

edits-IsSorted' : (e : PermissionEngine) (xs : List Edit) → IsSorted e → IsSorted (edits e xs)
unfolding edits
edits-IsSorted' e [] h = h
edits-IsSorted' e (x ∷ xs) h = edits-IsSorted' (edit e x) xs (edit-IsSorted e x h)

-- An engine that starts with no rules, or with rules in the order of their sources, keeps them in
-- that order through every change, and a decision reads them as they stand: the pipeline's own sort
-- moves nothing.
pub edits-IsSorted :
    (mode : Option PermissionMode) (rules : List PermissionRule) (cwd : Option Text)
    (xs : List Edit) (name : Text) (args : Fields)
    → IsDesc priority_of rules
    → let e = edits (new_engine mode (some rules) cwd) xs in
      IsSorted e × (engine_decide e name args ≡ decide_sorted (context e name args) e.rules)
unfolding engine_decide new_engine
edits-IsSorted mode rules cwd xs name args h =
    let e = edits (new_engine mode (some rules) cwd) xs in
    let s = edits-IsSorted' (new_engine mode (some rules) cwd) xs h in
    (
      s,
      unfold Pipeline.decide in
          ap (λ rs. decide_sorted (context e name args) rs)
            (sort_desc_of_IsDesc priority_of e.rules s),
    )
