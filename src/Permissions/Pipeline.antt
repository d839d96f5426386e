-- ===== src/Permissions/Pipeline.antt =====
-- decision-pipeline.ts: one tool call against the rules, the safety check and the mode.
pub mod Blocks
pub mod Decision
pub mod Steps
pub mod Order
pub mod Protected
use tri_mc.Prelude.{
  ℕ, zero, Bool, true, false, not, ◌&&◌, ◌||◌, Option, none, some, List, [], ◌∷◌, ◌++◌, ltb, leb,
  ◌==◌, if◌then◌else◌, any, find, ◌≡◌, refl,
}
use tri_mc.Prelude.Sort.{sort_desc}
use tri_mc.Prelude.Text.{Text, text, text_eq, starts_with, includes, lower, replace_unit}
use tri_mc.Json.{Json, Fields, obj, stringify}
use tri_mc.Permissions.{
  PermissionMode, default_mode, accept_edits, bypass_permissions, PermissionBehavior, allow, deny,
  ask, behavior_eq, DecisionStep, always_deny, always_ask, safety_check, mode_bypass,
  mode_accept_edits, always_allow, default_deny, rule_source_priority, PermissionRule, Reason,
  by_deny_rule, by_ask_rule, by_allow_rule, bypass_active, edit_within_cwd, edit_unbounded,
  no_allow_rule, DecisionResult, DecisionContext,
}
use tri_mc.Permissions.Safety.{extract_file_path, is_edit_tool, run_safety_check}

abbrev pub priority_of : PermissionRule → ℕ
priority_of r = rule_source_priority r.source

-- `JSON.stringify(args).includes(content)`; a wildcard is matched as any other content.
abbrev content_matches : Option Text → Bool → Text → Bool
content_matches none wild args = true
content_matches (some []) wild args = true
content_matches (some (c ∷ s)) wild args =
    if wild then includes args (c ∷ s) else includes args (c ∷ s)

unfoldable pub rule_matches : PermissionRule → Text → Fields → Bool
rule_matches rule name args =
    text_eq rule.tool_name name
    && content_matches rule.content rule.is_wildcard (stringify (obj args))

module _ (name : Text) (args : Fields) where
  -- An allow rule that matches and has a source of strictly higher priority.
  pub overrides : PermissionRule → PermissionRule → Bool
  overrides rule r =
      behavior_eq r.behavior allow
      && rule_matches r name args
      && ltb (priority_of rule) (priority_of r)

  -- A rule of the given behaviour that matches and that no allow rule overrides.
  pub blocks : PermissionBehavior → List PermissionRule → PermissionRule → Bool
  unfolding overrides
  blocks b rules rule =
      behavior_eq rule.behavior b && rule_matches rule name args && not (any (overrides rule) rules)

  pub check_deny_rules : List PermissionRule → Option DecisionResult
  unfolding blocks
  check_deny_rules rules = elim (find (blocks deny rules) rules) [
    | none ↦ none
    | some rule ↦ some (record {
      allowed = false;
      behavior = deny;
      reason = some (by_deny_rule rule.source rule.content);
      decided_by = some always_deny;
    })
  ]

  pub check_ask_rules : List PermissionRule → Option DecisionResult
  unfolding blocks
  check_ask_rules rules = elim (find (blocks ask rules) rules) [
    | none ↦ none
    | some rule ↦ some (record {
      allowed = false;
      behavior = ask;
      reason = some (by_ask_rule rule.source rule.content);
      decided_by = some always_ask;
    })
  ]

  pub allows : PermissionRule → Bool
  allows rule = behavior_eq rule.behavior allow && rule_matches rule name args

  pub check_allow_rules : List PermissionRule → Option DecisionResult
  unfolding allows
  check_allow_rules rules = elim (find allows rules) [
    | none ↦ none
    | some rule ↦ some (record {
      allowed = true;
      behavior = allow;
      reason = some (by_allow_rule rule.source rule.content);
      decided_by = some always_allow;
    })
  ]

-- `/^[A-Za-z]:\\/.test(s)`
has_drive : Text → Bool
has_drive (l ∷ c ∷ b ∷ s) =
    (leb 65 l && leb l 90 || leb 97 l && leb l 122) && c == b':' && b == b'\\'
has_drive _ = false

-- `s.replace(/\/+/g, '/')`; the first argument says that the unit before was a slash.
one_slash : Bool → Text → Text
one_slash after [] = []
one_slash after (c ∷ s) =
    let slash = c == b'/' in
    let rest = one_slash slash s in if slash && after then rest else c ∷ rest

abbrev to_slashes : Text → Text
to_slashes = replace_unit b'\\' b'/'

pub resolve_relative_path : Text → Text → Text
unfolding has_drive one_slash
resolve_relative_path path cwd =
    if starts_with path (text "/") || has_drive path
    then path
    else one_slash false (to_slashes cwd ++ (b'/' ∷ path))

abbrev within : Text → Text → Bool
within path cwd =
    starts_with (lower (to_slashes (resolve_relative_path path cwd))) (lower (to_slashes cwd))

abbrev edit_accepted : Reason → DecisionResult
edit_accepted r = record {
  allowed = true;
  behavior = allow;
  reason = some r;
  decided_by = some mode_accept_edits;
}

-- `if (cwd)` and `if (filePath)` fail on the empty text too.
abbrev names_inside : Option Text → Option Text → Bool
names_inside (some (c ∷ cwd)) (some (d ∷ path)) = within (d ∷ path) (c ∷ cwd)
names_inside _ _ = false

pub check_accept_edits : Text → Fields → Option Text → Option DecisionResult
unfolding resolve_relative_path
check_accept_edits name args cwd =
    if not (is_edit_tool name)
    then none
    else if names_inside cwd (extract_file_path args)
    then some (edit_accepted (edit_within_cwd name))
    else some (edit_accepted (edit_unbounded name))

abbrev pub is_bypass : PermissionMode → Bool
is_bypass bypass_permissions = true
is_bypass _ = false

abbrev pub is_accept_edits : PermissionMode → Bool
is_accept_edits accept_edits = true
is_accept_edits _ = false

-- `const r = …; if (r) return r;`
infixr 20 ◌⊳◌
abbrev ◌⊳◌ : Option DecisionResult → DecisionResult → DecisionResult
some r ⊳ rest = r
none ⊳ rest = rest

-- Steps 6 and 7.
pub decide_by_allow : DecisionContext → List PermissionRule → DecisionResult
unfolding check_allow_rules
decide_by_allow ctx rules = check_allow_rules ctx.tool_name ctx.tool_args rules ⊳ record {
  allowed = false;
  behavior = deny;
  reason = some (no_allow_rule ctx.tool_name);
  decided_by = some default_deny;
}

-- Steps 3 to 7.
pub decide_by_mode : DecisionContext → List PermissionRule → DecisionResult
unfolding check_accept_edits decide_by_allow
decide_by_mode ctx rules =
    let safety = run_safety_check ctx.tool_name ctx.tool_args in
    if safety.triggered
    then record {
      allowed = false;
      behavior = ask;
      reason = safety.reason;
      decided_by = some safety_check;
    }
    else if is_bypass ctx.mode
    then record {
      allowed = true;
      behavior = allow;
      reason = some bypass_active;
      decided_by = some mode_bypass;
    }
    else ((if is_accept_edits ctx.mode
          then check_accept_edits ctx.tool_name ctx.tool_args ctx.cwd
          else none)
        ⊳ decide_by_allow ctx rules)

pub decide_sorted : DecisionContext → List PermissionRule → DecisionResult
unfolding check_deny_rules check_ask_rules decide_by_mode
decide_sorted ctx rules =
    check_deny_rules ctx.tool_name ctx.tool_args rules
    ⊳ check_ask_rules ctx.tool_name ctx.tool_args rules
    ⊳ decide_by_mode ctx rules

-- The comparator returns 0 on one source and the difference of two priorities otherwise.
unfoldable pub decide : DecisionContext → DecisionResult
unfolding decide_sorted
decide ctx = decide_sorted ctx (sort_desc priority_of ctx.rules)
