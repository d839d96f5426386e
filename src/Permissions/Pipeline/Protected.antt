-- ===== src/Permissions/Pipeline/Protected.antt =====
-- What no mode and no rule can open: sensitive paths and shell configurations. And what the
-- pipeline does not look at: the working directory, and whether a content is a wildcard.
use tri_mc.Prelude.{◌≡◌, sym, ◌∙◌, Bool, true, false, Option, some, arith, In}
use tri_mc.Prelude.Sort.{sort_desc}
use tri_mc.Prelude.Text.{Text, text}
use tri_mc.Json.{Fields}
use tri_mc.Permissions.{PermissionRule, DecisionContext}
use tri_mc.Permissions.Safety.{
  run_safety_check, is_edit_tool, extract_file_path, extract_shell_command, normalize,
  sensitive_paths, shell_configs,
}
use tri_mc.Permissions.Safety.Triggers.{PartOf, edit_triggered, shell_triggered}
use tri_mc.Permissions.Pipeline.{priority_of, rule_matches, decide}
use tri_mc.Permissions.Pipeline.Decision.{verdict, sorted-table}

unsafe_not_allowed :
    (ctx : DecisionContext)
    → (run_safety_check ctx.tool_name ctx.tool_args).triggered ≡ true
    → (decide ctx).allowed ≡ false
unfolding decide
unsafe_not_allowed ctx h = ground (arith, sorted-table ctx (sort_desc priority_of ctx.rules))

-- A tool that edits files is never allowed on a path that contains one of the sensitive paths, in
-- any spelling of case and slashes, whatever the mode and the rules are.
pub sensitive_path_protected :
    (ctx : DecisionContext) (path q : Text)
    → is_edit_tool ctx.tool_name ≡ true
    → extract_file_path ctx.tool_args ≡ some path
    → In q sensitive_paths
    → PartOf (normalize q) (normalize path)
    → (decide ctx).allowed ≡ false
sensitive_path_protected ctx path q edit found listed part =
    unsafe_not_allowed ctx
      (edit_triggered ctx.tool_name ctx.tool_args path q edit found listed part)

-- A shell command is never allowed that names one of the shell configurations, in any spelling of
-- case and slashes, whatever the mode and the rules are.
pub shell_config_protected :
    (ctx : DecisionContext) (line q : Text)
    → ctx.tool_name ≡ text "shell_exec"
    → extract_shell_command ctx.tool_args ≡ some line
    → In q shell_configs
    → PartOf (normalize q) (normalize line)
    → (decide ctx).allowed ≡ false
shell_config_protected ctx line q shell found listed part =
    unsafe_not_allowed ctx
      (shell_triggered ctx.tool_name ctx.tool_args line q shell found listed part)

-- The verdict does not depend on the working directory: in the accept-edits mode an edit outside it
-- is accepted as one inside is.
pub cwd_ignored :
    (ctx : DecisionContext) (cwd : Option Text)
    → verdict (decide (record ctx { cwd = cwd })) ≡ verdict (decide ctx)
unfolding decide
cwd_ignored ctx cwd =
    let rules = sort_desc priority_of ctx.rules in
    sorted-table (record ctx { cwd = cwd }) rules ∙ sym (sorted-table ctx rules)

-- Whether a rule's content is a wildcard or exact makes no difference to what it matches.
pub wildcard_ignored :
    (r : PermissionRule) (w : Bool) (name : Text) (args : Fields)
    → rule_matches (record r { is_wildcard = w }) name args ≡ rule_matches r name args
unfolding rule_matches
wildcard_ignored r w name args = ground arith
