-- ===== src/Permissions/Samples.antt =====
-- The engine on small rule sets, and its theorems at concrete inputs.
use tri_mc.Prelude.{◌≡◌, refl, ◌≢◌, ◌↔◌, inl, inr, true, false, none, some, List, [], ◌∷◌, arith}
use tri_mc.Prelude.Sort.{sort_desc}
use tri_mc.Prelude.Text.{text, text_eq, text-ne, trim, lower, replace_unit, includes, starts_with}
use tri_mc.Map.{get}
use tri_mc.Json.{Fields, field, end, str, member, stringify}
use tri_mc.Permissions.{
  default_mode, accept_edits, bypass_permissions, allow, deny, ask, user_settings, project_settings,
  session, PermissionRule, DecisionContext, always_deny, mode_bypass,
}
use tri_mc.Permissions.Rules.{resolve_alias, parse_rule}
use tri_mc.Permissions.Rules.RoundTrip.{IsPrintable, print_rule, parse-print}
use tri_mc.Permissions.Safety.{normalize, extract_file_path, run_safety_check}
use tri_mc.Permissions.Pipeline.{decide, rule_matches}
use tri_mc.Permissions.Pipeline.Blocks.{SameRules}
use tri_mc.Permissions.Pipeline.Decision.{verdict, settled}
use tri_mc.Permissions.Pipeline.Steps.{Decides}
use tri_mc.Permissions.Pipeline.Order.{decide_iff}
use tri_mc.Permissions.Pipeline.Protected.{sensitive_path_protected}
use tri_mc.Permissions.Engine.{PermissionEngine, ToolCall}
use tri_mc.Permissions.Engine.Laws.{Edit, added, mode_set}

abbrev no_writes : PermissionRule
no_writes = record {
  tool_name = text "write_file";
  content = none;
  behavior = deny;
  source = project_settings;
  is_wildcard = false;
}

abbrev user_writes : PermissionRule
user_writes = record {
  tool_name = text "write_file";
  content = some (text "notes");
  behavior = allow;
  source = user_settings;
  is_wildcard = false;
}

abbrev notes : Fields
notes = field (text "file_path") (str (text "notes/a.md")) end

abbrev hook : Fields
hook = field (text "file_path") (str (text "C:\\repo\\.GIT\\hooks")) end

abbrev profile : Fields
profile = field (text "command") (str (text "cat ~/.ZSHRC")) end

abbrev writing : List PermissionRule → Fields → DecisionContext
writing rules args = record {
  mode = bypass_permissions;
  rules = rules;
  tool_name = text "write_file";
  tool_args = args;
  cwd = none;
}

-- The user's allow rule outranks the project's deny rule, where its content matches.
notes_allowed :
    verdict (decide (writing (no_writes ∷ user_writes ∷ []) notes)) ≡ settled true allow mode_bypass
unfolding decide sort_desc rule_matches run_safety_check text text_eq member stringify includes
    starts_with replace_unit lower
notes_allowed = refl

decide_iff_example :
    (verdict (decide (writing (no_writes ∷ []) notes)) ≡ settled false deny always_deny)
    ↔ Decides (writing (no_writes ∷ []) notes) (no_writes ∷ []) (settled false deny always_deny)
decide_iff_example = decide_iff (writing (no_writes ∷ []) notes) (settled false deny always_deny)

swapped : SameRules (no_writes ∷ user_writes ∷ []) (user_writes ∷ no_writes ∷ [])
swapped r = (
  λ m. elim m [ inl e ↦ inr (inl e) | inr (inl e) ↦ inl e | inr (inr z) ↦ absurd z ],
  λ m. elim m [ inl e ↦ inr (inl e) | inr (inl e) ↦ inl e | inr (inr z) ↦ absurd z ],
)

sensitive_path_protected_example : (decide (writing (user_writes ∷ []) hook)).allowed ≡ false
unfolding text text_eq member normalize lower replace_unit extract_file_path
sensitive_path_protected_example =
    sensitive_path_protected (writing (user_writes ∷ []) hook) (text "C:\\repo\\.GIT\\hooks")
      (text ".git/") refl refl (inl refl) (text "c:/repo/", text "hooks", refl)

abbrev setup : List Edit
setup = added (text "write_file(src)") ask session ∷ mode_set accept_edits ∷ []

abbrev two_rules : PermissionEngine
two_rules = record { mode = default_mode; rules = user_writes ∷ no_writes ∷ []; cwd = none }

abbrev first_call : ToolCall
first_call = record { id = text "1"; name = text "write_file"; arguments = notes }

abbrev second_call : ToolCall
second_call = record { id = text "2"; name = text "write_file"; arguments = hook }

other_ids : text "1" ≢ text "2"
unfolding text text_eq
other_ids = text-ne (text "1") (text "2") refl

abbrev call_rule : PermissionRule
call_rule = record {
  tool_name = text "Bash";
  content = some (text "f(x) ");
  behavior = ask;
  source = session;
  is_wildcard = true;
}

call_rule-IsPrintable : IsPrintable call_rule
unfolding text text_eq trim resolve_alias get
call_rule-IsPrintable = record {
  plain = omega arith;
  canonical = refl;
  shaped = (λ e. cc e, λ e. cc e);
}

parse-print_example : parse_rule (print_rule call_rule) ask session ≡ call_rule
parse-print_example = parse-print call_rule call_rule-IsPrintable
