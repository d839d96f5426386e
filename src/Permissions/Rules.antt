-- ===== src/Permissions/Rules.antt =====
-- rule-parser.ts: "ToolName(content)" to a rule.
pub mod Escapes
pub mod RoundTrip
use mathlib.Core.List.{reverse}
use tri_mc.Prelude.{
  ℕ, zero, suc, ◌+◌, ◌-◌, ◌%◌, Bool, true, false, not, ◌&&◌, ◌||◌, Option, none, some, List, [],
  ◌∷◌, ◌++◌, map, ◌==◌, if◌then◌else◌, get_or, length, take, drop, ◌≡◌, refl,
}
use tri_mc.Prelude.Text.{Text, text, text_eq, trim, ends_with}
use tri_mc.Map.{Map, get}
use tri_mc.Permissions.{PermissionRule, PermissionBehavior, RuleSource, allow, user_settings}

-- The names that `Object.prototype` has are not looked up in the table by any rule of the program.
abbrev legacy_aliases : Map Text
legacy_aliases =
    (text "Task", text "task")
    ∷ (text "KillShell", text "task")
    ∷ (text "AgentOutputTool", text "task")
    ∷ (text "BashOutputTool", text "task")
    ∷ (text "FileRead", text "read_file")
    ∷ (text "FileWrite", text "write_file")
    ∷ (text "FileEdit", text "edit_file")
    ∷ (text "Grep", text "glob_search")
    ∷ (text "Glob", text "glob_search")
    ∷ (text "TodoWrite", text "write_file")
    ∷ (text "TaskCreate", text "task")
    ∷ (text "TaskGet", text "task")
    ∷ (text "TaskUpdate", text "task")
    ∷ (text "TaskList", text "task")
    ∷ (text "TaskStop", text "task")
    ∷ (text "TaskOutput", text "task")
    ∷ []

unfoldable pub resolve_alias : Text → Text
resolve_alias name = get_or (get legacy_aliases name) name

-- The run of backslashes at the head of a text that is read backwards.
backslashes : Text → ℕ
backslashes [] = 0
backslashes (c ∷ s) = let more = backslashes s in if c == b'\\' then suc more else 0

-- `before` is what stands before the position, nearest first.
abbrev is_escaped : Text → Bool
is_escaped before = backslashes before % 2 == 1

paren_from : Text → ℕ → Text → Option ℕ
paren_from before i [] = none
paren_from before i (c ∷ s) =
    let later = paren_from (c ∷ before) (i + 1) s in
    if c == b'(' && not (is_escaped before) then some i else later

-- `none` for -1
pub find_unescaped_paren : Text → Option ℕ
unfolding paren_from backslashes
find_unescaped_paren s = paren_from [] 0 s

-- `s.replace(/ab/g, c)` for units a, b and c
replace_pair : ℕ → ℕ → ℕ → Text → Text
replace_pair a b c [] = []
replace_pair a b c (x ∷ []) = x ∷ []
replace_pair a b c (x ∷ y ∷ s) =
    let met = c ∷ replace_pair a b c s in
    let other = x ∷ replace_pair a b c (y ∷ s) in if x == a && y == b then met else other

pub unescape_content : Text → Text
unfolding replace_pair
unescape_content s =
    replace_pair b'\\' b'\\' b'\\' (replace_pair b'\\' b')' b')' (replace_pair b'\\' b'(' b'(' s))

abbrev tool_rule : Text → PermissionBehavior → RuleSource → PermissionRule
tool_rule name behavior source = record {
  tool_name = name;
  content = none;
  behavior = behavior;
  source = source;
  is_wildcard = false;
}

-- `s || undefined`
abbrev or_undefined : Text → Option Text
or_undefined [] = none
or_undefined (c ∷ s) = some (c ∷ s)

-- `s.slice(0, -1)`
abbrev but_last : Text → Text
but_last s = take (length s - 1) s

pub content_rule : Text → Text → PermissionBehavior → RuleSource → PermissionRule
content_rule name normalized behavior source =
    if text_eq normalized [] || text_eq normalized (text "*")
    then tool_rule name behavior source
    else (let wild = ends_with normalized (text "*") || ends_with normalized (text ":*") in
        record {
          tool_name = name;
          content = or_undefined (
              if ends_with normalized (text ":*")
              then but_last normalized
              else if wild
              then but_last normalized
              else normalized);
          behavior = behavior;
          source = source;
          is_wildcard = wild;
        })

pub parse_rule : Text → PermissionBehavior → RuleSource → PermissionRule
parse_rule raw behavior source = elim (find_unescaped_paren raw) [
  | none ↦ tool_rule (resolve_alias (trim raw)) behavior source
  | some i ↦
      content_rule (resolve_alias (trim (take i raw)))
        (unescape_content (drop (i + 1) (take (length raw - 1) raw))) behavior source
]

pub parse_rules : List Text → PermissionBehavior → RuleSource → List PermissionRule
unfolding parse_rule
parse_rules raws behavior source = map (λ r. parse_rule r behavior source) raws

curl_rule : parse_rule (text "FileRead(a\\)b *)") allow user_settings ≡ record {
  tool_name = text "read_file";
  content = some (text "a)b ");
  behavior = allow;
  source = user_settings;
  is_wildcard = true;
}
unfolding parse_rule content_rule resolve_alias find_unescaped_paren unescape_content text text_eq
    trim ends_with get
curl_rule = refl
