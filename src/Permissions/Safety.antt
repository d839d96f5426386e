-- ===== src/Permissions/Safety.antt =====
-- safety-check.ts: checks that fire in every mode.
pub mod Triggers
use tri_mc.Prelude.{
  ℕ, Bool, true, false, not, ◌&&◌, ◌||◌, Option, none, some, List, [], ◌∷◌, leb, ◌==◌,
  if◌then◌else◌, find, drop, ◌≡◌, refl,
}
use tri_mc.Prelude.Text.{Text, text, text_eq, starts_with, includes, lower, is_space, replace_unit}
use tri_mc.Json.{Fields, end, field, str, member, as_string}
use tri_mc.Permissions.{Reason, sensitive_path, config_file, recursive_removal, SafetyCheckResult}

abbrev pub sensitive_paths : List Text
sensitive_paths = text ".git/" ∷ text ".git\\" ∷ text ".claude/" ∷ text ".claude\\" ∷ []

abbrev pub shell_configs : List Text
shell_configs =
    text ".bashrc"
    ∷ text ".bash_profile"
    ∷ text ".profile"
    ∷ text ".zshrc"
    ∷ text ".zprofile"
    ∷ text ".zshenv"
    ∷ text ".config/fish/"
    ∷ text "profile.ps1"
    ∷ text "Microsoft.PowerShell_profile.ps1"
    ∷ text "Microsoft.PowerShellISE_profile.ps1"
    ∷ text "Microsoft.VSCode_profile.ps1"
    ∷ []

abbrev pub is_edit_tool : Text → Bool
is_edit_tool name = text_eq name (text "write_file") || text_eq name (text "edit_file")

-- The first of the three arguments that is a string.
unfoldable pub extract_file_path : Fields → Option Text
extract_file_path args =
    let generic = as_string (member args (text "path")) in
    elim (as_string (member args (text "file_path"))) [
      | some p ↦ some p
      | none ↦ elim (as_string (member args (text "filePath"))) [ some p ↦ some p | none ↦ generic ]
    ]

unfoldable pub extract_shell_command : Fields → Option Text
extract_shell_command args =
    let generic = as_string (member args (text "cmd")) in
    elim (as_string (member args (text "command"))) [ some p ↦ some p | none ↦ generic ]

-- `s.toLowerCase().replace(/\\/g, '/')`
unfoldable pub normalize : Text → Text
normalize s = replace_unit b'\\' b'/' (lower s)

abbrev clear : SafetyCheckResult
clear = record { triggered = false; reason = none }

abbrev trip : Reason → SafetyCheckResult
trip r = record { triggered = true; reason = some r }

-- The first listed text that the normalized one includes.
first_included : Text → List Text → Option Text
unfolding normalize
first_included s patterns = find (λ p. includes s (normalize p)) patterns

abbrev is_word : ℕ → Bool
is_word c = leb 48 c && leb c 57 || leb 65 c && leb c 90 || leb 97 c && leb c 122 || c == 95

skip_spaces : Text → Text
skip_spaces [] = []
skip_spaces (c ∷ s) = if is_space c then skip_spaces s else c ∷ s

abbrev head_is_space : Text → Bool
head_is_space [] = false
head_is_space (c ∷ s) = is_space c

-- `/rm\s+-rf\s+<root>/` at the head of the text
removal_here : ℕ → Text → Bool
unfolding skip_spaces
removal_here root s =
    let flags = skip_spaces (drop 2 s) in
    let target = skip_spaces (drop 3 flags) in
    starts_with s (text "rm")
    && head_is_space (drop 2 s)
    && starts_with flags (text "-rf")
    && head_is_space (drop 3 flags)
    && starts_with target (root ∷ [])

-- `/\brm\s+-rf\s+<root>/.test(s)`; the first argument is the class of the unit before.
removal_from : Bool → ℕ → Text → Bool
unfolding removal_here
removal_from after_word root [] = false
removal_from after_word root (c ∷ s) =
    not after_word && removal_here root (c ∷ s) || removal_from (is_word c) root s

abbrev removes_forcibly : Text → Bool
removes_forcibly s = removal_from false b'/' s || removal_from false b'~' s

check_path : Text → SafetyCheckResult
unfolding first_included
check_path [] = clear
check_path (c ∷ p) = elim (first_included (normalize (c ∷ p)) sensitive_paths) [
  | none ↦ clear
  | some sensitive ↦ trip (sensitive_path sensitive)
]

unfoldable pub check_sensitive_file_paths : Fields → SafetyCheckResult
unfolding check_path extract_file_path
check_sensitive_file_paths args = elim (extract_file_path args) [
  | none ↦ clear
  | some p ↦ check_path p
]

check_command : Text → SafetyCheckResult
unfolding first_included removal_from
check_command [] = clear
check_command (c ∷ s) = elim (first_included (normalize (c ∷ s)) shell_configs) [
  | some config ↦ trip (config_file config)
  | none ↦ if removes_forcibly (normalize (c ∷ s)) then trip recursive_removal else clear
]

unfoldable pub check_shell_config_access : Fields → SafetyCheckResult
unfolding check_command extract_shell_command
check_shell_config_access args = elim (extract_shell_command args) [
  | none ↦ clear
  | some c ↦ check_command c
]

-- A tool has one name, so at most one of the checks fires; `task` is let through.
unfoldable pub run_safety_check : Text → Fields → SafetyCheckResult
unfolding check_sensitive_file_paths check_shell_config_access
run_safety_check name args =
    let files = check_sensitive_file_paths args in
    let shell = check_shell_config_access args in
    if is_edit_tool name && files.triggered
    then files
    else if text_eq name (text "shell_exec") && shell.triggered
    then shell
    else clear

root_removal :
    run_safety_check
      (text "shell_exec")
      (field (text "command") (str (text "cd x; RM -rf  /home")) end)
    ≡ trip recursive_removal
unfolding run_safety_check text text_eq member normalize lower replace_unit starts_with includes
    is_space
root_removal = refl
