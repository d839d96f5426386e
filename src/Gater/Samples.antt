-- ===== src/Gater/Samples.antt =====
-- A contract with a shell of high risk, asked by a tier that may use everything.
use tri_mc.Prelude.{◌≡◌, ◌↔◌, true, false, Option, some, List, [], ◌∷◌, find, get_or}
use tri_mc.Prelude.Text.{Text, text}
use tri_mc.Contracts.{ToolSpec, high, medium}
use tri_mc.Gater.{PermissionResult, check_tool_permission, named, granted, audited}
use tri_mc.Gater.Layers.{Harmless, gater_iff}

abbrev shell : ToolSpec
shell = record {
  name = text "shell_exec";
  scope = [];
  risk_level = high;
  requires_approval = true;
  runtime_equivalent = text "openclaw:shell";
}

abbrev every_tier : Text → Text → PermissionResult
every_tier name tier = granted

abbrev specs : Option (List ToolSpec)
specs = some (shell ∷ [])

gater_iff_example :
    let r = check_tool_permission every_tier (text "shell_exec") (text "core") specs in
    ((r.allowed ≡ true) ↔ (
      ((every_tier (text "shell_exec") (text "core")).allowed ≡ true)
      × ((s : ToolSpec)
          → find (named (text "shell_exec")) (get_or specs []) ≡ some s
          → Harmless s.risk_level)))
    × ((every_tier (text "shell_exec") (text "core")).allowed ≡ false
        → r ≡ every_tier (text "shell_exec") (text "core"))
    × ((s : ToolSpec)
        → (every_tier (text "shell_exec") (text "core")).allowed ≡ true
        → find (named (text "shell_exec")) (get_or specs []) ≡ some s
        → s.risk_level ≡ medium
        → r.reason ≡ some audited)
gater_iff_example = gater_iff every_tier (text "shell_exec") (text "core") specs
