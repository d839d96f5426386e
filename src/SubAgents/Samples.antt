-- ===== src/SubAgents/Samples.antt =====
-- Tests of the tools of sub-agents, and a concrete run of the theorem on them.
use tri_mc.Prelude.{◌≡◌, refl, ◌↔◌, none, some, [], ◌∷◌, In}
use tri_mc.Prelude.Text.{text, text_eq, lower, trim}
use tri_mc.Map.{get}
use tri_mc.SubAgents.{
  filter_tools_for_agent, resolve_agent_tools, ToolDefinition, AgentDefinition,
  resolve_claude_tool_name, tools_for_agent,
}
use tri_mc.SubAgents.Granted.{Declares, Disallows, tools_for_agent_iff}

stripped : resolve_claude_tool_name (text "Bash(git diff:*)") ≡ some (text "shell_exec")
unfolding resolve_claude_tool_name text text_eq trim get lower
stripped = refl

any_case : resolve_claude_tool_name (text "bash") ≡ some (text "shell_exec")
unfolding resolve_claude_tool_name text text_eq trim get lower
any_case = refl

unknown : resolve_claude_tool_name (text "Browser") ≡ none
unfolding resolve_claude_tool_name text text_eq trim get lower
unknown = refl

abbrev shell : ToolDefinition
shell = record { name = text "shell_exec"; description = none }

abbrev reader : ToolDefinition
reader = record { name = text "read_file"; description = some (text "Reads. All.") }

abbrev explorer : AgentDefinition
explorer = record {
  tools = text "Read" ∷ text "Bash(git:*)" ∷ [];
  disallowed_tools = some (text "Bash" ∷ []);
}

only_reader : tools_for_agent (shell ∷ reader ∷ []) explorer ≡ reader ∷ []
unfolding tools_for_agent filter_tools_for_agent resolve_agent_tools resolve_claude_tool_name text
    text_eq trim get lower
only_reader = refl

tools_for_agent_iff_example :
    In shell (tools_for_agent (shell ∷ reader ∷ []) explorer)
    ↔ In shell (shell ∷ reader ∷ []) × Declares explorer shell × ¬ Disallows explorer shell
tools_for_agent_iff_example = tools_for_agent_iff (shell ∷ reader ∷ []) explorer shell
