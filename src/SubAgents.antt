-- ===== src/SubAgents.antt =====
-- The tools of a sub-agent (src/agent-loop/sub-agent/tools-resolve.ts and the table of
-- built-in.ts). The tools of the sub-agent tier, which agent-core keeps, are an argument.
pub mod Names
pub mod Granted
mod Samples
use tri_mc.Prelude.{
  ℕ, Bool, true, false, not, ◌&&◌, ◌||◌, Option, none, some, List, [], ◌∷◌, ◌++◌, if◌then◌else◌,
  ◌==◌, map, any, keep_if, find, get_or,
}
use tri_mc.Prelude.Text.{Text, text, text_eq, trim, lower, join}
use tri_mc.Map.{Map, get}

pub record ToolDefinition : Type 0 where
  pub name : Text
  pub description : Option Text

-- What is read of an agent's definition here.
pub record AgentDefinition : Type 0 where
  pub tools : List Text
  pub disallowed_tools : Option (List Text)

abbrev pub claude_tool_map : Map Text
claude_tool_map =
    (text "Read", text "read_file")
    ∷ (text "Bash", text "shell_exec")
    ∷ (text "Glob", text "glob_search")
    ∷ (text "Write", text "write_file")
    ∷ (text "Edit", text "edit_file")
    ∷ (text "Task", text "task")
    ∷ []

abbrev pub tri_mc_names : List Text
tri_mc_names =
    text "read_file"
    ∷ text "write_file"
    ∷ text "edit_file"
    ∷ text "shell_exec"
    ∷ text "glob_search"
    ∷ text "task"
    ∷ []

-- What `.` of a regular expression does not take.
abbrev is_line_end : ℕ → Bool
is_line_end c = c == 10 || c == 13 || c == 0x2028 || c == 0x2029

-- Whether what is left has no line end and a closing parenthesis as its last unit.
closes : Text → Bool
closes [] = false
closes (c ∷ []) = c == b')'
closes (c ∷ d ∷ s) = not (is_line_end c) && closes (d ∷ s)

-- `s.replace(/\(.*\)$/, '')`: from the first parenthesis from which the rest matches.
unfoldable pub strip_sub_command : Text → Text
unfolding closes
strip_sub_command [] = []
strip_sub_command (c ∷ s) =
    let rest = strip_sub_command s in if c == b'(' && closes s then [] else c ∷ rest

abbrev fallback : Text → Option Text
fallback low = if any (text_eq low) tri_mc_names then some low else none

-- The loop over the entries of the table, without regard to case.
unfoldable pub find_any_case : Map Text → Text → Option Text
find_any_case [] low = fallback low
find_any_case ((cc', name) ∷ rest) low =
    let more = find_any_case rest low in if text_eq (lower cc') low then some name else more

abbrev pub by_name : Text → Option Text → Option Text
by_name base (some name) = some name
by_name base none =
    if any (text_eq base) tri_mc_names
    then some base
    else find_any_case claude_tool_map (lower base)

-- A name that every object of the language has, such as `constructor`, gives a value in the source
-- that is the name of no tool.
unfoldable pub resolve_claude_tool_name : Text → Option Text
unfolding strip_sub_command find_any_case
resolve_claude_tool_name declaration =
    let base = trim (strip_sub_command declaration) in by_name base (get claude_tool_map base)

-- The names that resolve.
unfoldable pub resolved : List Text → List Text
resolved [] = []
resolved (d ∷ ds) = with_name (resolve_claude_tool_name d) (resolved ds)
  where
    with_name : Option Text → List Text → List Text
    with_name none names = names
    with_name (some name) names = name ∷ names

abbrev pub has_name : List Text → ToolDefinition → Bool
has_name names t = any (text_eq t.name) names

abbrev without : List Text → List ToolDefinition → List ToolDefinition
without names = keep_if (λ t. not (has_name names t))

abbrev drop_disallowed : List ToolDefinition → Option (List Text) → List ToolDefinition
drop_disallowed tools none = tools
drop_disallowed tools (some []) = tools
drop_disallowed tools (some (d ∷ ds)) = without (resolved (d ∷ ds)) tools

-- The tools of the tier, or of them those that the agent declares.
unfoldable pub resolve_agent_tools : List ToolDefinition → AgentDefinition → List ToolDefinition
unfolding resolved
resolve_agent_tools subagent_tools agent =
    if any (text_eq (text "*")) agent.tools
    then drop_disallowed subagent_tools agent.disallowed_tools
    else keep_if (has_name (resolved agent.tools)) subagent_tools

-- With no name that resolves nothing is filtered out, as in the source, which asks for that first.
unfoldable pub filter_tools_for_agent : List ToolDefinition → AgentDefinition → List ToolDefinition
unfolding resolved
filter_tools_for_agent tools agent = drop_disallowed tools agent.disallowed_tools

-- `s.split('.')[0]`
abbrev first_sentence : Text → Text
first_sentence [] = []
first_sentence (c ∷ s) = let rest = first_sentence s in if c == b'.' then [] else c ∷ rest

abbrev described : ToolDefinition → Option Text → Text
described t none = t.name
described t (some d) = first_sentence d

abbrev catalog_line : ToolDefinition → Text
catalog_line t = text "- " ++ (t.name ++ (text ": " ++ described t t.description))

pub build_tool_catalog : List ToolDefinition → Text
build_tool_catalog [] = text "No tools available."
build_tool_catalog (t ∷ ts) =
    text "Available tools:\n" ++ join (text "\n") (map catalog_line (t ∷ ts))

-- The tools that a sub-agent is started with (spawn.ts).
pub tools_for_agent : List ToolDefinition → AgentDefinition → List ToolDefinition
tools_for_agent subagent_tools agent =
    filter_tools_for_agent (resolve_agent_tools subagent_tools agent) agent
