-- ===== src/Orchestration/Samples.antt =====
-- Two employees, a task record and a request, for the tests of the orchestration layer.
use tri_mc.Prelude.{Option, none, some, List, [], ◌∷◌}
use tri_mc.Prelude.Text.{Text, text}
use tri_mc.Contracts.{AgentContract, IoContract}
use tri_mc.Orchestration.{
  EmployeeRecord, TaskRecord, TaskState, DispatchRequest, active, balanced, p1,
}

abbrev pub contract : Option IoContract → AgentContract
contract io = record {
  agent_id = some (text "ada");
  version = text "1";
  identity = none;
  responsibilities = none;
  decision_rights = none;
  collaborators = none;
  tools = none;
  io_contract = io;
}

abbrev pub writes_code : IoContract
writes_code = record {
  inputs = [];
  outputs =
      some (record { type = some (text "Code"); description = text "sources"; source = none } ∷ []);
}

abbrev pub employee : Text → Option IoContract → EmployeeRecord
employee id io = record {
  employee_id = id;
  contract = contract io;
  status = record { state = active; since = text "2026-01-01"; reason = none };
  current_load = 2;
  max_concurrent_tasks = 2;
  active_skills = [];
  cost_profile = record {
    daily_token_budget = 500000;
    model_tier = balanced;
    max_cost_per_task = 2000000;
    monthly_cost_cap = 50000000;
  };
  reporting_chain = text "ada" ∷ [];
}

-- Ada writes code and has her hands full; Bob writes nothing.
abbrev pub ada : EmployeeRecord
ada = employee (text "ada") (some writes_code)

abbrev pub bob : EmployeeRecord
bob = employee (text "bob") none

abbrev pub code : List Text
code = text "code" ∷ []

abbrev pub task : TaskState → TaskRecord
task state = record {
  task_id = text "task-1-1";
  type = text "build";
  priority = p1;
  description = text "write it";
  expected_outputs = code;
  decision_type = none;
  state = state;
  assigned_to = none;
  requester = text "ceo";
  parent_task_id = none;
  created_at = text "2026-08-14T12:00:00.000Z";
  updated_at = text "2026-08-14T12:00:00.000Z";
  retry_count = 0;
}

abbrev pub request : DispatchRequest
request = record {
  task = record {
    type = text "build";
    priority = p1;
    description = text "write it";
    expected_outputs = code;
    decision_type = none;
  };
  requester = text "ceo";
  context = none;
}

abbrev pub noon : Text
noon = text "2026-08-14T12:00:00.000Z"
