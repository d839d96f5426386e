-- ===== src/Orchestration/Registry.antt =====
-- The employee registry (src/orchestration/employee-registry.ts). What `resolveContracts` returns
-- is an argument. The catch clause of the loader has no counterpart: nothing in the conversion of a
-- contract with the declared fields throws.
pub mod Ready
use tri_mc.Prelude.{
  ℕ, suc, Bool, true, false, ◌&&◌, Option, none, some, List, [], ◌∷◌, ◌++◌, map, if◌then◌else◌,
  get_or,
}
use tri_mc.Prelude.Text.{Text, text, lower, is_space}
use tri_mc.Contracts.{AgentContract, AgentIdentity, AgentResponsibility, Collaborators, ToolSpec}
use tri_mc.Orchestration.{EmployeeRecord, EmployeeStatus, EmployeeCostProfile, active, balanced}

abbrev pub default_max_concurrent : ℕ
default_max_concurrent = 2

abbrev pub default_cost_profile : EmployeeCostProfile
default_cost_profile = record {
  daily_token_budget = 500000;
  model_tier = balanced;
  max_cost_per_task = 2000000;
  monthly_cost_cap = 50000000;
}

-- `a || b`
abbrev pub or_else : Option Text → Option Text → Option Text
or_else (some (c ∷ s)) b = some (c ∷ s)
or_else _ b = b

abbrev display_name_of : Option AgentIdentity → Option Text
display_name_of none = none
display_name_of (some i) = i.display_name

pub derive_status : Text → EmployeeStatus
derive_status now = record {
  state = active;
  since = now;
  reason = some (text "Phase A default: contract loaded");
}

abbrev tool_skills : List ToolSpec → List Text
tool_skills [] = []
tool_skills (t ∷ ts) = elim t.name [
  | [] ↦ tool_skills ts
  | c ∷ s ↦ (text "tool:" ++ c ∷ s) ∷ tool_skills ts
]

pub derive_skills : AgentContract → List Text
derive_skills c =
    map (λ (r : AgentResponsibility). r.description) (get_or c.responsibilities [])
    ++ tool_skills (get_or c.tools [])

abbrev manager : Option Collaborators → List Text
manager none = []
manager (some w) = elim w.reports_to [
  | none ↦ []
  | some s ↦ elim s [ [] ↦ [] | x ∷ xs ↦ (x ∷ xs) ∷ [] ]
]

pub derive_reporting_chain : AgentContract → List Text
derive_reporting_chain c =
    get_or (or_else (display_name_of c.identity) (or_else c.agent_id none)) (text "unknown")
    ∷ manager c.collaborators

-- `s.replace(/\s+/g, '-')`; `inside` says that the run's dash is out already.
pub dash_spaces : Bool → Text → Text
dash_spaces inside [] = []
dash_spaces inside (c ∷ s) =
    let rest = dash_spaces true s in
    let rest' = dash_spaces false s in
    if is_space c then (if inside then rest else b'-' ∷ rest) else c ∷ rest'

pub employee_id_of : AgentContract → Text
employee_id_of c = dash_spaces false (
    lower
      (get_or (or_else c.agent_id (or_else (display_name_of c.identity) none)) (text "unknown")))

pub contract_to_employee : Text → AgentContract → EmployeeRecord
contract_to_employee now c = record {
  employee_id = employee_id_of c;
  contract = c;
  status = derive_status now;
  current_load = 0;
  max_concurrent_tasks = default_max_concurrent;
  active_skills = derive_skills c;
  cost_profile = default_cost_profile;
  reporting_chain = derive_reporting_chain c;
}

pub record LoadError : Type 0 where
  pub employee_id : Text
  pub path : Text
  pub message : Text

pub record ResolveError : Type 0 where
  pub path : Text
  pub message : Text

pub record LoadResult : Type 0 where
  pub employees : List EmployeeRecord
  pub errors : List LoadError

-- The clock is read once for each contract.
pub employees_from : (ℕ → Text) → ℕ → List AgentContract → List EmployeeRecord
employees_from clock i [] = []
employees_from clock i (c ∷ cs) = contract_to_employee (clock i) c ∷ employees_from clock (suc i) cs

pub load_employee_registry : (ℕ → Text) → List AgentContract → List ResolveError → LoadResult
load_employee_registry clock contracts errors = record {
  employees = employees_from clock 0 contracts;
  errors =
      map
        (λ (e : ResolveError). record {
          employee_id = text "unknown";
          path = e.path;
          message = e.message;
        })
        errors;
}
