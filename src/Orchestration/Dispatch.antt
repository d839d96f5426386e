-- ===== src/Orchestration/Dispatch.antt =====
-- The dispatch proxy (src/orchestration/dispatch-proxy.ts). A dispatch is synchronous: its readings
-- of the clock count as one, `now` in ISO form and `ms` in milliseconds. The executor is an argument,
-- as its reply is.
pub mod Steps
pub mod Outcome
pub mod Guarantees
pub mod Execution
mod Samples
use tri_mc.Prelude.{
  ℕ, ◌+◌, Bool, true, false, not, ◌||◌, Option, none, some, List, [], ◌∷◌, ◌++◌, if◌then◌else◌,
  length, find, get_or,
}
use tri_mc.Prelude.Text.{Text, text, decimal}
use tri_mc.Orchestration.{
  EmployeeRecord, TaskRecord, TaskPriority, DispatchRequest, RequestedTask, RequestContext,
  RoutingDecision, CostEstimate, MatchDetails, queued, assigned, running,
}
use tri_mc.Orchestration.Scheduler.{
  SchedulerError, SchedulerResult, success, failure, assign, transition, default_config, state_eq,
}
use tri_mc.Orchestration.Cost.{CostState, BudgetReason, estimate_cost, check_budget}
use tri_mc.Orchestration.Router.{route, is_active}
use tri_mc.Orchestration.Trace.{
  DispatchTraceEntry, RejectionReason, DispatchResult, DispatchState, trace_entry, reject, classify,
  load, estimate, route_step, escalate, budget, schedule, dispatch_step, classified, no_employees,
  loaded, estimated, no_match, escalating_to, matched_to, over_budget, budget_approved,
  scheduler_error, via_alternative, task_assigned, dispatched, no_employees_available,
  no_matching_employee, all_options_exhausted, budget_exceeded, not_scheduled,
}

abbrev parent_of : Option RequestContext → Option Text
parent_of none = none
parent_of (some c) = c.parent_task_id

pub create_task_record : Text → DispatchRequest → Text → TaskRecord
create_task_record now request task_id = record {
  task_id = task_id;
  type = request.task.type;
  priority = request.task.priority;
  description = request.task.description;
  expected_outputs = request.task.expected_outputs;
  decision_type = request.task.decision_type;
  state = queued;
  assigned_to = none;
  requester = request.requester;
  parent_task_id = parent_of request.context;
  created_at = now;
  updated_at = now;
  retry_count = 0;
}

pub next_task_id : ℕ → ℕ → Text
next_task_id ms counter = text "task-" ++ (decimal ms ++ (text "-" ++ decimal counter))

-- Up the path where there is one; otherwise the rejection.
pub hand_up :
    Text → List EmployeeRecord → RejectionReason → List DispatchTraceEntry → DispatchResult
hand_up now [] reason traces = reject reason traces
hand_up now (target ∷ path) reason traces = record {
  success = true;
  assigned_to = none;
  escalation_to = some target.employee_id;
  rejection_reason = none;
  cost_estimate = none;
  trace = traces ++ trace_entry now escalate true (escalating_to target.employee_id) ∷ [];
}

-- What the loop over the alternatives makes of one assignment, before the rest of the loop.
pub alternative_or :
    Text
    → EmployeeRecord
    → TaskRecord × List DispatchTraceEntry
    → SchedulerResult
    → TaskRecord × List DispatchTraceEntry
alternative_or now alt rest (success t) =
    (t, trace_entry now schedule true (via_alternative alt.employee_id) ∷ [])
alternative_or now alt rest (failure t e) = rest

-- The loop: the record as it leaves it, and what it traces.
pub try_alternatives :
    Text → TaskRecord → List EmployeeRecord → TaskRecord × List DispatchTraceEntry
try_alternatives now task [] = (task, [])
try_alternatives now task (alt ∷ alts) =
    alternative_or now alt (try_alternatives now task alts) (assign now task alt [] default_config)

pub primary_or :
    Text
    → TaskRecord
    → EmployeeRecord
    → TaskRecord × List DispatchTraceEntry
    → SchedulerResult
    → TaskRecord × List DispatchTraceEntry
primary_or now task primary rest (success t) =
    (t, trace_entry now schedule true (task_assigned task.task_id primary.employee_id) ∷ [])
primary_or now task primary (t', entries) (failure t e) =
    (t', trace_entry now schedule false (scheduler_error e) ∷ entries)

-- The assignment of step 5: the record as it leaves it, and what it traces.
pub schedule_task :
    Text → TaskRecord → EmployeeRecord → List EmployeeRecord → TaskRecord × List DispatchTraceEntry
schedule_task now task primary alternatives =
    primary_or now task primary (try_alternatives now task alternatives)
      (assign now task primary [] default_config)

-- Step 6, and the transition before it.
pub run_task :
    Text → Text → CostEstimate → List DispatchTraceEntry → SchedulerResult → DispatchResult
run_task now task_id cost traces (failure t e) =
    reject (not_scheduled e) (traces ++ trace_entry now schedule false (scheduler_error e) ∷ [])
run_task now task_id cost traces (success t) = record {
  success = true;
  assigned_to = t.assigned_to;
  escalation_to = none;
  rejection_reason = none;
  cost_estimate = some cost;
  trace = traces ++ trace_entry now dispatch_step true (dispatched task_id t.assigned_to) ∷ [];
}

pub start_task : Text → Text → CostEstimate → TaskRecord → List DispatchTraceEntry → DispatchResult
start_task now task_id cost task traces =
    if not (state_eq task.state assigned)
    then reject all_options_exhausted traces
    else run_task now task_id cost traces (transition now task running none)

-- Steps 5 and 6.
pub schedule_and_start :
    Text
    → Text
    → DispatchRequest
    → CostEstimate
    → EmployeeRecord
    → List EmployeeRecord
    → List DispatchTraceEntry
    → DispatchResult
schedule_and_start now task_id request cost primary alternatives traces =
    let scheduled =
      schedule_task now (create_task_record now request task_id) primary alternatives in
    start_task now task_id cost scheduled.0 (traces ++ scheduled.1)

-- What the answer of the budget gate, step 4, leads to.
pub after_budget :
    Text
    → ℕ
    → CostState
    → ℕ
    → DispatchRequest
    → CostEstimate
    → RoutingDecision
    → EmployeeRecord
    → List DispatchTraceEntry
    → Option BudgetReason
    → DispatchState × DispatchResult
after_budget now ms costs counter request cost decision primary traces (some why) = (
  record { costs = costs; task_counter = counter },
  hand_up now decision.escalation_path (budget_exceeded why)
      (traces ++ trace_entry now budget false (over_budget why) ∷ []),
)
after_budget now ms costs counter request cost decision primary traces none = (
  record { costs = costs; task_counter = counter + 1 },
  schedule_and_start now (next_task_id ms (counter + 1)) request cost primary decision.alternatives
      (traces ++ trace_entry now budget true budget_approved ∷ []),
)

-- Steps 4 to 6, for an employee that the router picked.
pub gate_and_start :
    Text
    → ℕ
    → DispatchState
    → DispatchRequest
    → CostEstimate
    → RoutingDecision
    → EmployeeRecord
    → List DispatchTraceEntry
    → DispatchState × DispatchResult
gate_and_start now ms st request cost decision primary traces =
    let checked = check_budget now now st.costs primary cost.estimated_tokens cost.estimated_cost in
    after_budget now ms checked.0 st.task_counter request cost decision primary traces checked.1

-- The first active employee, or the first of all.
abbrev pub best_guess : EmployeeRecord → List EmployeeRecord → EmployeeRecord
best_guess e es = get_or (find is_active (e ∷ es)) e

abbrev pub unmatched :
    Text
    → DispatchState
    → RoutingDecision
    → List DispatchTraceEntry
    → DispatchState × DispatchResult
unmatched now st decision traces = (
  st,
  hand_up now decision.escalation_path no_matching_employee
      (traces ++ trace_entry now route_step false (no_match decision.match_details) ∷ []),
)

abbrev pub matched_trace :
    Text → RoutingDecision → EmployeeRecord → List DispatchTraceEntry → List DispatchTraceEntry
matched_trace now decision primary traces =
    traces
    ++ trace_entry now route_step true
        (matched_to primary.employee_id decision.score decision.match_details.io_coverage)
      ∷ []

-- What the router's pick leads to.
pub after_route :
    Text
    → ℕ
    → DispatchState
    → DispatchRequest
    → CostEstimate
    → RoutingDecision
    → List DispatchTraceEntry
    → Option EmployeeRecord
    → DispatchState × DispatchResult
after_route now ms st request cost decision traces none = unmatched now st decision traces
after_route now ms st request cost decision traces (some primary) =
    if not decision.matched
    then unmatched now st decision traces
    else gate_and_start now ms st request cost decision primary
        (matched_trace now decision primary traces)

-- Steps 2 to 6, for a list of employees that is not empty.
pub estimate_and_route :
    Text
    → ℕ
    → DispatchState
    → DispatchRequest
    → EmployeeRecord
    → List EmployeeRecord
    → List DispatchTraceEntry
    → DispatchState × DispatchResult
estimate_and_route now ms st request e es traces =
    let cost = estimate_cost (best_guess e es) request.task.expected_outputs in
    let decision = route (e ∷ es) request.task.expected_outputs request.task.decision_type in
    after_route now ms st request cost decision
      (traces ++ trace_entry now estimate true (estimated cost) ∷ []) decision.primary

abbrev classify_trace : Text → DispatchRequest → DispatchTraceEntry
classify_trace now request =
    trace_entry now classify true (classified request.task.type request.task.priority)

abbrev pub empty_trace : Text → DispatchRequest → List DispatchTraceEntry
empty_trace now request = classify_trace now request ∷ trace_entry now load false no_employees ∷ []

pub with_employees :
    Text
    → ℕ
    → DispatchState
    → DispatchRequest
    → List EmployeeRecord
    → DispatchState × DispatchResult
with_employees now ms st request [] = (st, reject no_employees_available (empty_trace now request))
with_employees now ms st request (e ∷ es) =
    estimate_and_route now ms st request e es
      (classify_trace now request ∷ trace_entry now load true (loaded (length es + 1)) ∷ [])

-- `registry` is what the registry has loaded, and is read where the caller passes no employees.
pub dispatch :
    Text
    → ℕ
    → DispatchState
    → DispatchRequest
    → Option (List EmployeeRecord)
    → List EmployeeRecord
    → DispatchState × DispatchResult
dispatch now ms st request employees registry =
    with_employees now ms st request (get_or employees registry)
