-- ===== src/Orchestration/Trace.antt =====
-- What the dispatch proxy answers and traces (src/orchestration/dispatch-proxy.ts and the result
-- types of src/orchestration/types.ts). What a trace message and a rejection interpolate stands in
-- constructors.
use tri_mc.Prelude.{ℕ, Bool, false, Option, none, some, List}
use tri_mc.Prelude.Text.{Text}
use tri_mc.Orchestration.{TaskPriority, CostEstimate, MatchDetails}
use tri_mc.Orchestration.Scheduler.{SchedulerError}
use tri_mc.Orchestration.Cost.{CostState, BudgetReason}

pub data TraceStep : Type 0 where
  classify load estimate route_step escalate budget schedule dispatch_step : TraceStep

pub data TraceMessage : Type 0 where
  classified : Text → TaskPriority → TraceMessage
  no_employees : TraceMessage
  loaded : ℕ → TraceMessage
  estimated : CostEstimate → TraceMessage
  no_match : MatchDetails → TraceMessage
  escalating_to : Text → TraceMessage
  matched_to : Text → ℕ → ℕ → TraceMessage
  over_budget : BudgetReason → TraceMessage
  budget_approved : TraceMessage
  scheduler_error : SchedulerError → TraceMessage
  via_alternative : Text → TraceMessage
  task_assigned : Text → Text → TraceMessage
  dispatched : Text → Option Text → TraceMessage

pub record DispatchTraceEntry : Type 0 where
  pub step : TraceStep
  pub success : Bool
  pub message : TraceMessage
  pub timestamp : Text

pub data RejectionReason : Type 0 where
  no_employees_available no_matching_employee all_options_exhausted : RejectionReason
  budget_exceeded : BudgetReason → RejectionReason
  not_scheduled : SchedulerError → RejectionReason
  not_executed : Text → RejectionReason

pub record DispatchResult : Type 0 where
  pub success : Bool
  pub assigned_to : Option Text
  pub escalation_to : Option Text
  pub rejection_reason : Option RejectionReason
  pub cost_estimate : Option CostEstimate
  pub trace : List DispatchTraceEntry

-- The state of the modules that a dispatch touches: the budget and the counter of task ids.
pub record DispatchState : Type 0 where
  pub costs : CostState
  pub task_counter : ℕ

abbrev pub trace_entry : Text → TraceStep → Bool → TraceMessage → DispatchTraceEntry
trace_entry now step passed message = record {
  step = step;
  success = passed;
  message = message;
  timestamp = now;
}

abbrev pub reject : RejectionReason → List DispatchTraceEntry → DispatchResult
reject reason traces = record {
  success = false;
  assigned_to = none;
  escalation_to = none;
  rejection_reason = some reason;
  cost_estimate = none;
  trace = traces;
}
