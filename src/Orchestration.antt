-- ===== src/Orchestration.antt =====
-- The types of the orchestration layer (src/orchestration/types.ts). Money is in millionths of a
-- dollar, exactly; a reading of the clock is a text in ISO form.
pub mod Scheduler
pub mod Cost
pub mod Router
pub mod Registry
pub mod Trace
pub mod Dispatch
pub mod Samples
use tri_mc.Prelude.{ℕ, Bool, Option, List}
use tri_mc.Prelude.Text.{Text}
use tri_mc.Map.{Map}
use tri_mc.Contracts.{AgentContract}

pub data EmployeeState : Type 0 where
  active standby offline onboarding suspended : EmployeeState

pub record EmployeeStatus : Type 0 where
  pub state : EmployeeState
  pub since : Text
  pub reason : Option Text

pub data ModelTier : Type 0 where
  thinking balanced fast : ModelTier

pub record EmployeeCostProfile : Type 0 where
  pub daily_token_budget : ℕ
  pub model_tier : ModelTier
  pub max_cost_per_task : ℕ
  pub monthly_cost_cap : ℕ

pub record EmployeeRecord : Type 0 where
  pub employee_id : Text
  pub contract : AgentContract
  pub status : EmployeeStatus
  pub current_load : ℕ
  pub max_concurrent_tasks : ℕ
  pub active_skills : List Text
  pub cost_profile : EmployeeCostProfile
  pub reporting_chain : List Text

pub data TaskPriority : Type 0 where
  p0 p1 p2 : TaskPriority

pub data TaskState : Type 0 where
  queued assigned running escalated accepted rejected done : TaskState

pub record TaskRecord : Type 0 where
  pub task_id : Text
  pub type : Text
  pub priority : TaskPriority
  pub description : Text
  pub expected_outputs : List Text
  pub decision_type : Option Text
  pub state : TaskState
  pub assigned_to : Option Text
  pub requester : Text
  pub parent_task_id : Option Text
  pub created_at : Text
  pub updated_at : Text
  pub retry_count : ℕ

pub record MatchDetails : Type 0 where
  pub io_coverage : ℕ
  pub authority_match : Bool
  pub load_available : Bool

-- `score` is in tenths.
pub record RoutingDecision : Type 0 where
  pub matched : Bool
  pub primary : Option EmployeeRecord
  pub alternatives : List EmployeeRecord
  pub escalation_path : List EmployeeRecord
  pub score : ℕ
  pub match_details : MatchDetails

pub record RequestedTask : Type 0 where
  pub type : Text
  pub priority : TaskPriority
  pub description : Text
  pub expected_outputs : List Text
  pub decision_type : Option Text

pub record RequestContext : Type 0 where
  pub parent_task_id : Option Text
  pub ipd_phase : Option Text
  pub deadline : Option Text

pub record DispatchRequest : Type 0 where
  pub task : RequestedTask
  pub requester : Text
  pub context : Option RequestContext

pub record ModelTierPolicy : Type 0 where
  pub tier : ModelTier
  pub max_tokens_per_turn : ℕ
  pub allowed_models : List Text
  pub default_model : Text
  pub fallback_chain : List Text

pub record CostEstimate : Type 0 where
  pub estimated_tokens : ℕ
  pub estimated_cost : ℕ
  pub model_tier : ModelTier

pub record CostRecord : Type 0 where
  pub employee_id : Text
  pub task_id : Text
  pub tokens_consumed : ℕ
  pub model_used : Text
  pub cost : ℕ
  pub timestamp : Text

pub record BudgetState : Type 0 where
  pub company_daily_used : ℕ
  pub company_monthly_used : ℕ
  pub employee_daily_used : Map ℕ
  pub employee_monthly_used : Map ℕ
  pub last_reset_day : Text
  pub last_reset_month : Text

pub record SchedulerConfig : Type 0 where
  pub max_concurrent_total : ℕ
  pub default_task_timeout_ms : ℕ
  pub max_retries : ℕ
