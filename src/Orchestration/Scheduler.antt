-- ===== src/Orchestration/Scheduler.antt =====
-- The employee scheduler (src/orchestration/employee-scheduler.ts): pure functions on task records.
-- A refusal carries its reason as a constructor with what the message interpolates.
pub mod Life
pub mod Runs
mod Samples
use tri_mc.Prelude.{
  ℕ, ◌+◌, ◌-◌, Bool, true, false, not, ◌&&◌, Option, none, some, List, [], ◌∷◌, ◌==◌, ltb,
  if◌then◌else◌, any, keep_if, length, get_or,
}
use tri_mc.Prelude.Text.{Text, text_eq}
use tri_mc.Orchestration.{
  TaskState, queued, assigned, running, escalated, accepted, rejected, done, TaskRecord,
  EmployeeRecord, SchedulerConfig,
}

abbrev pub default_config : SchedulerConfig
default_config = record {
  max_concurrent_total = 20;
  default_task_timeout_ms = 300000;
  max_retries = 3;
}

abbrev state_index : TaskState → ℕ
state_index queued = 0
state_index assigned = 1
state_index running = 2
state_index escalated = 3
state_index accepted = 4
state_index rejected = 5
state_index done = 6

abbrev pub state_eq : TaskState → TaskState → Bool
state_eq a b = state_index a == state_index b

abbrev pub valid_transitions : TaskState → List TaskState
valid_transitions queued = assigned ∷ []
valid_transitions assigned = running ∷ escalated ∷ rejected ∷ []
valid_transitions running = accepted ∷ rejected ∷ escalated ∷ []
valid_transitions escalated = assigned ∷ rejected ∷ []
valid_transitions accepted = done ∷ []
valid_transitions rejected = []
valid_transitions done = []

abbrev pub validate_transition : TaskState → TaskState → Bool
validate_transition a b = any (state_eq b) (valid_transitions a)

abbrev pub is_assigned_to : Text → Option Text → Bool
is_assigned_to id none = false
is_assigned_to id (some j) = text_eq j id

abbrev pub active_for : EmployeeRecord → List TaskRecord → List TaskRecord
active_for employee =
    keep_if (λ t. is_assigned_to employee.employee_id t.assigned_to && state_eq t.state running)

pub has_capacity : EmployeeRecord → List TaskRecord → SchedulerConfig → Bool
has_capacity employee active_tasks config =
    ltb (length (active_for employee active_tasks)) employee.max_concurrent_tasks

pub data SchedulerError : Type 0 where
  invalid_transition : TaskState → TaskState → List TaskState → SchedulerError
  cannot_assign : TaskState → SchedulerError
  no_capacity : Text → SchedulerError
  cannot_escalate : TaskState → SchedulerError

-- `success`, and the record: the updated one, or the old one beside the error.
pub data SchedulerResult : Type 0 where
  success : TaskRecord → SchedulerResult
  failure : TaskRecord → SchedulerError → SchedulerResult

abbrev pub task_of : SchedulerResult → TaskRecord
task_of (success t) = t
task_of (failure t e) = t

-- `reason` is not read.
pub transition : Text → TaskRecord → TaskState → Option Text → SchedulerResult
transition now task to reason =
    if not (validate_transition task.state to)
    then failure task (invalid_transition task.state to (valid_transitions task.state))
    else success (record task { state = to; updated_at = now })

pub assign :
    Text → TaskRecord → EmployeeRecord → List TaskRecord → SchedulerConfig → SchedulerResult
assign now task employee active_tasks config =
    if not (state_eq task.state queued)
    then failure task (cannot_assign task.state)
    else if not (has_capacity employee active_tasks config)
    then failure task (no_capacity employee.employee_id)
    else success (record task {
      state = assigned;
      assigned_to = some employee.employee_id;
      updated_at = now;
    })

pub escalate : Text → TaskRecord → Text → SchedulerResult
escalate now task reason =
    if not (any (state_eq task.state) (assigned ∷ running ∷ escalated ∷ []))
    then failure task (cannot_escalate task.state)
    else success (record task {
      state = escalated;
      assigned_to = none;
      retry_count = task.retry_count + 1;
      updated_at = now;
    })

-- `started_at` is the time that `created_at` names, in milliseconds as `now` is.
pub is_timed_out : ℕ → ℕ → Option ℕ → Bool
is_timed_out now started_at timeout_ms =
    ltb (get_or timeout_ms default_config.default_task_timeout_ms) (now - started_at)

pub get_config : SchedulerConfig
get_config = default_config
