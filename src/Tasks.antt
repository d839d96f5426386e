-- ===== src/Tasks.antt =====
-- The task controller (src/task-controller/controller.ts): an in-memory table of agent-loop tasks
-- behind a state machine. A method that throws returns its error beside the state that it leaves;
-- a reading of the clock is an argument, in the ISO form that the program stores.
pub mod Lifecycle
pub mod Fresh
pub mod Runs
pub mod Listing
mod Samples
use tri_mc.Prelude.{
  ℕ, ◌+◌, Bool, true, false, not, ◌&&◌, ◌||◌, Option, none, some, List, [], ◌∷◌, ◌++◌, ◌==◌,
  if◌then◌else◌, any, keep_if, length,
}
use tri_mc.Prelude.Text.{Text, text, decimal, trim}
use tri_mc.Map.{Map, get, put, values}

pub data TaskPriority : Type 0 where
  low normal high critical : TaskPriority

pub data TaskStatus : Type 0 where
  queued running completed failed cancelled : TaskStatus

-- The literal type 'trimc-main'.
pub data ControllerName : Type 0 where
  trimc_main : ControllerName

pub record Task : Type 0 where
  pub task_id : Text
  pub description : Text
  pub status : TaskStatus
  pub priority : TaskPriority
  pub controller : ControllerName
  pub created_at : Text
  pub updated_at : Text
  pub result : Option Text
  pub error : Option Text

abbrev pub status_index : TaskStatus → ℕ
status_index queued = 0
status_index running = 1
status_index completed = 2
status_index failed = 3
status_index cancelled = 4

abbrev pub status_eq : TaskStatus → TaskStatus → Bool
status_eq a b = status_index a == status_index b

abbrev priority_index : TaskPriority → ℕ
priority_index low = 0
priority_index normal = 1
priority_index high = 2
priority_index critical = 3

abbrev pub priority_eq : TaskPriority → TaskPriority → Bool
priority_eq a b = priority_index a == priority_index b

abbrev pub valid_transitions : TaskStatus → List TaskStatus
valid_transitions queued = running ∷ cancelled ∷ []
valid_transitions running = completed ∷ failed ∷ cancelled ∷ []
valid_transitions completed = []
valid_transitions failed = []
valid_transitions cancelled = []

abbrev pub terminal_statuses : List TaskStatus
terminal_statuses = completed ∷ failed ∷ cancelled ∷ []

abbrev pub is_terminal : TaskStatus → Bool
is_terminal s = any (status_eq s) terminal_statuses

-- The exceptions, with what their messages interpolate.
pub data TaskError : Type 0 where
  empty_description : TaskError
  not_found : Text → TaskError
  from_terminal : TaskStatus → TaskStatus → Text → TaskError
  invalid_transition : TaskStatus → TaskStatus → List TaskStatus → TaskError

pub data Result (A : Type 0) : Type 0 where
  ok : A → Result A
  err : TaskError → Result A

pub record TaskController : Type 0 where
  pub tasks : Map Task
  pub id_counter : ℕ

-- A method's new state and what it returns or throws.
abbrev pub Outcome : Type 0 → Type 0
Outcome A = TaskController × Result A

abbrev pub empty : TaskController
empty = record { tasks = []; id_counter = 0 }

pub task_key : ℕ → Text
task_key n = text "task_" ++ decimal n

abbrev pub is_empty : Text → Bool
is_empty [] = true
is_empty (_ ∷ _) = false

abbrev pub new_task : Text → Text → TaskPriority → Text → Task
new_task id description priority now = record {
  task_id = id;
  description = trim description;
  status = queued;
  priority = priority;
  controller = trimc_main;
  created_at = now;
  updated_at = now;
  result = none;
  error = none;
}

pub create_task : TaskController → Text → Text → TaskPriority → Outcome Task
create_task c now description priority =
    if is_empty description || is_empty (trim description)
    then (c, err empty_description)
    else (let id = task_key (c.id_counter + 1) in
        let t = new_task id description priority now in
        (record { tasks = put c.tasks id t; id_counter = c.id_counter + 1 }, ok t))

pub get_task : TaskController → Text → Option Task
get_task c id = get c.tasks id

abbrev passes {ℓ} : {A : Type ℓ} → (A → A → Bool) → Option A → A → Bool
passes eq none a = true
passes eq (some wanted) a = eq a wanted

pub list_tasks : TaskController → Option TaskStatus → Option TaskPriority → List Task
list_tasks c status priority =
    keep_if (λ t. passes priority_eq priority t.priority)
      (keep_if (λ t. passes status_eq status t.status) (values c.tasks))

pub update_task_status : TaskController → Text → Text → TaskStatus → Outcome Task
update_task_status c now id status = elim (get c.tasks id) [
  | none ↦ (c, err (not_found id))
  | some t ↦
      if is_terminal t.status
      then (c, err (from_terminal t.status status id))
      else if not (any (status_eq status) (valid_transitions t.status))
      then (c, err (invalid_transition t.status status (valid_transitions t.status)))
      else (let t' = record t { status = status; updated_at = now } in
          (record c { tasks = put c.tasks id t' }, ok t'))
]

-- What a method makes of the value that another one returned; an exception goes through.
abbrev map_ok : {A B : Type 0} → (A → B) → Outcome A → Outcome B
map_ok f (c, ok a) = (c, ok (f a))
map_ok f (c, err e) = (c, err e)

-- The clock is read twice.
pub complete_task : TaskController → Text → Text → Text → Text → Outcome Task
complete_task c now now' id result =
    map_ok {A = Task} (λ t. record t { result = some result; updated_at = now' })
      (update_task_status c now id completed)

pub fail_task : TaskController → Text → Text → Text → Text → Outcome Task
fail_task c now now' id error =
    map_ok {A = Task} (λ t. record t { error = some error; updated_at = now' })
      (update_task_status c now id failed)

-- The literal fields `controller`, `status` and `queueStatus` carry no information.
pub accept_placeholder : TaskController → Text → Outcome Text
accept_placeholder c now = map_ok (λ t. t.task_id) (create_task c now (text "placeholder") normal)

pub task_count : TaskController → ℕ
task_count c = length c.tasks

pub reset : TaskController → TaskController
reset c = record { tasks = []; id_counter = 0 }
