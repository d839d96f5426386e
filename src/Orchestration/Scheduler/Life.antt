-- ===== src/Orchestration/Scheduler/Life.antt =====
-- The life of an orchestrated task: which calls of the scheduler go through, and what they change.
use tri_mc.Prelude.{
  ◌+◌, ◌<◌, ◌≡◌, refl, ◌↔◌, ◌⊎◌, inl, inr, Bool, true, Bool-cases, Option, none, some, List, [],
  ◌∷◌, arith, any, length,
}
use tri_mc.Prelude.Text.{Text}
use tri_mc.Orchestration.{
  TaskState, queued, assigned, running, escalated, accepted, rejected, done, TaskRecord,
  EmployeeRecord, SchedulerConfig,
}
use tri_mc.Orchestration.Scheduler.{
  SchedulerError, success, failure, transition, assign, escalate, task_of, validate_transition,
  active_for, has_capacity, state_eq, no_capacity, cannot_assign,
}

-- The transitions that the program documents.
pub data Move : TaskState → TaskState → Type 0 where
  take_up : Move queued assigned
  start : Move assigned running
  hand_up : Move assigned escalated
  turn_down : Move assigned rejected
  accept : Move running accepted
  reject : Move running rejected
  give_up : Move running escalated
  take_again : Move escalated assigned
  drop_task : Move escalated rejected
  finish : Move accepted done

valid_of_Move : (a b : TaskState) → Move a b → validate_transition a b ≡ true
valid_of_Move a b take_up = refl
valid_of_Move a b start = refl
valid_of_Move a b hand_up = refl
valid_of_Move a b turn_down = refl
valid_of_Move a b accept = refl
valid_of_Move a b reject = refl
valid_of_Move a b give_up = refl
valid_of_Move a b take_again = refl
valid_of_Move a b drop_task = refl
valid_of_Move a b finish = refl

Move-of_valid : (a b : TaskState) → validate_transition a b ≡ true → Move a b
Move-of_valid queued assigned h = take_up
Move-of_valid assigned running h = start
Move-of_valid assigned escalated h = hand_up
Move-of_valid assigned rejected h = turn_down
Move-of_valid running accepted h = accept
Move-of_valid running rejected h = reject
Move-of_valid running escalated h = give_up
Move-of_valid escalated assigned h = take_again
Move-of_valid escalated rejected h = drop_task
Move-of_valid accepted done h = finish
Move-of_valid _ _ h = cc h

-- `transition` succeeds exactly along a documented transition; it then writes the state and the time
-- of change alone, and otherwise gives the task back as it was.
pub transition_iff :
    (now : Text) (t : TaskRecord) (to : TaskState) (reason : Option Text)
    → ((transition now t to reason ≡ success (record t { state = to; updated_at = now }))
        ↔ Move t.state to)
      × (¬ Move t.state to → task_of (transition now t to reason) ≡ t)
unfolding transition
transition_iff now t to reason = elim (Bool-cases (validate_transition t.state to)) [
  | inl e ↦
      rw e ((λ _. Move-of_valid t.state to e, λ _. refl), λ n. absurd (n (Move-of_valid _ _ e)))
  | inr e ↦ rw e ((λ h. absurd (cc h), λ m. absurd (cc (valid_of_Move t.state to m, e))), λ n. refl)
]

state_eq_iff : (a b : TaskState) → (state_eq a b ≡ true) ↔ (a ≡ b)
state_eq_iff a b = (λ h. ground arith, λ h. ground arith)

module _ (now : Text) (t : TaskRecord) (e : EmployeeRecord) (active : List TaskRecord)
    (config : SchedulerConfig) where
  abbrev Free : Type 0
  Free = (t.state ≡ queued) × (length (active_for e active) < e.max_concurrent_tasks)

  abbrev pub given : TaskRecord
  given = record t { state = assigned; assigned_to = some e.employee_id; updated_at = now }

  assign-free : Free → assign now t e active config ≡ success given
  unfolding assign has_capacity
  assign-free (q, r) = rw q (ground arith)

  pub assign-stuck : ¬ Free → task_of (assign now t e active config) ≡ t
  unfolding assign has_capacity
  assign-stuck n = elim (Bool-cases (state_eq t.state queued)) [
    | inl q ↦ elim (Bool-cases (has_capacity e active config)) [
      | inl r ↦ absurd (n ((state_eq_iff t.state queued).0 q, ground arith))
      | inr r ↦ ground arith
    ]
    | inr q ↦ ground arith
  ]

  pub assign-cases :
      (assign now t e active config ≡ success given)
      ⊎ ((why : SchedulerError) × (assign now t e active config ≡ failure t why))
  unfolding assign
  assign-cases = elim (Bool-cases (state_eq t.state queued)) [
    | inl q ↦ elim (Bool-cases (has_capacity e active config)) [
      | inl r ↦ inl (ground arith)
      | inr r ↦ inr (no_capacity e.employee_id, ground arith)
    ]
    | inr q ↦ inr (cannot_assign t.state, ground arith)
  ]

  assign-Free : assign now t e active config ≡ success given → Free
  unfolding assign has_capacity
  assign-Free h = elim (Bool-cases (state_eq t.state queued)) [
    | inl q ↦ ((state_eq_iff t.state queued).0 q, ground arith)
    | inr q ↦ absurd (ground arith)
  ]

-- `assign` succeeds exactly on a queued task when the employee runs fewer tasks than its limit, and
-- then the employee owns the task; otherwise it gives the task back as it was.
pub assign_iff :
    (now : Text) (t : TaskRecord) (e : EmployeeRecord) (active : List TaskRecord)
    (config : SchedulerConfig)
    → let Free = (t.state ≡ queued) × (length (active_for e active) < e.max_concurrent_tasks) in
      ((assign now t e active config
          ≡ success
              (record t { state = assigned; assigned_to = some e.employee_id; updated_at = now }))
        ↔ Free)
      × (¬ Free → task_of (assign now t e active config) ≡ t)
assign_iff now t e active config = (
  (λ h. assign-Free now t e active config h, λ free. assign-free now t e active config free),
  λ n. assign-stuck now t e active config n,
)

abbrev can_escalate : TaskState → Bool
can_escalate s = any (state_eq s) (assigned ∷ running ∷ escalated ∷ [])

escalate-ready : (s : TaskState) → Move s escalated ⊎ (s ≡ escalated) → can_escalate s ≡ true
escalate-ready assigned h = refl
escalate-ready running h = refl
escalate-ready escalated h = refl
escalate-ready queued (inl m) = elim m [ ]
escalate-ready accepted (inl m) = elim m [ ]
escalate-ready rejected (inl m) = elim m [ ]
escalate-ready done (inl m) = elim m [ ]
escalate-ready _ (inr e) = cc e

escalate-from : (s : TaskState) → can_escalate s ≡ true → Move s escalated ⊎ (s ≡ escalated)
escalate-from assigned h = inl hand_up
escalate-from running h = inl give_up
escalate-from escalated h = inr refl
escalate-from _ h = cc h

-- `escalate` takes the tasks that a documented transition leads to escalated, and beyond them an
-- escalated one, which `transition` does not escalate again.
pub escalate_iff :
    (now reason : Text) (t : TaskRecord)
    → (((u : TaskRecord) × (escalate now t reason ≡ success u))
        ↔ (Move t.state escalated ⊎ (t.state ≡ escalated)))
      × (t.state ≡ escalated → (why : Option Text) → task_of (transition now t escalated why) ≡ t)
unfolding escalate transition
escalate_iff now reason t = (
  (
    λ (u, h). escalate-from t.state (ground arith),
    λ h. (
      record t {
        state = escalated;
        assigned_to = none;
        retry_count = t.retry_count + 1;
        updated_at = now;
      },
      let ready = escalate-ready t.state h in ground arith,
    ),
  ),
  λ e why. rw e refl,
)
