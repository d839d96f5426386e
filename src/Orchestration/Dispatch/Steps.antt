-- ===== src/Orchestration/Dispatch/Steps.antt =====
-- The steps of a dispatch one by one: handing up, scheduling, and the budget gate.
use tri_mc.Prelude.{
  ℕ, ◌+◌, ◌<◌, ◌≡◌, refl, ap, ◌∙◌, ◌≢◌, ◌↔◌, ◌⊎◌, inl, inr, true, false, Option, none, some, List,
  [], ◌∷◌, ◌++◌, In, is_some,
}
use tri_mc.Prelude.Text.{Text}
use tri_mc.Orchestration.{
  EmployeeRecord, DispatchRequest, TaskRecord, TaskState, queued, assigned, running,
  RoutingDecision, CostEstimate,
}
use tri_mc.Orchestration.Scheduler.{default_config, state_eq}
use tri_mc.Orchestration.Scheduler.Life.{assign_iff, assign-cases, given, transition_iff, start}
use tri_mc.Orchestration.Cost.{CostState, check_layers, BudgetReason, current, check_budget}
use tri_mc.Orchestration.Trace.{
  DispatchState, DispatchResult, DispatchTraceEntry, RejectionReason, budget_exceeded,
}
use tri_mc.Orchestration.Dispatch.{
  gate_and_start, hand_up, start_task, schedule_task, primary_or, alternative_or, run_task,
  after_budget, schedule_and_start, try_alternatives, create_task_record, next_task_id,
}

-- A fresh record, and the same record with an employee on it.
abbrev pub fresh : Text → DispatchRequest → Text → TaskRecord
fresh now request id = create_task_record now request id

abbrev pub with : Text → DispatchRequest → Text → EmployeeRecord → TaskRecord
with now request id e = given now (create_task_record now request id) e [] default_config

module _ (now : Text) (request : DispatchRequest) (id : Text) where
  pub schedule-primary :
      (p : EmployeeRecord) (alts : List EmployeeRecord)
      → 0 < p.max_concurrent_tasks
      → (schedule_task now (fresh now request id) p alts).0 ≡ with now request id p
  unfolding schedule_task primary_or create_task_record
  schedule-primary p alts h =
      let ok =
        (assign_iff now (create_task_record now request id) p [] default_config).0.1 (refl, h) in
      rw ok refl

  -- After the loop the record is as it was, or an alternative owns it.
  alternatives-fit :
      (alts : List EmployeeRecord)
      → let t = (try_alternatives now (fresh now request id) alts).0 in
        (t ≡ fresh now request id)
        ⊎ ((e : EmployeeRecord) × In e alts × (t ≡ with now request id e))
  unfolding try_alternatives alternative_or
  alternatives-fit [] = inl refl
  alternatives-fit (a ∷ alts) = elim (assign-cases now (fresh now request id) a [] default_config) [
    | inl s ↦ inr (a, inl refl, rw s refl)
    | inr (why, f) ↦ elim (alternatives-fit alts) [
      | inl q ↦ inl (rw f q)
      | inr (e, m, q) ↦ inr (e, inr m, rw f q)
    ]
  ]

  pub schedule-fits :
      (p : EmployeeRecord) (alts : List EmployeeRecord)
      → let t = (schedule_task now (fresh now request id) p alts).0 in
        (t ≡ fresh now request id)
        ⊎ ((e : EmployeeRecord) × ((e ≡ p) ⊎ In e alts) × (t ≡ with now request id e))
  unfolding schedule_task primary_or try_alternatives
  schedule-fits p alts = elim (assign-cases now (fresh now request id) p [] default_config) [
    | inl s ↦ inr (p, inl refl, rw s refl)
    | inr (why, f) ↦ elim (alternatives-fit alts) [
      | inl q ↦ inl (rw f q)
      | inr (e, m, q) ↦ inr (e, inr m, rw f q)
    ]
  ]

state_eq-assigned : (s : TaskState) → s ≡ assigned → state_eq s assigned ≡ true
state_eq-assigned s h = rw h refl

abbrev pub first_id : List EmployeeRecord → Option Text
first_id [] = none
first_id (e ∷ es) = some e.employee_id

-- How a result can look: running with an employee, handed up, or rejected.
abbrev pub Running : DispatchResult → Type 0
Running r =
    (r.success ≡ true)
    × (is_some r.assigned_to ≡ true)
    × (r.escalation_to ≡ none)
    × (r.rejection_reason ≡ none)
    × (is_some r.cost_estimate ≡ true)

abbrev pub HandedUp : DispatchResult → Type 0
HandedUp r =
    (r.success ≡ true)
    × (r.assigned_to ≡ none)
    × (is_some r.escalation_to ≡ true)
    × (r.rejection_reason ≡ none)

abbrev pub Rejected : DispatchResult → Type 0
Rejected r =
    (r.success ≡ false)
    × (r.assigned_to ≡ none)
    × (r.escalation_to ≡ none)
    × (is_some r.rejection_reason ≡ true)

module _ (now id : Text) (cost : CostEstimate) (t : TaskRecord)
    (traces : List DispatchTraceEntry) where
  pub start-queued : t.state ≡ queued → Rejected (start_task now id cost t traces)
  unfolding start_task
  start-queued h = rw h (refl, refl, refl, refl)

  pub start-assigned :
      t.state ≡ assigned
      → let r = start_task now id cost t traces in
        (r.success ≡ true)
        × (r.assigned_to ≡ t.assigned_to)
        × (r.escalation_to ≡ none)
        × (r.rejection_reason ≡ none)
        × (r.cost_estimate ≡ some cost)
  unfolding start_task run_task
  start-assigned h =
      let go = (transition_iff now t running none).0.1 (rw h start) in
      let at_work = state_eq-assigned t.state h in rw (at_work, go) (refl, refl, refl, refl, refl)

pub hand_up-HandedUp :
    (now : Text) (path : List EmployeeRecord) (why : RejectionReason)
    (traces : List DispatchTraceEntry)
    → let r = hand_up now path why traces in
      (HandedUp r ⊎ Rejected r)
      × (r.escalation_to ≡ first_id path)
      × ((r.success ≡ true) ↔ (path ≢ []))
unfolding hand_up
hand_up-HandedUp now [] why traces =
    (inr (refl, refl, refl, refl), refl, (λ e. absurd (cc e), λ n. absurd (n refl)))
hand_up-HandedUp now (x ∷ path) why traces =
    (inl (refl, refl, refl, refl), refl, (λ e. λ q. cc q, λ n. refl))

-- Steps 5 and 6 end in a rejection, or with the primary or an alternative at work.
pub scheduled-cases :
    (now id : Text) (request : DispatchRequest) (cost : CostEstimate) (p : EmployeeRecord)
    (alts : List EmployeeRecord) (traces : List DispatchTraceEntry)
    → let r = schedule_and_start now id request cost p alts traces in
      Rejected r
      ⊎ (Running r
          × ((e : EmployeeRecord) × ((e ≡ p) ⊎ In e alts) × (r.assigned_to ≡ some e.employee_id))
          × (r.cost_estimate ≡ some cost))
unfolding schedule_and_start create_task_record
scheduled-cases now id request cost p alts traces =
    let out = schedule_task now (fresh now request id) p alts in
    elim (schedule-fits now request id p alts) [
      | inl q ↦ inl (start-queued now id cost out.0 (traces ++ out.1) (rw q refl))
      | inr (e, m, q) ↦
          let (a, b, c, d, f) = start-assigned now id cost out.0 (traces ++ out.1) (rw q refl) in
          let owner = b ∙ ap (λ (t : TaskRecord). t.assigned_to) q in
          inr ((a, rw owner refl, c, d, rw f refl), (e, m, owner), f)
    ]

-- Steps 4 to 6: refused by the budget and handed up, or approved and then as above.
module _ (now : Text) (ms : ℕ) (request : DispatchRequest) (cost : CostEstimate)
    (d : RoutingDecision) (p : EmployeeRecord) (traces : List DispatchTraceEntry) where
  abbrev pub Refused : ℕ → Option BudgetReason → DispatchState × DispatchResult → Type 0
  Refused counter o out =
      (o ≢ none)
      × (out.0.task_counter ≡ counter)
      × (HandedUp out.1 ⊎ Rejected out.1)
      × (out.1.escalation_to ≡ first_id d.escalation_path)
      × ((out.1.success ≡ true) ↔ (d.escalation_path ≢ []))

  abbrev pub Approved : ℕ → Option BudgetReason → DispatchState × DispatchResult → Type 0
  Approved counter o out =
      (o ≡ none)
      × (out.0.task_counter ≡ counter + 1)
      × ((traces' : List DispatchTraceEntry) × (out.1
            ≡ schedule_and_start now (next_task_id ms (counter + 1)) request cost p d.alternatives
                traces'))

  after-cases :
      (costs : CostState) (counter : ℕ) (o : Option BudgetReason)
      → let out = after_budget now ms costs counter request cost d p traces o in
        (out.0.costs ≡ costs) × (Refused counter o out ⊎ Approved counter o out)
  unfolding after_budget
  after-cases costs counter none = (refl, inr (refl, refl, (_, refl)))
  after-cases costs counter (some why) =
      let (a, b, c) = hand_up-HandedUp now d.escalation_path (budget_exceeded why) _ in
      (refl, inl (λ q. cc q, refl, a, b, c))

  pub gate-cases :
      (st : DispatchState)
      → let out = gate_and_start now ms st request cost d p traces in
        let b = current now now st.costs.budget in
        let o = check_layers b p cost.estimated_cost in
        (out.0.costs ≡ record st.costs { budget = b })
        × (Refused st.task_counter o out ⊎ Approved st.task_counter o out)
  unfolding gate_and_start check_budget
  gate-cases st = after-cases _ st.task_counter _
