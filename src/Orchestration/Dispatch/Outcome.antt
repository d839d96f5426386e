-- ===== src/Orchestration/Dispatch/Outcome.antt =====
-- What a dispatch comes to: handed up, rejected, or running with an employee.
use tri_mc.Prelude.{
  ℕ, ◌+◌, ◌<◌, ◌≡◌, refl, ap, ◌∙◌, subst, get_or, ◌≢◌, ◌↔◌, ◌⊎◌, inl, inr, true, false, Bool-cases,
  Option, none, some, List, [], ◌∷◌, ◌++◌, arith,
}
use tri_mc.Prelude.Text.{Text}
use tri_mc.Orchestration.{
  EmployeeRecord, DispatchRequest, TaskRecord, RoutingDecision, CostEstimate,
}
use tri_mc.Orchestration.Cost.{check_layers, current, estimate_cost}
use tri_mc.Orchestration.Router.{route}
use tri_mc.Orchestration.Router.Choice.{route_matched_iff}
use tri_mc.Orchestration.Trace.{
  DispatchState, DispatchResult, DispatchTraceEntry, no_matching_employee,
}
use tri_mc.Orchestration.Dispatch.{
  dispatch, estimate_and_route, gate_and_start, hand_up, schedule_task, after_route,
  schedule_and_start, next_task_id, best_guess, matched_trace, with_employees,
}
use tri_mc.Orchestration.Dispatch.Steps.{
  fresh, Running, HandedUp, Rejected, first_id, schedule-primary, start-assigned, hand_up-HandedUp,
  gate-cases,
}

abbrev pub decision_for : DispatchRequest → List EmployeeRecord → RoutingDecision
decision_for request es = route es request.task.expected_outputs request.task.decision_type

-- The estimate is of the first active employee, whoever is picked afterwards.
abbrev pub cost_for : DispatchRequest → EmployeeRecord → List EmployeeRecord → CostEstimate
cost_for request e es = estimate_cost (best_guess e es) request.task.expected_outputs

module _ (now : Text) (ms : ℕ) (st : DispatchState) (request : DispatchRequest) where
  route-outcome :
      (cost : CostEstimate) (d : RoutingDecision) (traces : List DispatchTraceEntry)
      (o : Option EmployeeRecord)
      → (d.matched ≡ false → o ≡ none)
      → let out = after_route now ms st request cost d traces o in
        ((o ≡ none)
          × ((traces' : List DispatchTraceEntry) × (out
                ≡ (st, hand_up now d.escalation_path no_matching_employee traces'))))
        ⊎ ((p : EmployeeRecord) × (o ≡ some p)
            × ((traces' : List DispatchTraceEntry) × (out
                  ≡ gate_and_start now ms st request cost d p traces')))
  unfolding after_route
  route-outcome cost d traces none h = inl (refl, (_, refl))
  route-outcome cost d traces (some p) h = elim (Bool-cases d.matched) [
    | inl m ↦ inr (p, refl, (matched_trace now d p traces, rw m refl))
    | inr m ↦ absurd (cc (h m))
  ]

  pub dispatch-cases :
      (e : EmployeeRecord) (es : List EmployeeRecord) (employees : Option (List EmployeeRecord))
      (registry : List EmployeeRecord)
      → get_or employees registry ≡ e ∷ es
      → let out = dispatch now ms st request employees registry in
        let d = decision_for request (e ∷ es) in
        ((d.primary ≡ none)
          × ((traces' : List DispatchTraceEntry) × (out
                ≡ (st, hand_up now d.escalation_path no_matching_employee traces'))))
        ⊎ ((p : EmployeeRecord) × (d.primary ≡ some p)
            × ((traces' : List DispatchTraceEntry) × (out
                  ≡ gate_and_start now ms st request (cost_for request e es) d p traces')))
  unfolding dispatch with_employees estimate_and_route
  dispatch-cases e es employees registry h =
      let d = decision_for request (e ∷ es) in
      rw h (
        route-outcome (cost_for request e es) d _ d.primary
          (route_matched_iff (e ∷ es) request.task.expected_outputs request.task.decision_type).1)

pub nobody_assigned : (r : DispatchResult) → HandedUp r ⊎ Rejected r → r.assigned_to ≡ none
nobody_assigned r (inl (a, b, c, d)) = b
nobody_assigned r (inr (a, b, c, d)) = b

scheduled-primary :
    (now id : Text) (request : DispatchRequest) (cost : CostEstimate) (p : EmployeeRecord)
    (alts : List EmployeeRecord) (traces : List DispatchTraceEntry)
    → 0 < p.max_concurrent_tasks
    → let r = schedule_and_start now id request cost p alts traces in
      (r.success ≡ true)
      × (r.assigned_to ≡ some p.employee_id)
      × (r.escalation_to ≡ none)
      × (r.rejection_reason ≡ none)
      × (r.cost_estimate ≡ some cost)
unfolding schedule_and_start
scheduled-primary now id request cost p alts traces room =
    let out = schedule_task now (fresh now request id) p alts in
    let q = schedule-primary now request id p alts room in
    let (a, b, c, d, f) = start-assigned now id cost out.0 (traces ++ out.1) (rw q refl) in
    (a, b ∙ ap (λ (t : TaskRecord). t.assigned_to) q, c, d, f)

-- With employees at hand: if the router picks nobody, or the budget refuses the one it picks, the
-- task is handed up to the first on the escalation path and the dispatch succeeds exactly when that
-- path is not empty; no task id is used up, and nobody is assigned.
pub dispatch_hands_up :
    (now : Text) (ms : ℕ) (st : DispatchState) (request : DispatchRequest) (e : EmployeeRecord)
    (es : List EmployeeRecord) (employees : Option (List EmployeeRecord))
    (registry : List EmployeeRecord)
    → get_or employees registry ≡ e ∷ es
    → let d = decision_for request (e ∷ es) in
      ((p : EmployeeRecord)
        → d.primary ≡ some p
        → check_layers (current now now st.costs.budget) p (cost_for request e es).estimated_cost
          ≢ none)
      → let (st', out) = dispatch now ms st request employees registry in
        (out.escalation_to ≡ first_id d.escalation_path)
        × ((out.success ≡ true) ↔ (d.escalation_path ≢ []))
        × (out.assigned_to ≡ none)
        × (st'.task_counter ≡ st.task_counter)
dispatch_hands_up now ms st request e es employees registry h refused =
    let d = decision_for request (e ∷ es) in
    elim (dispatch-cases now ms st request e es employees registry h) [
      | inl (q, (traces, eq)) ↦
          let (a, b, c) = hand_up-HandedUp now d.escalation_path no_matching_employee traces in
          rw eq (
            b,
            c,
            nobody_assigned (hand_up now d.escalation_path no_matching_employee traces) a,
            refl,
          )
      | inr (p, q, (traces, eq)) ↦
          let out = gate_and_start now ms st request (cost_for request e es) d p traces in
          rw eq (elim (gate-cases now ms request (cost_for request e es) d p traces st).1 [
            | inl (n, t, a, b, c) ↦ (b, c, nobody_assigned out.1 a, t)
            | inr (n, t, x) ↦ absurd (refused p q n)
          ])
    ]

-- With employees at hand, a pick of the router that the budget approves gets the task whenever its
-- limit of tasks is not zero. What it is already running plays no part, for the capacity is checked
-- against an empty list of tasks, and the estimate is that of the first active employee. One task id
-- is used up.
pub dispatch_assigns :
    (now : Text) (ms : ℕ) (st : DispatchState) (request : DispatchRequest) (e : EmployeeRecord)
    (es : List EmployeeRecord) (employees : Option (List EmployeeRecord))
    (registry : List EmployeeRecord) (p : EmployeeRecord)
    → get_or employees registry ≡ e ∷ es
    → (decision_for request (e ∷ es)).primary ≡ some p
    → check_layers (current now now st.costs.budget) p (cost_for request e es).estimated_cost ≡ none
    → 0 < p.max_concurrent_tasks
    → let (st', out) = dispatch now ms st request employees registry in
      Running out
      × (out.assigned_to ≡ some p.employee_id)
      × (out.cost_estimate ≡ some (cost_for request e es))
      × (st'.task_counter ≡ st.task_counter + 1)
dispatch_assigns now ms st request e es employees registry p h pick approved room =
    let d = decision_for request (e ∷ es) in
    let cost = cost_for request e es in
    elim (dispatch-cases now ms st request e es employees registry h) [
      | inl (q, x) ↦ absurd (cc (pick, q))
      | inr (p', q, (traces, eq)) ↦
          let same : p' ≡ p = ground arith in
          let eq' =
            subst
              (λ y.
                dispatch now ms st request employees registry
                ≡ gate_and_start now ms st request cost d y traces)
              same eq in
          rw eq' (elim (gate-cases now ms request cost d p traces st).1 [
            | inl r ↦ absurd (r.0 approved)
            | inr (n, t, (traces', f)) ↦
                let (a, b, c, g, k) =
                  scheduled-primary now (next_task_id ms (st.task_counter + 1)) request cost p
                    d.alternatives traces' room in
                rw f ((a, rw b refl, c, g, rw k refl), b, k, t)
          ])
    ]
