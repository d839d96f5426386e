-- ===== src/Orchestration/Dispatch/Guarantees.antt =====
-- What every dispatch guarantees: who can get the task, how it ends, and what it leaves.
use tri_mc.Prelude.{
  ℕ, ◌+◌, ◌≡◌, refl, sym, subst, get_or, ◌⊎◌, inl, inr, Option, none, some, List, [], ◌∷◌, arith,
  In, List-cases,
}
use tri_mc.Prelude.Text.{Text}
use tri_mc.Orchestration.{EmployeeRecord, DispatchRequest, RoutingDecision, CostEstimate}
use tri_mc.Orchestration.Cost.{check_layers, current}
use tri_mc.Orchestration.Router.Choice.{Acceptable, route_primary}
use tri_mc.Orchestration.Trace.{
  DispatchState, DispatchResult, DispatchTraceEntry, no_matching_employee, reject,
  no_employees_available,
}
use tri_mc.Orchestration.Dispatch.{
  dispatch, gate_and_start, hand_up, schedule_and_start, next_task_id, with_employees, empty_trace,
}
use tri_mc.Orchestration.Dispatch.Steps.{
  Running, HandedUp, Rejected, hand_up-HandedUp, scheduled-cases, gate-cases, Refused, Approved,
}
use tri_mc.Orchestration.Dispatch.Outcome.{decision_for, cost_for, dispatch-cases, nobody_assigned}

-- The owner of a scheduled task is one of those that the router found acceptable.
scheduled-owner :
    (request : DispatchRequest) (e : EmployeeRecord) (es : List EmployeeRecord) (id : Text)
    (p : EmployeeRecord)
    → (decision_for request (e ∷ es)).primary ≡ some p
    → (r : DispatchResult) → r.assigned_to ≡ some id
    → Rejected r
      ⊎ (Running r
          × ((x : EmployeeRecord) × ((x ≡ p) ⊎ In x (decision_for request (e ∷ es)).alternatives)
              × (r.assigned_to ≡ some x.employee_id))
          × (r.cost_estimate ≡ some (cost_for request e es)))
    → (x : EmployeeRecord) × Acceptable
        (e ∷ es)
        request.task.expected_outputs
        request.task.decision_type
        x
      × (x.employee_id ≡ id)
scheduled-owner request e es id p pick r owner (inl (a, b, c, d)) = absurd (cc (b, owner))
scheduled-owner request e es id p pick r owner (inr (a, (x, m, o), f)) =
    let (ok, s, ds, best, alts, all) =
      route_primary (e ∷ es) request.task.expected_outputs request.task.decision_type p pick in
    (
      x,
      elim m [
        | inl q ↦
            subst
              (λ y. Acceptable (e ∷ es) request.task.expected_outputs request.task.decision_type y)
              (sym q) ok
        | inr i ↦ alts x i
      ],
      ground arith,
    )

-- A task is only ever assigned to an employee of the pool who is active, passes the router's gate and
-- scores at least 60, after the budget has approved the estimate for the one that the router picked.
pub dispatch_sound :
    (now : Text) (ms : ℕ) (st : DispatchState) (request : DispatchRequest) (e : EmployeeRecord)
    (es : List EmployeeRecord) (employees : Option (List EmployeeRecord))
    (registry : List EmployeeRecord) (id : Text)
    → get_or employees registry ≡ e ∷ es
    → (dispatch now ms st request employees registry).1.assigned_to ≡ some id
    → ((x : EmployeeRecord) × Acceptable
          (e ∷ es)
          request.task.expected_outputs
          request.task.decision_type
          x
        × (x.employee_id ≡ id))
      × ((p : EmployeeRecord) × ((decision_for request (e ∷ es)).primary ≡ some p)
          × (check_layers (current now now st.costs.budget) p (cost_for request e es).estimated_cost
              ≡ none))
dispatch_sound now ms st request e es employees registry id h owner =
    let d = decision_for request (e ∷ es) in
    let cost = cost_for request e es in
    elim (dispatch-cases now ms st request e es employees registry h) [
      | inl (q, (traces, eq)) ↦
          let (a, b, c) = hand_up-HandedUp now d.escalation_path no_matching_employee traces in
          absurd (
            cc (
              nobody_assigned (hand_up now d.escalation_path no_matching_employee traces) a,
              rw eq at owner,
            ))
      | inr (p, q, (traces, eq)) ↦
          let owner' = rw eq at owner in
          elim (gate-cases now ms request cost d p traces st).1 [
            | inl (n, t, a, b, c) ↦
                let out = gate_and_start now ms st request cost d p traces in
                absurd (cc (nobody_assigned out.1 a, owner'))
            | inr (n, t, (traces', f)) ↦
                let task_id = next_task_id ms (st.task_counter + 1) in
                let r = schedule_and_start now task_id request cost p d.alternatives traces' in
                (
                  scheduled-owner request e es id p q r (rw f at owner')
                      (scheduled-cases now task_id request cost p d.alternatives traces'),
                  (p, q, n),
                )
          ]
    ]

dispatch-empty :
    (now : Text) (ms : ℕ) (st : DispatchState) (request : DispatchRequest)
    (employees : Option (List EmployeeRecord)) (registry : List EmployeeRecord)
    → get_or employees registry ≡ []
    → dispatch now ms st request employees registry
      ≡ (st, reject no_employees_available (empty_trace now request))
unfolding dispatch with_employees
dispatch-empty now ms st request employees registry h = rw h refl

gate-Settled :
    (now : Text) (ms : ℕ) (request : DispatchRequest) (cost : CostEstimate) (d : RoutingDecision)
    (p : EmployeeRecord) (traces : List DispatchTraceEntry) (st : DispatchState)
    → let out = gate_and_start now ms st request cost d p traces in
      let o = check_layers (current now now st.costs.budget) p cost.estimated_cost in
      Refused now ms request cost d p traces st.task_counter o out
        ⊎ Approved now ms request cost d p traces st.task_counter o out
      → Running out.1 ⊎ (HandedUp out.1 ⊎ Rejected out.1)
gate-Settled now ms request cost d p traces st (inl (n, t, a, b, c)) = inr a
gate-Settled now ms request cost d p traces st (inr (n, t, (traces', f))) =
    let task_id = next_task_id ms (st.task_counter + 1) in
    rw f (elim (scheduled-cases now task_id request cost p d.alternatives traces') [
      | inl r ↦ inr (inr r)
      | inr r ↦ inl r.0
    ])

-- Every dispatch ends in one of three ways: the task runs with an employee and has an estimate, or it
-- is handed up, or it is rejected with a reason. It never spends: the log of costs stays as it was,
-- and the budget is at most brought up to date. It uses up one task id at most.
pub dispatch_settles :
    (now : Text) (ms : ℕ) (st : DispatchState) (request : DispatchRequest)
    (employees : Option (List EmployeeRecord)) (registry : List EmployeeRecord)
    → let (st', out) = dispatch now ms st request employees registry in
      (Running out ⊎ (HandedUp out ⊎ Rejected out))
      × (st'.costs.cost_log ≡ st.costs.cost_log)
      × ((st'.costs.budget ≡ st.costs.budget)
          ⊎ (st'.costs.budget ≡ current now now st.costs.budget))
      × ((st'.task_counter ≡ st.task_counter) ⊎ (st'.task_counter ≡ st.task_counter + 1))
dispatch_settles now ms st request employees registry =
    elim (List-cases (get_or employees registry)) [
      | inl h ↦
          rw (dispatch-empty now ms st request employees registry h)
            (inr (inr (refl, refl, refl, refl)), refl, inl refl, inl refl)
      | inr (e, es, h) ↦
          let d = decision_for request (e ∷ es) in
          let cost = cost_for request e es in
          elim (dispatch-cases now ms st request e es employees registry h) [
            | inl (q, (traces, eq)) ↦
                let a = (hand_up-HandedUp now d.escalation_path no_matching_employee traces).0 in
                rw eq (inr a, refl, inl refl, inl refl)
            | inr (p, q, (traces, eq)) ↦
                let (c, g) = gate-cases now ms request cost d p traces st in
                rw eq (
                  gate-Settled now ms request cost d p traces st g,
                  rw c refl,
                  inr (rw c refl),
                  elim g [ inl r ↦ inl r.1 | inr r ↦ inr r.1 ],
                )
          ]
    ]
