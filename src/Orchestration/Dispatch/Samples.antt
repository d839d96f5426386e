-- ===== src/Orchestration/Dispatch/Samples.antt =====
-- A dispatch that finds an employee, one that finds none, and what the executor then gets.
use tri_mc.Prelude.{◌+◌, ◌≡◌, refl, ◌≢◌, ◌⊎◌, true, false, none, some, List, [], ◌∷◌, arith}
use tri_mc.Prelude.Text.{text}
use tri_mc.Orchestration.{EmployeeRecord, RequestedTask}
use tri_mc.Orchestration.Samples.{ada, bob, code, noon, request}
use tri_mc.Orchestration.Cost.{check_layers, current}
use tri_mc.Orchestration.Cost.Samples.{fresh_day, ada_affordable}
use tri_mc.Orchestration.Router.Samples.{ada_picked, nobody_picked}
use tri_mc.Orchestration.Router.Choice.{Acceptable}
use tri_mc.Orchestration.Trace.{DispatchState}
use tri_mc.Orchestration.Dispatch.{dispatch}
use tri_mc.Orchestration.Dispatch.Steps.{Running, HandedUp, Rejected}
use tri_mc.Orchestration.Dispatch.Outcome.{decision_for, cost_for, dispatch_assigns}
use tri_mc.Orchestration.Dispatch.Guarantees.{dispatch_sound, dispatch_settles}
use tri_mc.Orchestration.Dispatch.Execution.{
  ExecutorContext, ExecutorReply, plain, dispatch_async, Fits, WrittenBack, dispatch_async_iff,
}

abbrev morning : DispatchState
morning = record { costs = fresh_day; task_counter = 0 }

abbrev both : List EmployeeRecord
both = bob ∷ ada ∷ []

none_picked :
    (p : EmployeeRecord)
    → (decision_for request (bob ∷ [])).primary ≡ some p
    → check_layers
        (current noon noon morning.costs.budget)
        p
        (cost_for request bob []).estimated_cost
      ≢ none
none_picked p h = absurd (cc (nobody_picked, h))

assigned_lem : (dispatch noon 5 morning request (some both) []).1.assigned_to ≡ some (text "ada")
assigned_lem =
    (dispatch_assigns noon 5 morning request bob (ada ∷ []) (some both) [] ada refl ada_picked
      ada_affordable (omega arith)).1

dispatch_sound_example :
    ((x : EmployeeRecord) × Acceptable both code none x × (x.employee_id ≡ text "ada"))
    × ((p : EmployeeRecord) × ((decision_for request both).primary ≡ some p)
        × (check_layers
              (current noon noon morning.costs.budget)
              p
              (cost_for request bob (ada ∷ [])).estimated_cost
            ≡ none))
dispatch_sound_example =
    dispatch_sound noon 5 morning request bob (ada ∷ []) (some both) [] (text "ada") refl
      assigned_lem

dispatch_settles_example :
    let (st', out) = dispatch noon 5 morning request (some both) [] in
    (Running out ⊎ (HandedUp out ⊎ Rejected out))
    × (st'.costs.cost_log ≡ morning.costs.cost_log)
    × ((st'.costs.budget ≡ morning.costs.budget)
        ⊎ (st'.costs.budget ≡ current noon noon morning.costs.budget))
    × ((st'.task_counter ≡ morning.task_counter) ⊎ (st'.task_counter ≡ morning.task_counter + 1))
dispatch_settles_example = dispatch_settles noon 5 morning request (some both) []

abbrev obliging : RequestedTask → ExecutorContext → ExecutorReply
obliging task context = record { ok = true; output = some (text "done"); error = none }

dispatch_async_iff_example :
    let (st', r) = dispatch noon 5 morning request (some both) [] in
    let out = dispatch_async noon 5 6 (text "/") (some obliging) morning request (some both) [] in
    (out.0 ≡ st')
    × (r.success ≡ true
        → (c : ExecutorContext) × (out.1.0 ≡ some c)
          × Fits (text "/") r c
          × WrittenBack r (obliging request.task c) out.1.1)
    × (r.success ≡ false → out.1 ≡ (none, plain r))
    × (dispatch_async noon 5 6 (text "/") none morning request (some both) []
        ≡ (st', (none, plain r)))
dispatch_async_iff_example =
    dispatch_async_iff noon 5 6 (text "/") obliging morning request (some both) []
