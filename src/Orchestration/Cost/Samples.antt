-- ===== src/Orchestration/Cost/Samples.antt =====
-- The budget on a fresh day, and its theorems there.
use tri_mc.Prelude.{arith, ◌+◌, ◌≤◌, ◌≡◌, refl, none, List, [], ◌∷◌}
use tri_mc.Prelude.Text.{text, text_eq}
use tri_mc.Map.{get}
use tri_mc.Orchestration.Samples.{ada, bob, code, noon}
use tri_mc.Orchestration.Cost.{
  CostState, reset_budget, check_budget, check_layers, current, used_today, estimate_cost,
  estimate_tokens, compute_cost, tiers, pricing, default_company_daily, default_employee_daily,
  record_cost, ensure_daily_reset, ensure_monthly_reset,
}
use tri_mc.Orchestration.Cost.Budget.{approved_spending}
use tri_mc.Orchestration.Cost.Ledger.{Call, check, spent, look}

abbrev pub fresh_day : CostState
fresh_day = reset_budget noon noon

bob_estimate : (estimate_cost bob code).estimated_cost ≡ 300000
unfolding estimate_cost estimate_tokens tiers compute_cost pricing get text text_eq
bob_estimate = refl

pub ada_affordable :
    check_layers (current noon noon fresh_day.budget) ada (estimate_cost bob code).estimated_cost
    ≡ none
unfolding check_layers reset_budget ensure_daily_reset ensure_monthly_reset estimate_cost
    estimate_tokens tiers compute_cost pricing get text text_eq
ada_affordable = refl

affordable : (check_budget noon noon fresh_day ada 20000 300000).1 ≡ none
unfolding check_budget check_layers reset_budget ensure_daily_reset ensure_monthly_reset get text
    text_eq
affordable = refl

cheap : compute_cost 15000 (text "haiku") ≤ 300000
unfolding compute_cost pricing get text text_eq
cheap = omega arith

approved_spending_example :
    let st' = (check_budget noon noon fresh_day ada 20000 300000).0 in
    let model = text "haiku" in
    let b = (record_cost noon noon noon st' ada.employee_id (text "t") 15000 model).0.budget in
    (b.company_daily_used ≤ default_company_daily)
    × (used_today b ada.employee_id ≤ default_employee_daily)
    × (b.company_daily_used ≡ st'.budget.company_daily_used + compute_cost 15000 model)
    × (used_today b ada.employee_id
        ≡ used_today st'.budget ada.employee_id + compute_cost 15000 model)
approved_spending_example =
    approved_spending noon noon fresh_day ada 20000 300000 (text "t") (text "haiku") 15000
      affordable cheap

abbrev day : List Call
day =
    check noon noon ada 20000 300000
    ∷ spent noon noon noon (text "ada") (text "t") 15000 (text "haiku")
    ∷ look noon noon
    ∷ []
