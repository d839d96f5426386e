-- ===== src/Orchestration/Cost/Budget.antt =====
-- The budget gate: what each layer decides, and that approved spending stays inside the daily caps.
use tri_mc.Prelude.{ℕ, ◌+◌, ◌≤◌, ◌≡◌, refl, ◌≢◌, ◌↔◌, true, none, arith, take}
use tri_mc.Prelude.Text.{Text, text_eq, text_eq_iff, text_eq_refl}
use tri_mc.Map.{get-put_self}
use tri_mc.Orchestration.{EmployeeRecord, BudgetState}
use tri_mc.Orchestration.Cost.{
  CostState, check_budget, check_layers, current, used_today, default_company_daily,
  default_employee_daily, record_cost, compute_cost, spend, ensure_daily_reset,
  ensure_monthly_reset,
}

layers-approved :
    (b : BudgetState) (e : EmployeeRecord) (cost : ℕ)
    → (check_layers b e cost ≡ none) ↔ (
        (b.company_daily_used + cost ≤ default_company_daily)
        × (used_today b e.employee_id + cost ≤ default_employee_daily)
        × (cost ≤ e.cost_profile.max_cost_per_task))
unfolding check_layers
layers-approved b e cost =
    (λ h. (ground arith, ground arith, ground arith), λ (x, y, z). ground arith)

-- The budget is up to date: the day and the month of its last resets are those of the two clocks.
abbrev pub UpToDate : Text → Text → BudgetState → Type 0
UpToDate now now' b = (b.last_reset_day ≡ take 10 now) × (b.last_reset_month ≡ take 7 now')

pub current-UpToDate : (now now' : Text) (b : BudgetState) → UpToDate now now' (current now now' b)
unfolding ensure_daily_reset ensure_monthly_reset
current-UpToDate now now' b = (
  ground (
    arith,
    text_eq_iff b.last_reset_day (take 10 now),
    text_eq_iff b.last_reset_month (take 7 now'),
  ),
  ground (
    arith,
    text_eq_iff b.last_reset_day (take 10 now),
    text_eq_iff b.last_reset_month (take 7 now'),
  ),
)

pub current-idle :
    (now now' : Text) (b : BudgetState) → UpToDate now now' b → current now now' b ≡ b
unfolding ensure_daily_reset ensure_monthly_reset
current-idle now now' b (d, m) =
    let d' : text_eq b.last_reset_day (take 10 now) ≡ true = rw d (text_eq_refl _) in
    let m' : text_eq b.last_reset_month (take 7 now') ≡ true = rw m (text_eq_refl _) in ground arith

-- What has been spent today, after a check: nothing if the last reset was on another day, else what
-- it was before; and the sums of the month are kept within the month.
abbrev pub Reset : Text → Text → BudgetState → BudgetState → Type 0
Reset now now' b b' =
    UpToDate now now' b'
    × (b.last_reset_day ≢ take 10 now
        → (b'.company_daily_used ≡ 0) × ((id : Text) → used_today b' id ≡ 0))
    × (b.last_reset_day ≡ take 10 now
        → (b'.company_daily_used ≡ b.company_daily_used)
          × (b'.employee_daily_used ≡ b.employee_daily_used))
    × (b.last_reset_month ≡ take 7 now'
        → (b'.company_monthly_used ≡ b.company_monthly_used)
          × (b'.employee_monthly_used ≡ b.employee_monthly_used))

-- After an approved check, recording a cost that is no greater than the estimate, on the same day
-- and in the same month, leaves the company and the employee inside their daily caps, and is counted
-- in full.
pub approved_spending :
    (now now' : Text) (st : CostState) (e : EmployeeRecord) (tokens cost : ℕ) (task_id model : Text)
    (consumed : ℕ)
    → (check_budget now now' st e tokens cost).1 ≡ none
    → compute_cost consumed model ≤ cost
    → let st' = (check_budget now now' st e tokens cost).0 in
      let b = (record_cost now now' now st' e.employee_id task_id consumed model).0.budget in
      (b.company_daily_used ≤ default_company_daily)
      × (used_today b e.employee_id ≤ default_employee_daily)
      × (b.company_daily_used ≡ st'.budget.company_daily_used + compute_cost consumed model)
      × (used_today b e.employee_id
          ≡ used_today st'.budget e.employee_id + compute_cost consumed model)
unfolding check_budget record_cost spend
approved_spending now now' st e tokens cost task_id model consumed h le =
    let b = current now now' st.budget in
    let (x, y, z) = (layers-approved b e cost).0 h in
    rw (current-idle now now' b (current-UpToDate now now' st.budget))
      (rw get-put_self (omega (arith, x, le), omega (arith, y, le), refl, refl))
