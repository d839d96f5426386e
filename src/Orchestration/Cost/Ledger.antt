-- ===== src/Orchestration/Cost/Ledger.antt =====
-- The budget over every sequence of calls: the company's sums are those of its employees.
use tri_mc.Prelude.{
  ℕ, ◌+◌, ◌*◌, ◌≤◌, ◌≡◌, refl, inl, inr, Bool-cases, List, [], ◌∷◌, arith, take, ◌<◌, length, min,
  max,
}
use tri_mc.Prelude.Text.{Text, text, text_eq}
use tri_mc.Map.{Map, get, put, IsDistinct, put-IsDistinct}
use tri_mc.Orchestration.{EmployeeRecord, BudgetState, ModelTier, thinking, balanced, fast}
use tri_mc.Orchestration.Cost.{
  CostState, add_to, check_budget, record_cost, get_budget_state, reset_budget, current, spend,
  ensure_daily_reset, ensure_monthly_reset, estimate_cost, estimate_tokens, compute_cost, tiers,
  round_cost, pricing,
}

abbrev pub total : Map ℕ → ℕ
total [] = 0
total ((k, n) ∷ m) = n + total m

total-add_to : (m : Map ℕ) (k : Text) (n : ℕ) → total (add_to m k n) ≡ total m + n
unfolding get put
total-add_to [] k n = omega arith
total-add_to ((i, w) ∷ m) k n = elim (Bool-cases (text_eq i k)) [
  | inl e ↦ rw e (omega arith)
  | inr e ↦ rw e (omega (arith, total-add_to m k n))
]

-- The company's sums are the totals of the employees' sums, each employee once.
abbrev pub Balanced : BudgetState → Type 0
Balanced b =
    (b.company_daily_used ≡ total b.employee_daily_used)
    × (b.company_monthly_used ≡ total b.employee_monthly_used)
    × IsDistinct b.employee_daily_used
    × IsDistinct b.employee_monthly_used

daily-Balanced : (now : Text) (b : BudgetState) → Balanced b → Balanced (ensure_daily_reset now b)
unfolding ensure_daily_reset
daily-Balanced now b (d, m, x, y) = elim (Bool-cases (text_eq b.last_reset_day (take 10 now))) [
  | inl e ↦ rw e (d, m, x, y)
  | inr e ↦ rw e (refl, m, tt, y)
]

monthly-Balanced :
    (now : Text) (b : BudgetState) → Balanced b → Balanced (ensure_monthly_reset now b)
unfolding ensure_monthly_reset
monthly-Balanced now b (d, m, x, y) = elim (Bool-cases (text_eq b.last_reset_month (take 7 now))) [
  | inl e ↦ rw e (d, m, x, y)
  | inr e ↦ rw e (d, refl, x, tt)
]

current-Balanced : (now now' : Text) (b : BudgetState) → Balanced b → Balanced (current now now' b)
current-Balanced now now' b h =
    monthly-Balanced now' (ensure_daily_reset now b) (daily-Balanced now b h)

spend-Balanced : (b : BudgetState) (id : Text) (cost : ℕ) → Balanced b → Balanced (spend b id cost)
unfolding spend
spend-Balanced b id cost (d, m, x, y) = (
  omega (arith, d, total-add_to b.employee_daily_used id cost),
  omega (arith, m, total-add_to b.employee_monthly_used id cost),
  put-IsDistinct b.employee_daily_used id _ x,
  put-IsDistinct b.employee_monthly_used id _ y,
)

-- The calls that a client makes, each with its readings of the clock.
pub data Call : Type 0 where
  check : Text → Text → EmployeeRecord → ℕ → ℕ → Call
  spent : Text → Text → Text → Text → Text → ℕ → Text → Call
  look : Text → Text → Call
  reset : Text → Text → Call

unfoldable pub perform : CostState → Call → CostState
perform st (check now now' e tokens cost) = (check_budget now now' st e tokens cost).0
perform st (spent now now' now'' id task n model) =
    (record_cost now now' now'' st id task n model).0
perform st (look now now') = (get_budget_state now now' st).0
perform st (reset now now') = reset_budget now now'

unfoldable pub run : CostState → List Call → CostState
unfolding perform
run st [] = st
run st (x ∷ xs) = run (perform st x) xs

perform-Balanced : (st : CostState) (x : Call) → Balanced st.budget → Balanced (perform st x).budget
unfolding perform check_budget record_cost get_budget_state reset_budget
perform-Balanced st (check now now' e tokens cost) h = current-Balanced now now' st.budget h
perform-Balanced st (spent now now' now'' id task n model) h =
    spend-Balanced (current now now' st.budget) id (compute_cost n model)
      (current-Balanced now now' st.budget h)
perform-Balanced st (look now now') h = current-Balanced now now' st.budget h
perform-Balanced st (reset now now') h = (refl, refl, tt, tt)

run-Balanced' : (st : CostState) (xs : List Call) → Balanced st.budget → Balanced (run st xs).budget
unfolding run
run-Balanced' st [] h = h
run-Balanced' st (x ∷ xs) h = run-Balanced' (perform st x) xs (perform-Balanced st x h)

-- From a reset budget, after any calls at any times, the company's sum for the day is the total of
-- its employees' sums for the day, and so for the month; no employee is listed twice.
pub run-Balanced :
    (now now' : Text) (xs : List Call) → Balanced (run (reset_budget now now') xs).budget
unfolding reset_budget
run-Balanced now now' xs = run-Balanced' (reset_budget now now') xs (refl, refl, tt, tt)

-- Dollars for a million tokens of the tier's default model.
abbrev pub price : ModelTier → ℕ
price thinking = 15
price balanced = 15
price fast = 2

tier_cost : (tier : ModelTier) (n : ℕ) → compute_cost n (tiers tier).default_model ≡ n * price tier
unfolding compute_cost tiers pricing get text text_eq
tier_cost thinking n = refl
tier_cost balanced n = refl
tier_cost fast n = refl

tier_limit : (tier : ModelTier) → 10000 ≤ (tiers tier).max_tokens_per_turn
unfolding tiers
tier_limit thinking = omega arith
tier_limit balanced = omega arith
tier_limit fast = omega arith

round_near : (c : ℕ) → (round_cost c ≤ c + 500) × (c < round_cost c + 500)
round_near c = (omega arith, omega arith)

-- An estimate is of at least 10,000 tokens and at most the tier's limit for a turn, and its cost is
-- within half a thousandth of a dollar of what the tokens cost at the price of the tier's default
-- model, which is 15 dollars a million for the tiers `thinking` and `balanced` and 2 for `fast`.
pub estimate_bounds :
    (e : EmployeeRecord) (outputs : List Text)
    → let r = estimate_cost e outputs in
      let tier = e.cost_profile.model_tier in
      (r.model_tier ≡ tier)
      × (10000 ≤ r.estimated_tokens)
      × (r.estimated_tokens ≤ (tiers tier).max_tokens_per_turn)
      × (r.estimated_cost ≤ r.estimated_tokens * price tier + 500)
      × (r.estimated_tokens * price tier < r.estimated_cost + 500)
unfolding estimate_cost estimate_tokens
estimate_bounds e outputs =
    let tier = e.cost_profile.model_tier in
    let tokens = min (max 10000 (length outputs * 20000)) (tiers tier).max_tokens_per_turn in
    let limit = tier_limit tier in
    (
      refl,
      omega (arith, limit),
      omega arith,
      rw (tier_cost tier tokens) (round_near (tokens * price tier)).0,
      rw (tier_cost tier tokens) (round_near (tokens * price tier)).1,
    )
