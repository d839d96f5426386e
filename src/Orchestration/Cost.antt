-- ===== src/Orchestration/Cost.antt =====
-- The cost controller (src/orchestration/cost-controller.ts). The module's budget and log are a
-- record; each reading of the clock is an argument, a text in ISO form. Prices are whole dollars for
-- a million tokens, so that tokens times price is the cost in millionths of a dollar.
pub mod Budget
pub mod Ledger
pub mod Samples
use tri_mc.Prelude.{
  ℕ, ◌+◌, ◌*◌, ◌/◌, min, max, Bool, true, false, not, Option, none, some, List, [], ◌∷◌, ◌++◌, ltb,
  if◌then◌else◌, length, get_or, take,
}
use tri_mc.Prelude.Text.{Text, text, text_eq}
use tri_mc.Map.{Map, get, put}
use tri_mc.Orchestration.{
  ModelTier, thinking, balanced, fast, ModelTierPolicy, EmployeeRecord, CostEstimate, CostRecord,
  BudgetState,
}

unfoldable pub tiers : ModelTier → ModelTierPolicy
tiers thinking = record {
  tier = thinking;
  max_tokens_per_turn = 250000;
  allowed_models = text "gpt-5.1" ∷ text "claude-4.5" ∷ text "gemini-3.0-pro" ∷ [];
  default_model = text "claude-4.5";
  fallback_chain = text "gpt-5.1" ∷ text "gemini-3.0-pro" ∷ [];
}
tiers balanced = record {
  tier = balanced;
  max_tokens_per_turn = 100000;
  allowed_models = text "claude-4.5" ∷ text "gpt-5.1" ∷ [];
  default_model = text "claude-4.5";
  fallback_chain = text "gpt-5.1" ∷ [];
}
tiers fast = record {
  tier = fast;
  max_tokens_per_turn = 32000;
  allowed_models = text "gpt-5.1-nano" ∷ text "haiku" ∷ [];
  default_model = text "gpt-5.1-nano";
  fallback_chain = text "haiku" ∷ [];
}

pub pricing : Map ℕ
pricing =
    (text "gpt-5.1", 15)
    ∷ (text "claude-4.5", 15)
    ∷ (text "gemini-3.0-pro", 10)
    ∷ (text "gpt-5.1-nano", 2)
    ∷ (text "haiku", 1)
    ∷ []

abbrev pub default_company_daily : ℕ
default_company_daily = 50000000

abbrev pub default_employee_daily : ℕ
default_employee_daily = 10000000

pub record CostState : Type 0 where
  pub budget : BudgetState
  pub cost_log : List CostRecord

pub estimate_tokens : List Text → ℕ
estimate_tokens expected_outputs = max 10000 (length expected_outputs * 20000)

pub compute_cost : ℕ → Text → ℕ
compute_cost tokens model = tokens * get_or (get pricing model) 5

-- `Math.round(cost * 1000) / 1000`: to the nearest thousandth of a dollar, halves upward.
abbrev pub round_cost : ℕ → ℕ
round_cost cost = (cost + 500) / 1000 * 1000

pub ensure_daily_reset : Text → BudgetState → BudgetState
ensure_daily_reset now b =
    let today = take 10 now in
    if not (text_eq b.last_reset_day today)
    then record b { company_daily_used = 0; employee_daily_used = []; last_reset_day = today }
    else b

pub ensure_monthly_reset : Text → BudgetState → BudgetState
ensure_monthly_reset now b =
    let this_month = take 7 now in
    if not (text_eq b.last_reset_month this_month)
    then record b {
      company_monthly_used = 0;
      employee_monthly_used = [];
      last_reset_month = this_month;
    }
    else b

-- The two resets that a call begins with, each with its own reading of the clock.
abbrev pub current : Text → Text → BudgetState → BudgetState
current now now' b = ensure_monthly_reset now' (ensure_daily_reset now b)

pub estimate_cost : EmployeeRecord → List Text → CostEstimate
estimate_cost employee expected_outputs =
    let tier = employee.cost_profile.model_tier in
    let policy = tiers tier in
    let tokens = min (estimate_tokens expected_outputs) policy.max_tokens_per_turn in
    record {
      estimated_tokens = tokens;
      estimated_cost = round_cost (compute_cost tokens policy.default_model);
      model_tier = tier;
    }

-- Why a dispatch is not approved, with what the message interpolates beside the constant caps.
pub data BudgetReason : Type 0 where
  company_daily_cap : BudgetReason
  employee_daily_cap : Text → BudgetReason
  per_task_cap : ℕ → ℕ → BudgetReason

abbrev pub used_today : BudgetState → Text → ℕ
used_today b employee_id = get_or (get b.employee_daily_used employee_id) 0

-- The three layers, on a budget that is up to date; nothing is the approval.
pub check_layers : BudgetState → EmployeeRecord → ℕ → Option BudgetReason
check_layers b employee cost =
    if ltb default_company_daily (b.company_daily_used + cost)
    then some company_daily_cap
    else if ltb default_employee_daily (used_today b employee.employee_id + cost)
    then some (employee_daily_cap employee.employee_id)
    else if ltb employee.cost_profile.max_cost_per_task cost
    then some (per_task_cap employee.cost_profile.max_cost_per_task cost)
    else none

-- The estimated tokens are not read.
unfoldable pub check_budget :
    Text → Text → CostState → EmployeeRecord → ℕ → ℕ → CostState × Option BudgetReason
check_budget now now' st employee estimated_tokens estimated_cost =
    let b = current now now' st.budget in
    (record st { budget = b }, check_layers b employee estimated_cost)

abbrev pub add_to : Map ℕ → Text → ℕ → Map ℕ
add_to m k n = put m k (get_or (get m k) 0 + n)

pub spend : BudgetState → Text → ℕ → BudgetState
spend b employee_id cost = record b {
  company_daily_used = b.company_daily_used + cost;
  company_monthly_used = b.company_monthly_used + cost;
  employee_daily_used = add_to b.employee_daily_used employee_id cost;
  employee_monthly_used = add_to b.employee_monthly_used employee_id cost;
}

pub record_cost : Text → Text → Text → CostState → Text → Text → ℕ → Text → CostState × CostRecord
record_cost now now' now'' st employee_id task_id tokens_consumed model_used =
    let cost = compute_cost tokens_consumed model_used in
    let r : CostRecord = record {
      employee_id = employee_id;
      task_id = task_id;
      tokens_consumed = tokens_consumed;
      model_used = model_used;
      cost = round_cost cost;
      timestamp = now'';
    } in
    (
      record {
        budget = spend (current now now' st.budget) employee_id cost;
        cost_log = st.cost_log ++ r ∷ [];
      },
      r,
    )

pub get_budget_state : Text → Text → CostState → CostState × BudgetState
get_budget_state now now' st = let b = current now now' st.budget in (record st { budget = b }, b)

pub get_model_tier_policy : ModelTier → ModelTierPolicy
get_model_tier_policy tier = tiers tier

pub reset_budget : Text → Text → CostState
reset_budget now now' = record {
  budget = record {
    company_daily_used = 0;
    company_monthly_used = 0;
    employee_daily_used = [];
    employee_monthly_used = [];
    last_reset_day = take 10 now;
    last_reset_month = take 7 now';
  };
  cost_log = [];
}
