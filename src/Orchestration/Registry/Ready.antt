-- ===== src/Orchestration/Registry/Ready.antt =====
-- What every employee from the registry is.
use tri_mc.Prelude.{
  ℕ, suc, ◌≤◌, ◌≡◌, refl, ap, inl, inr, true, false, Bool, Bool-cases, List, [], ◌∷◌, arith, length,
  All, length-map,
}
use tri_mc.Prelude.Text.{Text, is_space}
use tri_mc.Contracts.{AgentContract}
use tri_mc.Orchestration.{EmployeeRecord}
use tri_mc.Orchestration.Cost.{estimate_cost, tiers}
use tri_mc.Orchestration.Cost.Ledger.{estimate_bounds}
use tri_mc.Orchestration.Router.{is_active, is_load_available}
use tri_mc.Orchestration.Registry.{
  contract_to_employee, employees_from, load_employee_registry, ResolveError, dash_spaces,
  employee_id_of, derive_status,
}

dash_spaces-none : (inside : Bool) (s : Text) → All (λ c. is_space c ≡ false) (dash_spaces inside s)
unfolding dash_spaces is_space
dash_spaces-none inside [] = tt
dash_spaces-none true (c ∷ s) = elim (Bool-cases (is_space c)) [
  | inl e ↦ rw e (dash_spaces-none true s)
  | inr e ↦ rw e (e, dash_spaces-none false s)
]
dash_spaces-none false (c ∷ s) = elim (Bool-cases (is_space c)) [
  | inl e ↦ rw e (refl, dash_spaces-none true s)
  | inr e ↦ rw e (e, dash_spaces-none false s)
]

-- Active, with room, with an id without white space, and with any estimate inside its limit for one
-- task.
abbrev pub Ready : EmployeeRecord → Type 0
Ready e =
    (is_active e ≡ true)
    × (is_load_available e ≡ true)
    × All (λ c. is_space c ≡ false) e.employee_id
    × ((outputs : List Text)
        → (estimate_cost e outputs).estimated_cost ≤ e.cost_profile.max_cost_per_task)

employee-Ready : (now : Text) (c : AgentContract) → Ready (contract_to_employee now c)
unfolding contract_to_employee derive_status is_load_available employee_id_of
employee-Ready now c = (
  refl,
  refl,
  dash_spaces-none false _,
  λ outputs.
      let (_, _, most, cost, _) = estimate_bounds (contract_to_employee now c) outputs in
      unfold tiers in omega (arith, most, cost),
)

from-Ready :
    (clock : ℕ → Text) (i : ℕ) (cs : List AgentContract) → All Ready (employees_from clock i cs)
unfolding employees_from
from-Ready clock i [] = tt
from-Ready clock i (c ∷ cs) = (employee-Ready (clock i) c, from-Ready clock (suc i) cs)

from-length :
    (clock : ℕ → Text) (i : ℕ) (cs : List AgentContract)
    → length (employees_from clock i cs) ≡ length cs
unfolding employees_from
from-length clock i [] = refl
from-length clock i (c ∷ cs) = ap suc (from-length clock (suc i) cs)

-- The registry makes one employee of every contract, in an order that no error changes. Each is
-- active and free, its id has no white space, and whatever outputs are asked of it, the estimate is
-- inside its limit for one task, so that this layer of the budget refuses none of them.
pub registry-Ready :
    (clock : ℕ → Text) (contracts : List AgentContract) (errors : List ResolveError)
    → let r = load_employee_registry clock contracts errors in
      (length r.employees ≡ length contracts)
      × All Ready r.employees
      × (length r.errors ≡ length errors)
unfolding load_employee_registry
registry-Ready clock contracts errors =
    (from-length clock 0 contracts, from-Ready clock 0 contracts, length-map _ errors)
