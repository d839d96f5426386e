-- ===== src/Orchestration/Router.antt =====
-- The capability router (src/orchestration/capability-router.ts). Scores are in tenths: the source
-- adds 0.6 for each per cent of coverage, 25 for authority and 15 for load.
pub mod Choice
pub mod Samples
use tri_mc.Prelude.{
  ℕ, ◌+◌, ◌*◌, ◌/◌, Bool, true, false, not, ◌&&◌, ◌||◌, Option, none, some, List, [], ◌∷◌, map, ltb,
  leb, ◌==◌, if◌then◌else◌, length, get_or, any, find, keep_if, drop, head?,
}
use tri_mc.Prelude.Text.{Text, lower, text_eq}
use tri_mc.Prelude.Sort.{sort_desc}
use tri_mc.Contracts.{AgentContract, AgentIdentity, DecisionRights, IoContract, IoContractEntry}
use tri_mc.Orchestration.{
  EmployeeState, active, standby, offline, onboarding, suspended, EmployeeRecord, RoutingDecision,
  MatchDetails,
}

-- `a.toLowerCase() === b.toLowerCase()`
abbrev pub same_word : Text → Text → Bool
same_word a b = text_eq (lower a) (lower b)

abbrev pub is_active : EmployeeRecord → Bool
is_active e = elim e.status.state [ active ↦ true | _ ↦ false ]

abbrev pub outputs_of : Option IoContract → List IoContractEntry
outputs_of none = []
outputs_of (some io) = get_or io.outputs []

abbrev pub offers : List IoContractEntry → Text → Bool
offers targets out = any (λ (t : IoContractEntry). same_word (get_or t.type []) out) targets

-- `Math.round((matched / required) * 100)`, halves upward.
abbrev pub percent : ℕ → ℕ → ℕ
percent matched required = (200 * matched + required) / (2 * required)

pub match_io : EmployeeRecord → List Text → Bool × ℕ
match_io employee [] = (true, 100)
match_io employee (r ∷ rs) =
    let required = r ∷ rs in
    let matched = keep_if (offers (outputs_of employee.contract.io_contract)) required in
    let coverage = percent (length matched) (length required) in (leb 80 coverage, coverage)

abbrev lists : Option (List Text) → Text → Bool
lists none word = false
lists (some words) word = any (λ w. same_word w word) words

abbrev authority : Option DecisionRights → Text → Bool
authority none decision_type = true
authority (some rights) decision_type =
    if lists rights.approve decision_type
    then true
    else if lists rights.freeze decision_type
    then true
    else if lists rights.escalate decision_type
    then true
    else if lists rights.forbidden decision_type
    then false
    else true

-- An empty decision type is as none.
pub match_authority : EmployeeRecord → Option Text → Bool
match_authority employee none = true
match_authority employee (some []) = true
match_authority employee (some (c ∷ s)) = authority employee.contract.decision_rights (c ∷ s)

unfoldable pub is_load_available : EmployeeRecord → Bool
is_load_available employee = ltb employee.current_load employee.max_concurrent_tasks

pub calculate_score : ℕ → Bool → Bool → ℕ
calculate_score io_coverage authority_match load_available =
    io_coverage * 6 + (if authority_match then 250 else 0) + (if load_available then 150 else 0)

abbrev display_name_of : Option AgentIdentity → Text
display_name_of none = []
display_name_of (some i) = get_or i.display_name []

abbrev pub answers_to : Text → EmployeeRecord → Bool
answers_to name e =
    same_word (display_name_of e.contract.identity) name
    || same_word (get_or e.contract.agent_id []) name

-- The members of a chain that are found, in its order.
abbrev pub found : List EmployeeRecord → List Text → List EmployeeRecord
found employees [] = []
found employees (name ∷ names) = elim (find (answers_to name) employees) [
  | none ↦ found employees names
  | some e ↦ e ∷ found employees names
]

pub reporting_escalation_path : List EmployeeRecord → Option EmployeeRecord → List EmployeeRecord
reporting_escalation_path employees none = []
reporting_escalation_path employees (some p) = found employees (drop 1 p.reporting_chain)

pub record Scored : Type 0 where
  pub employee : EmployeeRecord
  pub io_coverage : ℕ
  pub authority_match : Bool
  pub load_available : Bool
  pub score : ℕ

abbrev pub scored : List Text → Option Text → EmployeeRecord → Scored
scored outputs decision_type e =
    let coverage = (match_io e outputs).1 in
    let authority_match = match_authority e decision_type in
    let load_available = is_load_available e in
    record {
      employee = e;
      io_coverage = coverage;
      authority_match = authority_match;
      load_available = load_available;
      score = calculate_score coverage authority_match load_available;
    }

-- Those who pass the hard gate, scored.
abbrev pub candidates : List Text → Option Text → List EmployeeRecord → List Scored
candidates outputs decision_type es =
    map (scored outputs decision_type) (keep_if (λ e. (match_io e outputs).0) es)

abbrev pub details : Scored → MatchDetails
details s = record {
  io_coverage = s.io_coverage;
  authority_match = s.authority_match;
  load_available = s.load_available;
}

abbrev pub no_details : MatchDetails
no_details = record { io_coverage = 0; authority_match = false; load_available = false }

abbrev pub employees_of : List Scored → List EmployeeRecord
employees_of = map (λ s. s.employee)

-- No acceptable match: the way up from the first of the active employees.
abbrev unmatched :
    List EmployeeRecord → List EmployeeRecord → List Scored → Option Scored → RoutingDecision
unmatched employees active_ones ranked best = record {
  matched = false;
  primary = none;
  alternatives = employees_of (keep_if (λ s. ltb 300 s.score) ranked);
  escalation_path = reporting_escalation_path employees (head? active_ones);
  score = elim best [ none ↦ 0 | some b ↦ b.score ];
  match_details = elim best [ none ↦ no_details | some b ↦ details b ];
}

abbrev choose : List EmployeeRecord → List EmployeeRecord → List Scored → RoutingDecision
choose employees active_ones [] = unmatched employees active_ones [] none
choose employees active_ones (best ∷ rest) =
    if ltb best.score 600
    then unmatched employees active_ones (best ∷ rest) (some best)
    else record {
      matched = true;
      primary = some best.employee;
      alternatives = employees_of (keep_if (λ s. leb 600 s.score) rest);
      escalation_path = reporting_escalation_path employees (some best.employee);
      score = best.score;
      match_details = details best;
    }

-- The active employees who pass the gate, the best first.
pub ranking : List EmployeeRecord → List Text → Option Text → List Scored
ranking employees outputs decision_type =
    sort_desc (λ s. s.score) (candidates outputs decision_type (keep_if is_active employees))

-- The task's type is not read.
pub route : List EmployeeRecord → List Text → Option Text → RoutingDecision
route employees expected_outputs decision_type =
    choose employees (keep_if is_active employees)
      (ranking employees expected_outputs decision_type)
