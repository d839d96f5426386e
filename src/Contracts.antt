-- ===== src/Contracts.antt =====
-- The agent contract (src/contracts/agent-contract.ts). A field is an Option where the programs that
-- read a contract provide for its absence, whatever its declared type: contracts are read from files.
use tri_mc.Prelude.{Bool, Option, List}
use tri_mc.Prelude.Text.{Text}

pub data ToolRiskLevel : Type 0 where
  low medium high critical : ToolRiskLevel

pub data AgentFamily : Type 0 where
  role registry : AgentFamily

pub record AgentIdentity : Type 0 where
  pub display_name : Option Text
  pub family : AgentFamily
  pub role : Text
  pub description : Text
  pub user_invocable : Bool

pub data ResponsibilityPriority : Type 0 where
  high medium low : ResponsibilityPriority

pub record AgentResponsibility : Type 0 where
  pub description : Text
  pub priority : Option ResponsibilityPriority

pub record DecisionRights : Type 0 where
  pub approve : Option (List Text)
  pub freeze : Option (List Text)
  pub escalate : Option (List Text)
  pub forbidden : Option (List Text)

pub record Collaborators : Type 0 where
  pub reports_to : Option Text
  pub peers : List Text
  pub supervises : List Text

pub record ToolSpec : Type 0 where
  pub name : Text
  pub scope : List Text
  pub risk_level : ToolRiskLevel
  pub requires_approval : Bool
  pub runtime_equivalent : Text

pub record IoContractEntry : Type 0 where
  pub type : Option Text
  pub description : Text
  pub source : Option Text

pub record IoContract : Type 0 where
  pub inputs : List IoContractEntry
  pub outputs : Option (List IoContractEntry)

-- Without `instructions` and `runtime_baseline`, which no modelled program reads.
pub record AgentContract : Type 0 where
  pub agent_id : Option Text
  pub version : Text
  pub identity : Option AgentIdentity
  pub responsibilities : Option (List AgentResponsibility)
  pub decision_rights : Option DecisionRights
  pub collaborators : Option Collaborators
  pub tools : Option (List ToolSpec)
  pub io_contract : Option IoContract
