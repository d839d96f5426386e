-- ===== src/Arbitration.antt =====
-- The arbitration of replayed offline events (src/comm/arbitration.ts): which events of a node's
-- batch conflict with what the server has on record. The three tables of the module are a record.
pub mod Ownership
pub mod Batch
mod Samples
use tri_mc.Prelude.{
  ℕ, ◌+◌, Bool, true, false, not, ◌&&◌, Option, none, some, List, [], ◌∷◌, ◌++◌, if◌then◌else◌,
  is_some, ◌≡◌, refl,
}
use tri_mc.Prelude.Text.{Text, text, text_eq}
use tri_mc.Map.{Map, get, put}
use tri_mc.Json.{Json, obj, member, as_string}

pub data ConflictResolution : Type 0 where
  rejected_duplicate rejected_version_behind already_executed merged : ConflictResolution

pub record ConflictItem : Type 0 where
  pub event_id : Text
  pub type : Text
  pub resolution : ConflictResolution
  pub reason : Text

pub record ReplayEvent : Type 0 where
  pub event_id : Text
  pub type : Text
  pub timestamp : ℕ
  pub seq_no : ℕ
  pub payload : Option Json

pub record ArbitrationResult : Type 0 where
  pub accepted : ℕ
  pub conflicts : List ConflictItem
  pub last_seq_no : ℕ

-- `executedToolCalls` is a set: a map to the unit type.
pub record ArbitrationState : Type 0 where
  pub task_assignments : Map Text
  pub executed_tool_calls : Map (Unit {0})
  pub node_state_versions : Map ℕ

abbrev pub reset_arbitration_state : ArbitrationState
reset_arbitration_state = record {
  task_assignments = [];
  executed_tool_calls = [];
  node_state_versions = [];
}

pub track_task_assignment : ArbitrationState → Text → Text → ArbitrationState
track_task_assignment st task_id node_id = record st {
  task_assignments = put st.task_assignments task_id node_id;
}

pub track_tool_execution : ArbitrationState → Text → ArbitrationState
track_tool_execution st key = record st { executed_tool_calls = put st.executed_tool_calls key tt }

-- `payload?.k` where it is a string; a payload that is no object has no such field.
abbrev pub string_field : Option Json → Text → Option Text
string_field (some (obj fs)) k = as_string (member fs k)
string_field _ k = none

-- A string is truthy when it is not empty.
abbrev pub truthy : Option Text → Option Text
truthy (some (c ∷ s)) = some (c ∷ s)
truthy _ = none

abbrev pub conflict_item : ReplayEvent → ConflictResolution → Text → ConflictItem
conflict_item event resolution reason = record {
  event_id = event.event_id;
  type = event.type;
  resolution = resolution;
  reason = reason;
}

abbrev conflict : ReplayEvent → ConflictResolution → Text → Option ConflictItem
conflict event resolution reason = some (conflict_item event resolution reason)

pub task_assign : ArbitrationState → Text → ReplayEvent → ArbitrationState × Option ConflictItem
task_assign st node_id event = elim (string_field event.payload (text "taskId")) [
  | none ↦ (st, none)
  | some task_id ↦ elim (truthy (get st.task_assignments task_id)) [
    | none ↦ (track_task_assignment st task_id node_id, none)
    | some assigned_to ↦
        if not (text_eq assigned_to node_id)
        then (
          st,
          conflict event rejected_duplicate
              (text "task " ++ (task_id ++ (text " already assigned to " ++ assigned_to))),
        )
        else (track_task_assignment st task_id node_id, none)
  ]
]

pub task_complete : ArbitrationState → Text → ReplayEvent → Option ConflictItem
task_complete st node_id event = elim (string_field event.payload (text "taskId")) [
  | none ↦ none
  | some task_id ↦ elim (truthy (get st.task_assignments task_id)) [
    | none ↦
        conflict event rejected_version_behind
          (text "task " ++ (task_id ++ text " not found in server assignments"))
    | some assigned_to ↦
        if not (text_eq assigned_to node_id)
        then conflict event rejected_duplicate
            (text "task " ++ (task_id ++ (text " was completed by " ++ assigned_to)))
        else none
  ]
]

pub tool_call : ArbitrationState → ReplayEvent → ArbitrationState × Option ConflictItem
tool_call st event = elim (string_field event.payload (text "idempotencyKey")) [
  | none ↦ (st, none)
  | some key ↦
      if is_some (get st.executed_tool_calls key)
      then (
        st,
        conflict event already_executed (text "tool_call " ++ (key ++ text " already executed")),
      )
      else (track_tool_execution st key, none)
]

pub detect_conflict : ArbitrationState → Text → ReplayEvent → ArbitrationState × Option ConflictItem
detect_conflict st node_id event =
    if text_eq event.type (text "task_assign")
    then task_assign st node_id event
    else if text_eq event.type (text "task_complete")
    then (st, task_complete st node_id event)
    else if text_eq event.type (text "tool_call")
    then tool_call st event
    else (st, none)

abbrev pub accept_count : Option ConflictItem → ℕ → ℕ
accept_count none n = n + 1
accept_count (some _) n = n

abbrev pub conflict_list : Option ConflictItem → List ConflictItem → List ConflictItem
conflict_list none cs = cs
conflict_list (some c) cs = c ∷ cs

-- The loop: the state after the events, how many are accepted, and the conflicts in their order.
pub arbitrate_events :
    ArbitrationState → Text → List ReplayEvent → ArbitrationState × ℕ × List ConflictItem
arbitrate_events st node_id [] = (st, 0, [])
arbitrate_events st node_id (e ∷ es) =
    let step = detect_conflict st node_id e in
    let rest = arbitrate_events step.0 node_id es in
    (rest.0, accept_count step.1 rest.1, conflict_list step.1 rest.2)

abbrev pub last_seq : List ReplayEvent → ℕ
last_seq [] = 0
last_seq (e ∷ []) = e.seq_no
last_seq (e ∷ f ∷ es) = last_seq (f ∷ es)

pub arbitrate : ArbitrationState → Text → List ReplayEvent → ArbitrationState × ArbitrationResult
arbitrate st node_id events =
    let out = arbitrate_events st node_id events in
    (out.0, record { accepted = out.1; conflicts = out.2; last_seq_no = last_seq events })
