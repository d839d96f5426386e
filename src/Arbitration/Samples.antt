-- ===== src/Arbitration/Samples.antt =====
-- A task handed out, claimed by another node, and a tool call replayed twice.
use tri_mc.Prelude.{◌≡◌, refl, ◌≢◌, ◌⊎◌, none, some, List, [], ◌∷◌}
use tri_mc.Prelude.Text.{Text, text, text_eq}
use tri_mc.Map.{get, put}
use tri_mc.Json.{str, obj, end, field, member}
use tri_mc.Arbitration.{
  ArbitrationState, ReplayEvent, ConflictItem, already_executed, rejected_duplicate,
  reset_arbitration_state, track_task_assignment, string_field, detect_conflict,
}
use tri_mc.Arbitration.Ownership.{owner, replay, owner_kept, call_once}

abbrev event : Text → Text → Text → Text → ReplayEvent
event id type k v = record {
  event_id = id;
  type = type;
  timestamp = 1;
  seq_no = 7;
  payload = some (obj (field k (str v) end));
}

abbrev handed_out : ArbitrationState
handed_out = track_task_assignment reset_arbitration_state (text "t1") (text "n1")

abbrev claim : ReplayEvent
claim = event (text "e1") (text "task_assign") (text "taskId") (text "t1")

abbrev completion : ReplayEvent
completion = event (text "e2") (text "task_complete") (text "taskId") (text "t1")

abbrev call : ReplayEvent
call = event (text "e3") (text "tool_call") (text "idempotencyKey") (text "k1")

abbrev batches : List (Text × List ReplayEvent)
batches = (text "n2", claim ∷ call ∷ []) ∷ []

handed_out_lem : owner handed_out (text "t1") ≡ some (text "n1")
unfolding track_task_assignment put get text text_eq
handed_out_lem = refl

completion_names : string_field completion.payload (text "taskId") ≡ some (text "t1")
unfolding member text text_eq
completion_names = refl

call_names : string_field call.payload (text "idempotencyKey") ≡ some (text "k1")
unfolding member text text_eq
call_names = refl

owner_kept_example :
    (owner (replay handed_out batches) (text "t1") ≡ some (text "n1"))
    × ((node : Text) (e : ReplayEvent)
        → text "n1" ≢ node
        → string_field e.payload (text "taskId") ≡ some (text "t1")
        → (e.type ≡ text "task_assign") ⊎ (e.type ≡ text "task_complete")
        → (c : ConflictItem) × (detect_conflict (replay handed_out batches) node e
            ≡ (replay handed_out batches, some c))
          × (c.resolution ≡ rejected_duplicate))
owner_kept_example = owner_kept handed_out batches (text "t1") (text "n1") handed_out_lem

call_once_example :
    ((detect_conflict reset_arbitration_state (text "n1") call).1 ≡ none)
    × ((bs : List (Text × List ReplayEvent)) (node' : Text) (f : ReplayEvent)
        → f.type ≡ text "tool_call"
        → string_field f.payload (text "idempotencyKey") ≡ some (text "k1")
        → let later = replay (detect_conflict reset_arbitration_state (text "n1") call).0 bs in
          (c : ConflictItem) × (detect_conflict later node' f ≡ (later, some c))
          × (c.resolution ≡ already_executed))
unfolding get
call_once_example =
    call_once reset_arbitration_state (text "n1") (text "k1") call refl call_names refl
