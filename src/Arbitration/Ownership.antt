-- ===== src/Arbitration/Ownership.antt =====
-- Who owns a task on record, and which tool calls have been executed, while batches are replayed.
use tri_mc.Prelude.{
  ◌≡◌, refl, ◌∙◌, ◌≢◌, ◌⊎◌, inl, inr, true, false, Bool-cases, Option, none, some, Option-cases,
  List, [], ◌∷◌, ◌++◌, arith, is_some,
}
use tri_mc.Prelude.Text.{Text, text, text_eq, text_eq_refl, text_eq_iff, text_eq-cases}
use tri_mc.Map.{get, get-put, get-put_self, get-put_ne}
use tri_mc.Arbitration.{
  ArbitrationState, ReplayEvent, ConflictItem, conflict_item, already_executed, rejected_duplicate,
  string_field, truthy, task_assign, task_complete, tool_call, detect_conflict, arbitrate_events,
  arbitrate, track_task_assignment, track_tool_execution,
}

-- The node on record for a task.
abbrev pub owner : ArbitrationState → Text → Option Text
owner st task_id = truthy (get st.task_assignments task_id)

abbrev pub Executed : ArbitrationState → Text → Type 0
Executed st key = is_some (get st.executed_tool_calls key) ≡ true

truthy-some : (o : Option Text) (n : Text) → truthy o ≡ some n → o ≡ some n
truthy-some none n h = cc h
truthy-some (some []) n h = cc h
truthy-some (some (c ∷ s)) n h = h

-- What an assignment event leaves: the state itself, or one in which the node has taken a task that
-- no other node owned.
assign-state :
    (st : ArbitrationState) (node : Text) (e : ReplayEvent)
    → ((task_assign st node e).0 ≡ st)
      ⊎ ((j : Text) × ((task_assign st node e).0 ≡ track_task_assignment st j node)
          × ((owner st j ≡ none) ⊎ (owner st j ≡ some node)))
unfolding task_assign
assign-state st node e = elim (Option-cases (string_field e.payload (text "taskId"))) [
  | inl q ↦ inl (ground arith)
  | inr (j, q) ↦ elim (Option-cases (owner st j)) [
    | inl r ↦ inr (j, ground arith, inl r)
    | inr (n, r) ↦ elim (text_eq-cases n node) [
      | inl (t, p) ↦ inr (j, ground arith, inr (rw (← p) r))
      | inr (t, p) ↦ inl (ground arith)
    ]
  ]
]

call-state :
    (st : ArbitrationState) (e : ReplayEvent)
    → ((tool_call st e).0 ≡ st)
      ⊎ ((key : Text) × ((tool_call st e).0 ≡ track_tool_execution st key))
unfolding tool_call
call-state st e = elim (Option-cases (string_field e.payload (text "idempotencyKey"))) [
  | inl q ↦ inl (ground arith)
  | inr (key, q) ↦ elim (Bool-cases (is_some (get st.executed_tool_calls key))) [
    | inl r ↦ inl (ground arith)
    | inr r ↦ inr (key, ground arith)
  ]
]

-- What holds of a state, and is kept by taking a free task and by noting a call, is kept by a batch.
module _ (P : ArbitrationState → Type 0) (node : Text)
    (take_task : (st : ArbitrationState) (j : Text)
      → (owner st j ≡ none) ⊎ (owner st j ≡ some node)
      → P st
      → P (track_task_assignment st j node))
    (note_call : (st : ArbitrationState) (key : Text)
      → P st
      → P (track_tool_execution st key)) where
  detect_keeps : (st : ArbitrationState) (e : ReplayEvent) → P st → P (detect_conflict st node e).0
  unfolding detect_conflict
  detect_keeps st e h = elim (Bool-cases (text_eq e.type (text "task_assign"))) [
    | inl a ↦ rw a (elim (assign-state st node e) [
      | inl q ↦ rw q h
      | inr (j, q, free) ↦ rw q (take_task st j free h)
    ])
    | inr a ↦ elim (Bool-cases (text_eq e.type (text "task_complete"))) [
      | inl b ↦ rw (a, b) h
      | inr b ↦ elim (Bool-cases (text_eq e.type (text "tool_call"))) [
        | inl c ↦
            rw (a, b, c)
              (elim (call-state st e) [ inl q ↦ rw q h | inr (key, q) ↦ rw q (note_call st key h) ])
        | inr c ↦ rw (a, b, c) h
      ]
    ]
  ]

  events_keep :
      (st : ArbitrationState) (es : List ReplayEvent) → P st → P (arbitrate_events st node es).0
  unfolding arbitrate_events
  events_keep st [] h = h
  events_keep st (e ∷ es) h = events_keep (detect_conflict st node e).0 es (detect_keeps st e h)

take_keeps :
    (node k n : Text) (st : ArbitrationState) (j : Text)
    → (owner st j ≡ none) ⊎ (owner st j ≡ some node)
    → owner st k ≡ some n
    → owner (track_task_assignment st j node) k ≡ some n
unfolding track_task_assignment
take_keeps node k n st j free h = elim (text_eq-cases j k) [
  | inl (t, p) ↦ elim free [
    | inl q ↦ cc (rw p at q, h)
    | inr q ↦ let same : n ≡ node = ground (arith, rw p at q, h) in rw (get-put) (ground arith)
  ]
  | inr (t, p) ↦ rw (get-put_ne st.task_assignments j k node p) h
]

note_keeps :
    (st : ArbitrationState) (key k : Text)
    → Executed st k
    → Executed (track_tool_execution st key) k
unfolding track_tool_execution
note_keeps st key k h =
    rw (get-put) (elim (Bool-cases (text_eq key k)) [ inl e ↦ rw e refl | inr e ↦ rw e h ])

-- Batches of several nodes, one after the other.
pub replay : ArbitrationState → List (Text × List ReplayEvent) → ArbitrationState
replay st [] = st
replay st ((node, es) ∷ bs) = replay (arbitrate st node es).0 bs

module _ (P : ArbitrationState → Type 0)
    (take_task : (node : Text) (st : ArbitrationState) (j : Text)
      → (owner st j ≡ none) ⊎ (owner st j ≡ some node)
      → P st
      → P (track_task_assignment st j node))
    (note_call : (st : ArbitrationState) (key : Text)
      → P st
      → P (track_tool_execution st key)) where
  replay_keeps :
      (st : ArbitrationState) (bs : List (Text × List ReplayEvent)) → P st → P (replay st bs)
  unfolding replay arbitrate
  replay_keeps st [] h = h
  replay_keeps st ((node, es) ∷ bs) h =
      replay_keeps (arbitrate st node es).0 bs
        (events_keep P node (take_task node) note_call st es h)

pub detect-assign :
    (st : ArbitrationState) (node : Text) (e : ReplayEvent)
    → e.type ≡ text "task_assign"
    → detect_conflict st node e ≡ task_assign st node e
unfolding detect_conflict
detect-assign st node e t = rw t (rw text_eq_refl refl)

pub detect_complete :
    (st : ArbitrationState) (node : Text) (e : ReplayEvent)
    → e.type ≡ text "task_complete"
    → detect_conflict st node e ≡ (st, task_complete st node e)
unfolding detect_conflict text text_eq
detect_complete st node e t = rw t refl

pub detect-call :
    (st : ArbitrationState) (node : Text) (e : ReplayEvent)
    → e.type ≡ text "tool_call"
    → detect_conflict st node e ≡ tool_call st e
unfolding detect_conflict text text_eq
detect-call st node e t = rw t refl

foreign_claim :
    (st : ArbitrationState) (node k n : Text) (e : ReplayEvent)
    → owner st k ≡ some n
    → n ≢ node
    → string_field e.payload (text "taskId") ≡ some k
    → (e.type ≡ text "task_assign") ⊎ (e.type ≡ text "task_complete")
    → (c : ConflictItem) × (detect_conflict st node e ≡ (st, some c))
      × (c.resolution ≡ rejected_duplicate)
unfolding task_assign task_complete
foreign_claim st node k n e h ne p (inl t) =
    let differ : text_eq n node ≡ false = ground (arith, text_eq_iff n node) in
    rw (detect-assign st node e t) (
      conflict_item e rejected_duplicate
          (text "task " ++ (k ++ (text " already assigned to " ++ n))),
      ground arith,
      refl,
    )
foreign_claim st node k n e h ne p (inr t) =
    let differ : text_eq n node ≡ false = ground (arith, text_eq_iff n node) in
    rw (detect_complete st node e t) (
      conflict_item e rejected_duplicate (text "task " ++ (k ++ (text " was completed by " ++ n))),
      ground arith,
      refl,
    )

-- A node that owns a task on record keeps it through any batches of any nodes, and after them an
-- event of another node that takes or completes the task is rejected as a duplicate and changes
-- nothing.
pub owner_kept :
    (st : ArbitrationState) (bs : List (Text × List ReplayEvent)) (k n : Text)
    → owner st k ≡ some n
    → (owner (replay st bs) k ≡ some n)
      × ((node : Text) (e : ReplayEvent)
          → n ≢ node
          → string_field e.payload (text "taskId") ≡ some k
          → (e.type ≡ text "task_assign") ⊎ (e.type ≡ text "task_complete")
          → (c : ConflictItem) × (detect_conflict (replay st bs) node e ≡ (replay st bs, some c))
            × (c.resolution ≡ rejected_duplicate))
unfolding track_tool_execution
owner_kept st bs k n h =
    let kept =
      replay_keeps (λ s. owner s k ≡ some n) (λ node s j. take_keeps node k n s j) (λ s key q. q) st
        bs h in
    (kept, λ node e ne p t. foreign_claim (replay st bs) node k n e kept ne p t)

module _ (st : ArbitrationState) (key : Text) (e : ReplayEvent)
    (p : string_field e.payload (text "idempotencyKey") ≡ some key) where
  call-new :
      get st.executed_tool_calls key ≡ none → tool_call st e ≡ (track_tool_execution st key, none)
  unfolding tool_call
  call-new free = ground arith

  call-repeated :
      Executed st key
      → tool_call st e ≡ (
        st,
        some (
            conflict_item e already_executed
              (text "tool_call " ++ (key ++ text " already executed"))),
      )
  unfolding tool_call
  call-repeated done = ground arith

tracked-Executed : (st : ArbitrationState) (key : Text) → Executed (track_tool_execution st key) key
unfolding track_tool_execution
tracked-Executed st key = rw get-put_self refl

Executed-replay :
    (st : ArbitrationState) (key : Text) (bs : List (Text × List ReplayEvent))
    → Executed st key
    → Executed (replay st bs) key
unfolding track_task_assignment
Executed-replay st key bs h =
    replay_keeps (λ s. Executed s key) (λ n s j _ q. q) (λ s k. note_keeps s k key) st bs h

-- The first `tool_call` event with a key is accepted and the key goes on record; after it, and after
-- any batches of any nodes, an event with that key is answered `already_executed` and changes
-- nothing: no call is accepted twice.
pub call_once :
    (st : ArbitrationState) (node key : Text) (e : ReplayEvent)
    → e.type ≡ text "tool_call"
    → string_field e.payload (text "idempotencyKey") ≡ some key
    → get st.executed_tool_calls key ≡ none
    → ((detect_conflict st node e).1 ≡ none)
      × ((bs : List (Text × List ReplayEvent)) (node' : Text) (f : ReplayEvent)
          → f.type ≡ text "tool_call"
          → string_field f.payload (text "idempotencyKey") ≡ some key
          → let later = replay (detect_conflict st node e).0 bs in
            (c : ConflictItem) × (detect_conflict later node' f ≡ (later, some c))
            × (c.resolution ≡ already_executed))
call_once st node key e t p free =
    rw (detect-call st node e t, call-new st key e p free)
      (
        refl,
        λ bs node' f t' p'.
            let later = replay (track_tool_execution st key) bs in
            let done = Executed-replay _ key bs (tracked-Executed st key) in
            (_, detect-call later node' f t' ∙ call-repeated later key f p' done, refl),
      )
