-- ===== src/Arbitration/Batch.antt =====
-- What a batch is answered: the count and the conflicts, and how a batch splits.
use tri_mc.Prelude.{
  ℕ, ◌+◌, ◌≡◌, refl, sym, ap, ◌↔◌, ◌⊎◌, inl, inr, Option, none, some, Option-cases, List, [], ◌∷◌,
  ◌++◌, arith, length, In, Bool-cases, true,
}
use tri_mc.Prelude.Text.{Text, text, text_eq, text_eq_refl, text_eq-cases}
use tri_mc.Arbitration.{
  ArbitrationState, ReplayEvent, ConflictItem, rejected_version_behind, conflict_item, accept_count,
  conflict_list, string_field, last_seq, detect_conflict, task_assign, task_complete, tool_call,
  arbitrate_events, arbitrate,
}
use tri_mc.Arbitration.Ownership.{owner, detect_complete}

counted_sum :
    (o : Option ConflictItem) (n : ℕ) (cs : List ConflictItem)
    → accept_count o n + length (conflict_list o cs) ≡ n + length cs + 1
counted_sum none n cs = omega arith
counted_sum (some c) n cs = omega arith

events_sum :
    (st : ArbitrationState) (node : Text) (es : List ReplayEvent)
    → let out = arbitrate_events st node es in out.1 + length out.2 ≡ length es
unfolding arbitrate_events
events_sum st node [] = refl
events_sum st node (e ∷ es) =
    let step = detect_conflict st node e in
    let rest = arbitrate_events step.0 node es in
    omega (arith, counted_sum step.1 rest.1 rest.2, events_sum step.0 node es)

-- A conflict carries the id and the type of its event.
abbrev pub Names : ConflictItem → ReplayEvent → Type 0
Names c e = (c.event_id ≡ e.event_id) × (c.type ≡ e.type)

complete-Names :
    (st : ArbitrationState) (node : Text) (e : ReplayEvent) (c : ConflictItem)
    → task_complete st node e ≡ some c
    → Names c e
unfolding task_complete
complete-Names st node e c h = (ground arith, ground arith)

assign-Names :
    (st : ArbitrationState) (node : Text) (e : ReplayEvent) (c : ConflictItem)
    → (task_assign st node e).1 ≡ some c
    → Names c e
unfolding task_assign
assign-Names st node e c h = (ground arith, ground arith)

call-Names :
    (st : ArbitrationState) (e : ReplayEvent) (c : ConflictItem)
    → (tool_call st e).1 ≡ some c
    → Names c e
unfolding tool_call
call-Names st e c h = (ground arith, ground arith)

detect-Names :
    (st : ArbitrationState) (node : Text) (e : ReplayEvent) (c : ConflictItem)
    → (detect_conflict st node e).1 ≡ some c
    → Names c e
unfolding detect_conflict
detect-Names st node e c h = elim (Bool-cases (text_eq e.type (text "task_assign"))) [
  | inl a ↦ assign-Names st node e c (rw a at h)
  | inr a ↦ elim (Bool-cases (text_eq e.type (text "task_complete"))) [
    | inl b ↦ complete-Names st node e c (rw (a, b) at h)
    | inr b ↦ elim (Bool-cases (text_eq e.type (text "tool_call"))) [
      | inl d ↦ call-Names st e c (rw (a, b, d) at h)
      | inr d ↦ absurd (cc (rw (a, b, d) at h))
    ]
  ]
]

In-conflict_list :
    (o : Option ConflictItem) (c : ConflictItem) (cs : List ConflictItem)
    → In c (conflict_list o cs)
    → (o ≡ some c) ⊎ In c cs
In-conflict_list none c cs m = inr m
In-conflict_list (some d) c cs (inl e) = inl (ap (λ x. some x) (sym e))
In-conflict_list (some d) c cs (inr m) = inr m

events_named :
    (st : ArbitrationState) (node : Text) (es : List ReplayEvent) (c : ConflictItem)
    → In c (arbitrate_events st node es).2
    → (e : ReplayEvent) × In e es × Names c e
unfolding arbitrate_events
events_named st node [] c m = elim m [ ]
events_named st node (e ∷ es) c m =
    let step = detect_conflict st node e in
    elim (In-conflict_list step.1 c (arbitrate_events step.0 node es).2 m) [
      | inl q ↦ (e, inl refl, detect-Names st node e c q)
      | inr k ↦ let (f, i, n) = events_named step.0 node es c k in (f, inr i, n)
    ]

last_seq-append : (es : List ReplayEvent) (e : ReplayEvent) → last_seq (es ++ e ∷ []) ≡ e.seq_no
last_seq-append [] e = refl
last_seq-append (x ∷ []) e = refl
last_seq-append (x ∷ y ∷ es) e = last_seq-append (y ∷ es) e

-- Every event of a batch is answered once: it is accepted or it is a conflict, which carries the id
-- and the type of an event of the batch; the reply ends with the number of the batch's last event.
pub arbitrate_accounts :
    (st : ArbitrationState) (node : Text) (es : List ReplayEvent)
    → let r = (arbitrate st node es).1 in
      (r.accepted + length r.conflicts ≡ length es)
      × ((c : ConflictItem) → In c r.conflicts → (e : ReplayEvent) × In e es × Names c e)
      × (((arbitrate st node []).1).last_seq_no ≡ 0)
      × ((e : ReplayEvent) → ((arbitrate st node (es ++ e ∷ [])).1).last_seq_no ≡ e.seq_no)
unfolding arbitrate
arbitrate_accounts st node es =
    (events_sum st node es, λ c m. events_named st node es c m, refl, λ e. last_seq-append es e)

count_shift : (o : Option ConflictItem) (a b : ℕ) → accept_count o (a + b) ≡ accept_count o a + b
count_shift none a b = omega arith
count_shift (some c) a b = refl

conflicts_shift :
    (o : Option ConflictItem) (cs ds : List ConflictItem)
    → conflict_list o (cs ++ ds) ≡ conflict_list o cs ++ ds
conflicts_shift none cs ds = refl
conflicts_shift (some c) cs ds = refl

events-append :
    (st : ArbitrationState) (node : Text) (xs ys : List ReplayEvent)
    → let first = arbitrate_events st node xs in
      let second = arbitrate_events first.0 node ys in
      arbitrate_events st node (xs ++ ys) ≡ (second.0, first.1 + second.1, first.2 ++ second.2)
unfolding arbitrate_events
events-append st node [] ys =
    let out = arbitrate_events st node ys in
    let n : out.1 ≡ 0 + out.1 = omega arith in ap (λ k. (out.0, k, out.2)) n
events-append st node (e ∷ xs) ys =
    let step = detect_conflict st node e in
    rw (events-append step.0 node xs ys, count_shift, conflicts_shift) refl

-- A batch can be cut anywhere: its parts, sent one after the other, leave the same state, and
-- together are answered with the same conflicts in the same order and the same count.
pub arbitrate_split :
    (st : ArbitrationState) (node : Text) (xs ys : List ReplayEvent)
    → let (mid, r) = arbitrate st node xs in
      let (last, r') = arbitrate mid node ys in
      let (whole, r'') = arbitrate st node (xs ++ ys) in
      (whole ≡ last)
      × (r''.accepted ≡ r.accepted + r'.accepted)
      × (r''.conflicts ≡ r.conflicts ++ r'.conflicts)
unfolding arbitrate
arbitrate_split st node xs ys = rw (events-append st node xs ys) (refl, refl, refl)

module _ (st : ArbitrationState) (node k : Text) (e : ReplayEvent)
    (p : string_field e.payload (text "taskId") ≡ some k) where
  complete-owned : task_complete st node e ≡ none → owner st k ≡ some node
  unfolding task_complete
  complete-owned h = elim (Option-cases (owner st k)) [
    | inl q ↦ absurd (ground arith)
    | inr (n, q) ↦ elim (text_eq-cases n node) [
      | inl (t, same) ↦ rw (← same) q
      | inr (t, ne) ↦ absurd (ground arith)
    ]
  ]

  complete-own : owner st k ≡ some node → task_complete st node e ≡ none
  unfolding task_complete
  complete-own h = let same : text_eq node node ≡ true = text_eq_refl node in ground arith

  complete-unowned :
      owner st k ≡ none
      → (c : ConflictItem) × (task_complete st node e ≡ some c)
        × (c.resolution ≡ rejected_version_behind)
  unfolding task_complete
  complete-unowned h = (
    conflict_item e rejected_version_behind
        (text "task " ++ (k ++ text " not found in server assignments")),
    ground arith,
    refl,
  )

-- A completion that names a task is accepted exactly when the node is on record as its owner, it
-- never changes the record, and without an owner the node is told that its version is behind.
pub complete_iff :
    (st : ArbitrationState) (node k : Text) (e : ReplayEvent)
    → e.type ≡ text "task_complete"
    → string_field e.payload (text "taskId") ≡ some k
    → let (st', r) = detect_conflict st node e in
      (st' ≡ st)
      × ((r ≡ none) ↔ (owner st k ≡ some node))
      × (owner st k ≡ none
          → (c : ConflictItem) × (r ≡ some c) × (c.resolution ≡ rejected_version_behind))
complete_iff st node k e t p = rw (detect_complete st node e t) (
  refl,
  (λ h. complete-owned st node k e p h, λ h. complete-own st node k e p h),
  λ h. complete-unowned st node k e p h,
)
