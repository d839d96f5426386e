-- ===== src/Orchestration/Scheduler/Runs.antt =====
-- What holds of an orchestrated task over every sequence of calls.
use tri_mc.Prelude.{
  ◌+◌, ◌≤◌, ◌≡◌, refl, ◌∙◌, ◌≢◌, ◌⊎◌, inl, inr, true, Bool-cases, Option, none, List, [], ◌∷◌,
  arith, any,
}
use tri_mc.Prelude.Text.{Text}
use tri_mc.Orchestration.{
  TaskState, queued, assigned, running, escalated, accepted, rejected, done, TaskRecord,
  EmployeeRecord, SchedulerConfig,
}
use tri_mc.Orchestration.Scheduler.{
  success, transition, assign, escalate, task_of, validate_transition, state_eq,
}
use tri_mc.Orchestration.Scheduler.Life.{assign-stuck}

-- The calls that a client makes on one task, each with its reading of the clock.
pub data Call : Type 0 where
  move : Text → TaskState → Option Text → Call
  give : Text → EmployeeRecord → List TaskRecord → SchedulerConfig → Call
  pass_up : Text → Text → Call

unfoldable pub perform : TaskRecord → Call → TaskRecord
perform t (move now to reason) = task_of (transition now t to reason)
perform t (give now e active config) = task_of (assign now t e active config)
perform t (pass_up now reason) = task_of (escalate now t reason)

unfoldable pub run : TaskRecord → List Call → TaskRecord
unfolding perform
run t [] = t
run t (x ∷ xs) = run (perform t x) xs

abbrev pub Settled : TaskState → Type 0
Settled s = (s ≡ rejected) ⊎ (s ≡ done)

Settled-stays : (t : TaskRecord) (x : Call) → Settled t.state → perform t x ≡ t
unfolding perform transition assign escalate
Settled-stays t (move now to reason) (inl e) = ground arith
Settled-stays t (move now to reason) (inr e) = ground arith
Settled-stays t (give now p active config) (inl e) = ground arith
Settled-stays t (give now p active config) (inr e) = ground arith
Settled-stays t (pass_up now reason) (inl e) = ground arith
Settled-stays t (pass_up now reason) (inr e) = ground arith

-- A rejected task and a done one are never touched again, by any calls.
pub Settled-frozen : (t : TaskRecord) (xs : List Call) → Settled t.state → run t xs ≡ t
unfolding run
Settled-frozen t [] h = refl
Settled-frozen t (x ∷ xs) h = let e = Settled-stays t x h in rw e (Settled-frozen t xs h)

-- What names a task, and what only grows.
abbrev pub Same : TaskRecord → TaskRecord → Type 0
Same t u =
    (t.task_id ≡ u.task_id)
    × (t.expected_outputs ≡ u.expected_outputs)
    × (t.requester ≡ u.requester)
    × (t.created_at ≡ u.created_at)
    × (t.retry_count ≤ u.retry_count)

perform-Same : (t : TaskRecord) (x : Call) → Same t (perform t x)
unfolding perform transition assign escalate
perform-Same t (move now to reason) =
    (ground arith, ground arith, ground arith, ground arith, ground arith)
perform-Same t (give now p active config) =
    (ground arith, ground arith, ground arith, ground arith, ground arith)
perform-Same t (pass_up now reason) =
    (ground arith, ground arith, ground arith, ground arith, ground arith)

Same-run : (t : TaskRecord) (xs : List Call) → Same t (run t xs)
unfolding run
Same-run t [] = (refl, refl, refl, refl, omega arith)
Same-run t (x ∷ xs) =
    let (a, b, c, d, e) = perform-Same t x in
    let (a', b', c', d', e') = Same-run (perform t x) xs in
    (a ∙ a', b ∙ b', c ∙ c', d ∙ d', omega (arith, e, e'))

-- Past the queue and without an owner.
abbrev pub Unowned : TaskRecord → Type 0
Unowned t = (t.state ≢ queued) × (t.assigned_to ≡ none)

not_queued : (s : TaskState) → validate_transition s queued ≡ true → ⊥
not_queued queued v = cc v
not_queued assigned v = cc v
not_queued running v = cc v
not_queued escalated v = cc v
not_queued accepted v = cc v
not_queued rejected v = cc v
not_queued done v = cc v

escalated-Unowned :
    (t u : TaskRecord) (now reason : Text)
    → escalate now t reason ≡ success u
    → (u.state ≢ queued) × (u.assigned_to ≡ none) × (u.retry_count ≡ t.retry_count + 1)
unfolding escalate
escalated-Unowned t u now reason h = (λ q. ground arith, ground arith, ground arith)

perform-Unowned : (t : TaskRecord) (x : Call) → Unowned t → Unowned (perform t x)
unfolding perform transition assign escalate
perform-Unowned t (move now to reason) (n, e) = elim (Bool-cases (validate_transition t.state to)) [
  | inl v ↦ rw v (λ q. not_queued t.state (rw q at v), e)
  | inr v ↦ rw v (n, e)
]
perform-Unowned t (give now p active config) (n, e) =
    let stuck = assign-stuck now t p active config (λ (q, r). n q) in rw stuck (n, e)
perform-Unowned t (pass_up now reason) (n, e) =
    elim (Bool-cases (any (state_eq t.state) (assigned ∷ running ∷ escalated ∷ []))) [
      | inl v ↦ rw v (λ q. ground arith, refl)
      | inr v ↦ rw v (n, e)
    ]

run-Unowned : (t : TaskRecord) (xs : List Call) → Unowned t → Unowned (run t xs)
unfolding run
run-Unowned t [] h = h
run-Unowned t (x ∷ xs) h = run-Unowned (perform t x) xs (perform-Unowned t x h)

-- Over any calls a task keeps its id, its outputs, its requester and its time of creation, and its
-- retries only grow, by one with each escalation that goes through. An escalated task loses its
-- owner, and no calls ever give it one again: `assign` takes queued tasks alone, although the table
-- leads from escalated to assigned.
pub escalated_unowned :
    (t : TaskRecord) (now reason : Text) (xs : List Call)
    → let up = escalate now t reason in
      Same t (run t xs)
      × ((u : TaskRecord)
          → up ≡ success u
          → (u.retry_count ≡ t.retry_count + 1)
            × ((run u xs).assigned_to ≡ none)
            × ((run u xs).state ≢ queued))
escalated_unowned t now reason xs = (
  Same-run t xs,
  λ u h.
      let (n, e, r) = escalated-Unowned t u now reason h in
      let (n', e') = run-Unowned u xs (n, e) in (r, e', n'),
)
