-- ===== src/Tasks/Lifecycle.antt =====
-- The state machine of one task: which updates `updateTaskStatus` accepts, and what it changes.
use tri_mc.Prelude.{
  ◌≡◌, refl, ap, ◌≢◌, ◌↔◌, ◌⊎◌, inl, inr, true, false, Bool-cases, some, none, arith, Option-cases,
  any,
}
use tri_mc.Prelude.Text.{Text}
use tri_mc.Map.{put, get-put_self, get-put_ne}
use tri_mc.Tasks.{
  Task, TaskStatus, queued, running, completed, failed, cancelled, TaskError, ok, err, not_found,
  TaskController, get_task, update_task_status, complete_task, fail_task, is_terminal, status_eq,
  valid_transitions,
}

-- The life of a task, as the program documents it.
pub data Step : TaskStatus → TaskStatus → Type 0 where
  start : Step queued running
  withdraw : Step queued cancelled
  finish : Step running completed
  break_off : Step running failed
  cancel : Step running cancelled

abbrev pub moved : Task → Text → TaskStatus → Task
moved t now s = record t { status = s; updated_at = now }

abbrev Passes : TaskStatus → TaskStatus → Type 0
Passes a b = (is_terminal a ≡ false) × (any (status_eq b) (valid_transitions a) ≡ true)

Passes-of_Step : (a b : TaskStatus) → Step a b → Passes a b
Passes-of_Step a b start = (refl, refl)
Passes-of_Step a b withdraw = (refl, refl)
Passes-of_Step a b finish = (refl, refl)
Passes-of_Step a b break_off = (refl, refl)
Passes-of_Step a b cancel = (refl, refl)

pub Step-not_terminal : (a b : TaskStatus) → Step a b → is_terminal a ≡ false
Step-not_terminal a b p = (Passes-of_Step a b p).0

Step-of_Passes : (a b : TaskStatus) → Passes a b → Step a b
Step-of_Passes queued running h = start
Step-of_Passes queued cancelled h = withdraw
Step-of_Passes running completed h = finish
Step-of_Passes running failed h = break_off
Step-of_Passes running cancelled h = cancel
Step-of_Passes _ _ h = cc h.1

module _ (c : TaskController) (now id : Text) (s : TaskStatus) where
  update-Passes :
      (t : Task)
      → get_task c id ≡ some t
      → Passes t.status s
      → update_task_status c now id s
        ≡ (record c { tasks = put c.tasks id (moved t now s) }, ok (moved t now s))
  unfolding get_task update_task_status
  update-Passes t h p = ground arith

  update_ok :
      (t r : Task) (c' : TaskController)
      → get_task c id ≡ some t
      → update_task_status c now id s ≡ (c', ok r)
      → Passes t.status s
  unfolding get_task update_task_status
  update_ok t r c' h e = ground arith

  update_none : get_task c id ≡ none → update_task_status c now id s ≡ (c, err (not_found id))
  unfolding get_task update_task_status
  update_none h = ground arith

  -- A refused update leaves the controller as it was.
  update_err :
      (c' : TaskController) (e : TaskError) → update_task_status c now id s ≡ (c', err e) → c' ≡ c
  unfolding update_task_status
  update_err c' e h = ground arith

  update_stopped :
      (t : Task)
      → get_task c id ≡ some t
      → (is_terminal t.status ≡ true) ⊎ (any (status_eq s) (valid_transitions t.status) ≡ false)
      → (update_task_status c now id s).0 ≡ c
  unfolding get_task update_task_status
  update_stopped t h p = ground arith

  update_found :
      (r : Task)
      → (update_task_status c now id s).1 ≡ ok r
      → (t : Task) × (get_task c id ≡ some t) × Passes t.status s
  update_found r e = elim (Option-cases (get_task c id)) [
    | inl h ↦ cc (update_none h)
    | inr (t, h) ↦ (
      t,
      h,
      update_ok t r (update_task_status c now id s).0 h
          (ap (λ o. ((update_task_status c now id s).0, o)) e),
    )
  ]

  -- What an update leaves: the table itself, or the table with one task moved on.
  pub update-state :
      ((update_task_status c now id s).0 ≡ c)
      ⊎ ((t : Task) × (get_task c id ≡ some t)
          × Step t.status s
          × ((update_task_status c now id s).0
              ≡ record c { tasks = put c.tasks id (moved t now s) }))
  update-state = elim (Option-cases (get_task c id)) [
    | inl h ↦ inl (ap (λ o. o.0) (update_none h))
    | inr (t, h) ↦ elim (Bool-cases (is_terminal t.status)) [
      | inl e ↦ inl (update_stopped t h (inl e))
      | inr e ↦ elim (Bool-cases (any (status_eq s) (valid_transitions t.status))) [
        | inl v ↦
            inr (t, h, Step-of_Passes t.status s (e, v), ap (λ o. o.0) (update-Passes t h (e, v)))
        | inr v ↦ inl (update_stopped t h (inr v))
      ]
    ]
  ]

-- `updateTaskStatus` returns a task exactly when the id is in the table and the wanted status
-- follows the task's own in the documented life of a task; every other call throws.
pub update_accepts_iff :
    (c : TaskController) (now id : Text) (s : TaskStatus)
    → ((r : Task) × ((update_task_status c now id s).1 ≡ ok r))
      ↔ ((t : Task) × (get_task c id ≡ some t) × Step t.status s)
update_accepts_iff c now id s = (
  λ (r, e). let (t, h, p) = update_found c now id s r e in (t, h, Step-of_Passes t.status s p),
  λ (t, h, p). (moved t now s, ap (λ o. o.1) (update-Passes c now id s t h (Passes-of_Step _ _ p))),
)

-- An accepted update writes the status and the time of change of that task and nothing else: the
-- task is returned as it is stored, and every other id and the id counter stay as they were. A call
-- that throws changes nothing.
pub update_effect :
    (c : TaskController) (now id : Text) (s : TaskStatus)
    → ((t : Task)
        → get_task c id ≡ some t
        → Step t.status s
        → let (c', r) = update_task_status c now id s in
          (r ≡ ok (moved t now s))
          × (get_task c' id ≡ some (moved t now s))
          × ((j : Text) → id ≢ j → get_task c' j ≡ get_task c j)
          × (c'.id_counter ≡ c.id_counter))
      × ((e : TaskError)
          → (update_task_status c now id s).1 ≡ err e
          → (update_task_status c now id s).0 ≡ c)
unfolding get_task
update_effect c now id s = (
  λ t h p. rw (update-Passes c now id s t h (Passes-of_Step _ _ p)) (
    refl,
    get-put_self c.tasks id (moved t now s),
    λ j ne. get-put_ne c.tasks id j (moved t now s) ne,
    refl,
  ),
  λ e h.
      update_err c now id s (update_task_status c now id s).0 e
        (ap (λ o. ((update_task_status c now id s).0, o)) h),
)

-- A running task can be completed and failed, and the task that is returned carries the reply or
-- the error; the table keeps the reply and the error that were there before, so that a later
-- `getTask` does not show them.
pub reply_not_stored :
    (c : TaskController) (now now' id reply : Text) (t : Task)
    → get_task c id ≡ some t
    → t.status ≡ running
    → let (c', r) = complete_task c now now' id reply in
      let (c'', r') = fail_task c now now' id reply in
      (r ≡ ok (record t { status = completed; updated_at = now'; result = some reply }))
      × (get_task c' id ≡ some (moved t now completed))
      × (r' ≡ ok (record t { status = failed; updated_at = now'; error = some reply }))
      × (get_task c'' id ≡ some (moved t now failed))
unfolding complete_task fail_task get_task
reply_not_stored c now now' id reply t h p =
    let done = update-Passes c now id completed t h (rw p (refl, refl)) in
    let broken = update-Passes c now id failed t h (rw p (refl, refl)) in
    rw (done, broken)
      (
        refl,
        get-put_self c.tasks id (moved t now completed),
        refl,
        get-put_self c.tasks id (moved t now failed),
      )
