-- ===== src/Tasks/Runs.antt =====
-- What holds of the controller over every sequence of calls.
use tri_mc.Prelude.{◌≡◌, refl, sym, ap, ◌∙◌, ◌⊎◌, inl, inr, none, true, some, List, [], ◌∷◌, arith}
use tri_mc.Prelude.Text.{Text, text, text_eq-cases}
use tri_mc.Map.{get, put, get-put_self, get-put_ne}
use tri_mc.Tasks.{
  Task, TaskController, TaskStatus, TaskPriority, normal, completed, failed, create_task, get_task,
  update_task_status, complete_task, fail_task, accept_placeholder, is_terminal, empty, reset,
}
use tri_mc.Tasks.Lifecycle.{Step, moved, update-state, Step-not_terminal}
use tri_mc.Tasks.Fresh.{
  IsSound, empty-IsSound, create-IsSound, write-IsSound, create_keeps, some_injective,
}

-- The calls that a client makes, each with its readings of the clock.
pub data Call : Type 0 where
  create : Text → Text → TaskPriority → Call
  update : Text → Text → TaskStatus → Call
  complete fail : Text → Text → Text → Text → Call
  placeholder : Text → Call
  clear : Call

unfoldable pub perform : TaskController → Call → TaskController
perform c (create now d p) = (create_task c now d p).0
perform c (update now id s) = (update_task_status c now id s).0
perform c (complete now now' id r) = (complete_task c now now' id r).0
perform c (fail now now' id e) = (fail_task c now now' id e).0
perform c (placeholder now) = (accept_placeholder c now).0
perform c clear = reset c

unfoldable pub run : TaskController → List Call → TaskController
unfolding perform
run c [] = c
run c (x ∷ xs) = run (perform c x) xs

-- The calls among which is no `reset`, which empties the table.
pub data NoReset : List Call → Type 0 where
  no_calls : NoReset []
  create_first :
      (now d : Text) (p : TaskPriority) {xs : List Call}
      → NoReset xs
      → NoReset (create now d p ∷ xs)
  update_first :
      (now id : Text) (s : TaskStatus) {xs : List Call}
      → NoReset xs
      → NoReset (update now id s ∷ xs)
  complete_first :
      (now now' id r : Text) {xs : List Call} → NoReset xs → NoReset (complete now now' id r ∷ xs)
  fail_first :
      (now now' id e : Text) {xs : List Call} → NoReset xs → NoReset (fail now now' id e ∷ xs)
  placeholder_first : (now : Text) {xs : List Call} → NoReset xs → NoReset (placeholder now ∷ xs)

-- A task's later forms: the steps of its life, and nothing but its status and time of change moves.
pub data Evolves (t : Task) : Task → Type 0 where
  unchanged : Evolves t t
  stepped :
      {u : Task} (now : Text) (s : TaskStatus)
      → Evolves t u
      → Step u.status s
      → Evolves t (moved u now s)

placeholder-state :
    (c : TaskController) (now : Text)
    → (accept_placeholder c now).0 ≡ (create_task c now (text "placeholder") normal).0
unfolding accept_placeholder
placeholder-state c now = ground arith

complete-state :
    (c : TaskController) (now now' id r : Text)
    → (complete_task c now now' id r).0 ≡ (update_task_status c now id completed).0
unfolding complete_task
complete-state c now now' id r = ground arith

fail-state :
    (c : TaskController) (now now' id r : Text)
    → (fail_task c now now' id r).0 ≡ (update_task_status c now id failed).0
unfolding fail_task
fail-state c now now' id r = ground arith

-- What holds of `c`, and is kept by filing a task and by moving one on, is kept by
-- every call but a reset.
module _ (P : TaskController → Type 0)
    (file : (c : TaskController) (now d : Text) (p : TaskPriority)
      → P c
      → P (create_task c now d p).0)
    (move : (c : TaskController) (now id : Text) (s : TaskStatus) (t : Task)
      → get_task c id ≡ some t
      → Step t.status s
      → P c
      → P (record c { tasks = put c.tasks id (moved t now s) })) where
  update_keeps :
      (c : TaskController) (now id : Text) (s : TaskStatus)
      → P c
      → P (update_task_status c now id s).0
  update_keeps c now id s h = elim (update-state c now id s) [
    | inl e ↦ rw e h
    | inr (t, f, p, e) ↦ rw e (move c now id s t f p h)
  ]

  run_keeps : (c : TaskController) (xs : List Call) → NoReset xs → P c → P (run c xs)
  unfolding run perform
  run_keeps c [] no_calls h = h
  run_keeps c (clear ∷ xs) n h = elim n [ ]
  run_keeps c (create now d p ∷ xs) (create_first _ _ _ n) h =
      run_keeps (create_task c now d p).0 xs n (file c now d p h)
  run_keeps c (update now id s ∷ xs) (update_first _ _ _ n) h =
      run_keeps (update_task_status c now id s).0 xs n (update_keeps c now id s h)
  run_keeps c (complete now now' id r ∷ xs) (complete_first _ _ _ _ n) h =
      run_keeps (complete_task c now now' id r).0 xs n
        (rw complete-state (update_keeps c now id completed h))
  run_keeps c (fail now now' id e ∷ xs) (fail_first _ _ _ _ n) h =
      run_keeps (fail_task c now now' id e).0 xs n (rw fail-state (update_keeps c now id failed h))
  run_keeps c (placeholder now ∷ xs) (placeholder_first _ n) h =
      run_keeps (accept_placeholder c now).0 xs n
        (rw placeholder-state (file c now (text "placeholder") normal h))

move-IsSound :
    (c : TaskController) (now id : Text) (s : TaskStatus) (t : Task)
    → get_task c id ≡ some t
    → Step t.status s
    → IsSound c
    → IsSound (record c { tasks = put c.tasks id (moved t now s) })
unfolding get_task
move-IsSound c now id s t f p h = write-IsSound c h id t (moved t now s) f refl

-- The calls up to the last reset leave no trace.
run_cases :
    (xs : List Call)
    → NoReset xs
      ⊎ ((ys : List Call) × NoReset ys × ((c : TaskController) → run c xs ≡ run empty ys))
unfolding run perform reset
run_cases [] = inl no_calls
run_cases (clear ∷ xs) = elim (run_cases xs) [
  | inl n ↦ inr (xs, n, λ c. refl)
  | inr (ys, n, e) ↦ inr (ys, n, λ c. e _)
]
run_cases (create now d p ∷ xs) = elim (run_cases xs) [
  | inl n ↦ inl (create_first now d p n)
  | inr (ys, n, e) ↦ inr (ys, n, λ c. e _)
]
run_cases (update now id s ∷ xs) = elim (run_cases xs) [
  | inl n ↦ inl (update_first now id s n)
  | inr (ys, n, e) ↦ inr (ys, n, λ c. e _)
]
run_cases (complete now now' id r ∷ xs) = elim (run_cases xs) [
  | inl n ↦ inl (complete_first now now' id r n)
  | inr (ys, n, e) ↦ inr (ys, n, λ c. e _)
]
run_cases (fail now now' id f ∷ xs) = elim (run_cases xs) [
  | inl n ↦ inl (fail_first now now' id f n)
  | inr (ys, n, e) ↦ inr (ys, n, λ c. e _)
]
run_cases (placeholder now ∷ xs) = elim (run_cases xs) [
  | inl n ↦ inl (placeholder_first now n)
  | inr (ys, n, e) ↦ inr (ys, n, λ c. e _)
]

kept-IsSound : (c : TaskController) (xs : List Call) → NoReset xs → IsSound c → IsSound (run c xs)
kept-IsSound = run_keeps IsSound (λ c now d p h. create-IsSound c h now d p) move-IsSound

-- From the empty controller, whatever calls are made, resets among them: every task stands under its own id, no id
-- twice, and every id is `task_n` for some n up to the counter.
pub run-IsSound : (xs : List Call) → IsSound (run empty xs)
run-IsSound xs = elim (run_cases xs) [
  | inl n ↦ kept-IsSound empty xs n empty-IsSound
  | inr (ys, n, e) ↦ rw (e empty) (kept-IsSound empty ys n empty-IsSound)
]

-- The sound tables in which the task `t` of `id` lives on.
abbrev Holds : Text → Task → TaskController → Type 0
Holds id t c = IsSound c × (u : Task) × (get_task c id ≡ some u) × Evolves t u

move-Holds :
    (k : Text) (t : Task) (c : TaskController) (now id : Text) (s : TaskStatus) (v : Task)
    → get_task c id ≡ some v
    → Step v.status s
    → Holds k t c
    → Holds k t (record c { tasks = put c.tasks id (moved v now s) })
unfolding get_task
move-Holds k t c now id s v f p (sound, u, h, e) = elim (text_eq-cases id k) [
  | inl (q, same) ↦
      let now_v : u ≡ v = some_injective (rw (sym h, ← same) f) in
      (
        move-IsSound c now id s v f p sound,
        moved v now s,
        rw same (get-put_self c.tasks k (moved v now s)),
        stepped now s (rw now_v at e) p,
      )
  | inr (q, ne) ↦
      (move-IsSound c now id s v f p sound, u, get-put_ne c.tasks id k (moved v now s) ne ∙ h, e)
]

-- In a sound controller no call but a reset removes a task or edits it but through its life: after
-- any calls among which is no reset the task stands under its id still, and differs from before by
-- the documented steps alone. A reset leaves no task.
pub run-Evolves :
    (c : TaskController) (xs : List Call) (id : Text) (t : Task)
    → IsSound c
    → get_task c id ≡ some t
    → (NoReset xs → (u : Task) × (get_task (run c xs) id ≡ some u) × Evolves t u)
      × (get_task (perform (run c xs) clear) id ≡ none)
unfolding perform reset get_task get
run-Evolves c xs id t sound h = (λ n. evolves n, refl)
  where
    evolves : NoReset xs → (u : Task) × (get_task (run c xs) id ≡ some u) × Evolves t u
    evolves n =
        let (_, u, f, e) =
          run_keeps (Holds id t)
            (λ c now d p (s, v, g, e).
              (create-IsSound c s now d p, v, create_keeps c s now d p id v g, e))
            (move-Holds id t) c xs n (sound, t, h, unchanged) in
        (u, f, e)

stays_terminal : (t u : Task) → Evolves t u → is_terminal t.status ≡ true → u ≡ t
stays_terminal t u unchanged h = refl
stays_terminal t u (stepped {u = v} now s e p) h = cc (
  Step-not_terminal v.status s p,
  ap (λ (w : Task). is_terminal w.status) (stays_terminal t v e h),
  h,
)

-- A completed, failed or cancelled task is never touched again, by any calls among which is no reset.
pub terminal_frozen :
    (c : TaskController) (xs : List Call) (id : Text) (t : Task)
    → IsSound c
    → get_task c id ≡ some t
    → is_terminal t.status ≡ true
    → NoReset xs
    → get_task (run c xs) id ≡ some t
terminal_frozen c xs id t sound h e n =
    let (u, f, ev) = (run-Evolves c xs id t sound h).0 n in rw (← stays_terminal t u ev e) f
