-- ===== src/Tasks/Listing.antt =====
-- What `listTasks` returns.
use tri_mc.Prelude.{
  ◌≡◌, refl, sym, ◌↔◌, Bool, true, Option, none, some, In, keep_if, subst, In-keep_if,
  In-keep_if_of, arith,
}
use tri_mc.Map.{get, values, In-values_of_get, get_of_In-values}
use tri_mc.Tasks.{
  Task, TaskController, TaskStatus, TaskPriority, get_task, list_tasks, passes, status_eq,
  priority_eq,
}
use tri_mc.Tasks.Fresh.{IsSound}

-- A filter that is left out lets every value through.
abbrev pub Wants : {A : Type 0} → Option A → A → Type 0
Wants none a = Unit
Wants (some wanted) a = a ≡ wanted

status_eq_iff : (a b : TaskStatus) → (status_eq a b ≡ true) ↔ (a ≡ b)
status_eq_iff a b = (λ h. ground arith, λ h. ground arith)

priority_eq_iff : (a b : TaskPriority) → (priority_eq a b ≡ true) ↔ (a ≡ b)
priority_eq_iff a b = (λ h. ground arith, λ h. ground arith)

passes_iff :
    {A : Type 0} (eq : A → A → Bool) (wanted : Option A) (a : A)
    → ((x y : A) → (eq x y ≡ true) ↔ (x ≡ y))
    → (passes eq wanted a ≡ true) ↔ Wants wanted a
passes_iff eq none a h = (λ e. tt, λ e. refl)
passes_iff eq (some w) a h = h a w

-- In a sound controller `listTasks` returns the tasks that `getTask` finds under their own ids and
-- that have the wanted status and priority, each where one is given, and no others.
pub list_tasks_iff :
    (c : TaskController) (status : Option TaskStatus) (priority : Option TaskPriority) (t : Task)
    → IsSound c
    → In t (list_tasks c status priority)
      ↔ ((get_task c t.task_id ≡ some t) × Wants status t.status × Wants priority t.priority)
unfolding list_tasks get_task
list_tasks_iff c status priority t sound =
    let by_status = passes_iff status_eq status t.status status_eq_iff in
    let by_priority = passes_iff priority_eq priority t.priority priority_eq_iff in
    let ts = values c.tasks in
    let us = keep_if (λ (u : Task). passes status_eq status u.status) ts in
    (
      λ m.
          let (m', p) = In-keep_if (λ u. passes priority_eq priority u.priority) t us m in
          let (m'', q) = In-keep_if (λ u. passes status_eq status u.status) t ts m' in
          let (k, e) = get_of_In-values c.tasks t sound.distinct m'' in
          (
            subst (λ j. get c.tasks j ≡ some t) (sym (sound.keyed k t e)) e,
            by_status.0 q,
            by_priority.0 p,
          ),
      λ (e, q, p).
          In-keep_if_of (λ u. passes priority_eq priority u.priority) t us
            (In-keep_if_of (λ u. passes status_eq status u.status) t ts
              (In-values_of_get c.tasks t.task_id t e) (by_status.1 q))
            (by_priority.1 p),
    )
