-- ===== src/Tasks/Fresh.antt =====
-- The table's invariant, and the fresh id of each new task.
use tri_mc.Prelude.{
  ℕ, ◌+◌, ◌≤◌, ◌≡◌, refl, sym, ap, ◌∙◌, ◌≢◌, ◌↔◌, ◌⊎◌, inl, inr, true, false, none, some, [], ◌∷◌,
  ◌++◌, arith, Option-cases, Bool-cases, ◌||◌,
}
use tri_mc.Prelude.Text.{Text, text, decimal, decimal-injective, trim, text_eq-cases}
use tri_mc.Map.{
  get, put, get-put, get-put_self, get-put_ne, IsDistinct, put-IsDistinct, length-put_new,
}
use tri_mc.Tasks.{
  Task, TaskController, TaskPriority, ok, err, empty_description, create_task, get_task, task_count,
  task_key, new_task, is_empty, empty,
}

-- Every task stands under its own id, and the ids are `task_1` to `task_<counter>`.
pub record IsSound (c : TaskController) : Type 0 where
  pub distinct : IsDistinct c.tasks
  pub keyed : (k : Text) (t : Task) → get c.tasks k ≡ some t → t.task_id ≡ k
  pub numbered :
      (k : Text) (t : Task)
      → get c.tasks k ≡ some t
      → (n : ℕ) × (n ≤ c.id_counter) × (k ≡ task_key n)

append_cancel : (p s t : Text) → p ++ s ≡ p ++ t → s ≡ t
append_cancel [] s t e = e
append_cancel (a ∷ p) s t e = append_cancel p s t (ground arith)

pub task_key-injective : (m n : ℕ) → task_key m ≡ task_key n → m ≡ n
unfolding task_key
task_key-injective m n e =
    decimal-injective m n (append_cancel (text "task_") (decimal m) (decimal n) e)

pub empty-IsSound : IsSound empty
unfolding get
empty-IsSound = record { distinct = tt; keyed = λ k t e. cc; numbered = λ k t e. cc }

pub some_injective : {a b : Task} → some a ≡ some b → a ≡ b
some_injective e = cc

module _ (c : TaskController) (sound : IsSound c) where
  next_is_new : get c.tasks (task_key (c.id_counter + 1)) ≡ none
  next_is_new = elim (Option-cases (get c.tasks (task_key (c.id_counter + 1)))) [
    | inl e ↦ e
    | inr (t, e) ↦
        let (n, le, q) = sound.numbered _ t e in
        absurd (omega (arith, task_key-injective (c.id_counter + 1) n q))
  ]

  pub create-IsSound : (now d : Text) (p : TaskPriority) → IsSound (create_task c now d p).0
  unfolding create_task
  create-IsSound now d p = elim (Bool-cases (is_empty d || is_empty (trim d))) [
    | inl e ↦ rw e sound
    | inr e ↦ rw e (record {
      distinct = put-IsDistinct c.tasks _ _ sound.distinct;
      keyed = λ k t q. elim (text_eq-cases (task_key (c.id_counter + 1)) k) [
        | inl (r, s) ↦
            ap (λ (u : Task). u.task_id) (sym (some_injective (rw (get-put, r) at q))) ∙ s
        | inr (r, s) ↦ sound.keyed k t (rw (get-put, r) at q)
      ];
      numbered = λ k t q. elim (text_eq-cases (task_key (c.id_counter + 1)) k) [
        | inl (r, s) ↦ (c.id_counter + 1, omega arith, sym s)
        | inr (r, s) ↦
            let (n, le, z) = sound.numbered k t (rw (get-put, r) at q) in (n, omega arith, z)
      ];
    })
  ]

  -- Filing a task touches no task that is there.
  pub create_keeps :
      (now d : Text) (p : TaskPriority) (id : Text) (t : Task)
      → get_task c id ≡ some t
      → get_task (create_task c now d p).0 id ≡ some t
  unfolding create_task get_task
  create_keeps now d p id t h = elim (Bool-cases (is_empty d || is_empty (trim d))) [
    | inl e ↦ rw e h
    | inr e ↦ rw e (get-put_ne c.tasks _ id _ (λ q. cc (next_is_new, rw (← q) at h)) ∙ h)
  ]

  -- Writing a task back under its own id.
  pub write-IsSound :
      (id : Text) (t u : Task)
      → get c.tasks id ≡ some t
      → u.task_id ≡ t.task_id
      → IsSound (record c { tasks = put c.tasks id u })
  write-IsSound id t u h e = record {
    distinct = put-IsDistinct c.tasks _ _ sound.distinct;
    keyed = λ k v q. elim (text_eq-cases id k) [
      | inl (r, s) ↦
          ap (λ (w : Task). w.task_id) (sym (some_injective (rw (get-put, r) at q)))
          ∙ (e ∙ (sound.keyed id t h ∙ s))
      | inr (r, s) ↦ sound.keyed k v (rw (get-put, r) at q)
    ];
    numbered = λ k v q. elim (text_eq-cases id k) [
      | inl (r, s) ↦ rw (← s) (sound.numbered id t h)
      | inr (r, s) ↦ sound.numbered k v (rw (get-put, r) at q)
    ];
  }

is_empty_of_ne : (s : Text) → s ≢ [] → is_empty s ≡ false
is_empty_of_ne [] h = absurd (h refl)
is_empty_of_ne (a ∷ s) h = refl

nil_cases : (s : Text) → (s ≡ []) ⊎ (s ≢ [])
nil_cases [] = inl refl
nil_cases (a ∷ s) = inr (λ e. cc)

not_blank : (d : Text) → trim d ≢ [] → (is_empty d || is_empty (trim d)) ≡ false
not_blank [] h = absurd (h (unfold trim in refl))
not_blank (a ∷ d) h = is_empty_of_ne (trim (a ∷ d)) h

blank : (d : Text) → trim d ≡ [] → (is_empty d || is_empty (trim d)) ≡ true
blank [] h = refl
blank (a ∷ d) h = rw h refl

blank_of_reject :
    (c : TaskController) (now d : Text) (p : TaskPriority)
    → (create_task c now d p).1 ≡ err empty_description
    → trim d ≡ []
unfolding create_task
blank_of_reject c now d p h = elim (nil_cases (trim d)) [
  | inl e ↦ e
  | inr ne ↦ cc (rw (not_blank d ne) at h)
]

-- `createTask` throws exactly when the description is empty or nothing but white space, and then
-- changes nothing.
pub create_rejects_iff :
    (c : TaskController) (now d : Text) (p : TaskPriority)
    → (((create_task c now d p).1 ≡ err empty_description) ↔ (trim d ≡ []))
      × (trim d ≡ [] → (create_task c now d p).0 ≡ c)
unfolding create_task
create_rejects_iff c now d p =
    ((λ h. blank_of_reject c now d p h, λ e. rw (blank d e)), λ e. rw (blank d e))

-- On a sound table, a description with something besides white space is filed as a queued task
-- under an id that the table did not have; the counter and the number of tasks grow by one, the
-- other ids keep their tasks, and the table stays sound.
pub create_fresh :
    (c : TaskController) (now d : Text) (p : TaskPriority)
    → IsSound c
    → trim d ≢ []
    → let id = task_key (c.id_counter + 1) in
      let (c', r) = create_task c now d p in
      (r ≡ ok (new_task id d p now))
      × (get_task c id ≡ none)
      × (get_task c' id ≡ some (new_task id d p now))
      × ((j : Text) → id ≢ j → get_task c' j ≡ get_task c j)
      × (c'.id_counter ≡ c.id_counter + 1)
      × (task_count c' ≡ task_count c + 1)
      × IsSound c'
unfolding get_task task_count
create_fresh c now d p sound h =
    let id = task_key (c.id_counter + 1) in
    let t = new_task id d p now in
    let new = next_is_new c sound in
    let e : create_task c now d p
        ≡ (record { tasks = put c.tasks id t; id_counter = c.id_counter + 1 }, ok t) =
      unfold create_task in rw (not_blank d h) in
    (
      ap (λ o. o.1) e,
      new,
      rw e (get-put_self c.tasks id t),
      λ j ne. rw e (get-put_ne c.tasks id j t ne),
      ap (λ o. o.0.id_counter) e,
      rw e (length-put_new c.tasks id t new),
      create-IsSound c sound now d p,
    )
