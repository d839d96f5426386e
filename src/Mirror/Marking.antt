-- ===== src/Mirror/Marking.antt =====
-- Marking the tasks of a node as unknown.
use tri_mc.Prelude.{
  ℕ, ◌+◌, ◌≡◌, refl, ap, ◌⊎◌, inl, inr, true, false, Bool-cases, Option, none, some, [], ◌∷◌, arith,
  length, In, keep_if,
}
use tri_mc.Prelude.Text.{Text, text_eq}
use tri_mc.Map.{Map, get, values}
use tri_mc.Mirror.{
  MirrorStore, MirrorTask, unknown, is_active_on, mark_tasks, mark_node_unknown, get_active_by_node,
}

module _ (iso node_id : Text) where
  -- A task as the marking leaves it, with its new version.
  abbrev pub marked : MirrorTask → ℕ → MirrorTask
  marked t v = record t { status = unknown; updated_at = iso; version = v }

  pub mark-active :
      (k : Text) (t : MirrorTask) (m : Map MirrorTask) (v : ℕ)
      → is_active_on node_id t ≡ true
      → let rest = mark_tasks iso node_id m (v + 1) in
        mark_tasks iso node_id ((k, t) ∷ m) v ≡ ((k, marked t (v + 1)) ∷ rest.0, rest.1, rest.2 + 1)
  unfolding mark_tasks
  mark-active k t m v a = rw a refl

  pub mark-idle :
      (k : Text) (t : MirrorTask) (m : Map MirrorTask) (v : ℕ)
      → is_active_on node_id t ≡ false
      → let rest = mark_tasks iso node_id m v in
        mark_tasks iso node_id ((k, t) ∷ m) v ≡ ((k, t) ∷ rest.0, rest.1, rest.2)
  unfolding mark_tasks
  mark-idle k t m v a = rw a refl

  -- What the marking makes of the task found under a key.
  abbrev pub Kept : Option MirrorTask → Option MirrorTask → Type 0
  Kept before after =
      (before ≡ none → after ≡ none)
      × ((t : MirrorTask)
          → before ≡ some t
          → (is_active_on node_id t ≡ false → after ≡ some t)
            × (is_active_on node_id t ≡ true → (w : ℕ) × (after ≡ some (marked t w))))

  Kept-active :
      (t : MirrorTask) (w : ℕ) → is_active_on node_id t ≡ true → Kept (some t) (some (marked t w))
  Kept-active t w a = (
    λ h. absurd (cc h),
    λ u h. let q : t ≡ u = ground arith in rw (← q) (λ n. absurd (cc (a, n)), λ _. (w, refl)),
  )

  Kept-idle : (t : MirrorTask) → is_active_on node_id t ≡ false → Kept (some t) (some t)
  Kept-idle t a =
      (λ h. h, λ u h. let q : t ≡ u = ground arith in rw (← q) (λ _. refl, λ n. absurd (cc (a, n))))

  mark-get :
      (m : Map MirrorTask) (v : ℕ) (k : Text)
      → Kept (get m k) (get (mark_tasks iso node_id m v).0 k)
  unfolding get
  mark-get [] v k = unfold mark_tasks in (λ h. refl, λ t h. absurd (cc h))
  mark-get ((j, u) ∷ m) v k = elim (Bool-cases (is_active_on node_id u)) [
    | inl a ↦ rw (mark-active j u m v a) (elim (Bool-cases (text_eq j k)) [
      | inl e ↦ rw e (Kept-active u (v + 1) a)
      | inr e ↦ rw e (mark-get m (v + 1) k)
    ])
    | inr a ↦ rw (mark-idle j u m v a) (elim (Bool-cases (text_eq j k)) [
      | inl e ↦ rw e (Kept-idle u a)
      | inr e ↦ rw e (mark-get m v k)
    ])
  ]

  mark-sum :
      (m : Map MirrorTask) (v : ℕ)
      → let out = mark_tasks iso node_id m v in
        (out.1 ≡ v + out.2) × (out.2 ≡ length (keep_if (is_active_on node_id) (values m)))
  mark-sum [] v = unfold mark_tasks in (omega arith, refl)
  mark-sum ((j, u) ∷ m) v = elim (Bool-cases (is_active_on node_id u)) [
    | inl a ↦
        let (x, y) = mark-sum m (v + 1) in
        rw (mark-active j u m v a) (omega (arith, x), rw a (omega (arith, y)))
    | inr a ↦ let (x, y) = mark-sum m v in rw (mark-idle j u m v a) (x, rw a y)
  ]

  -- What is found after the marking was there before and not active, or is unknown.
  mark-In :
      (m : Map MirrorTask) (v : ℕ) (t : MirrorTask)
      → In t (values (mark_tasks iso node_id m v).0)
      → (In t (values m) × (is_active_on node_id t ≡ false)) ⊎ (t.status ≡ unknown)
  mark-In [] v t h = unfold mark_tasks in elim h [ ]
  mark-In ((j, u) ∷ m) v t h = elim (Bool-cases (is_active_on node_id u)) [
    | inl a ↦ elim (rw (mark-active j u m v a) at h) [
      | inl e ↦ inr (ap (λ (x : MirrorTask). x.status) e)
      | inr k ↦ elim (mark-In m (v + 1) t k) [ inl (i, n) ↦ inl (inr i, n) | inr n ↦ inr n ]
    ]
    | inr a ↦ elim (rw (mark-idle j u m v a) at h) [
      | inl e ↦ inl (inl e, rw e a)
      | inr k ↦ elim (mark-In m v t k) [ inl (i, n) ↦ inl (inr i, n) | inr n ↦ inr n ]
    ]
  ]

-- Marking a node turns each of its tasks that is not terminal to unknown, with the new time of update
-- and a new version, and leaves every other task as it is; no task appears. The number it returns is
-- that of the node's active tasks, and the version counter grows by it.
pub mark_node_iff :
    (iso node_id : Text) (st : MirrorStore)
    → let (st', n) = mark_node_unknown iso st node_id in
      ((k : Text) → Kept iso node_id (get st.tasks k) (get st'.tasks k))
      × (n ≡ length (get_active_by_node st node_id))
      × (st'.version_counter ≡ st.version_counter + n)
      × (st'.node_heartbeats ≡ st.node_heartbeats)
unfolding mark_node_unknown get_active_by_node
mark_node_iff iso node_id st =
    let (x, y) = mark-sum iso node_id st.tasks st.version_counter in
    (λ k. mark-get iso node_id st.tasks st.version_counter k, y, x, refl)

-- Every task of the node is terminal or unknown.
abbrev pub Silent : Text → MirrorStore → Type 0
Silent node_id st =
    (t : MirrorTask) → In t (values st.tasks) → is_active_on node_id t ≡ true → t.status ≡ unknown

pub marked-Silent :
    (iso node_id : Text) (st : MirrorStore) → Silent node_id (mark_node_unknown iso st node_id).0
unfolding mark_node_unknown
marked-Silent iso node_id st t h a = elim (mark-In iso node_id st.tasks st.version_counter t h) [
  | inl (i, n) ↦ absurd (cc (a, n))
  | inr u ↦ u
]

pub mark-Silent :
    (iso node_id other : Text) (st : MirrorStore)
    → Silent other st
    → Silent other (mark_node_unknown iso st node_id).0
unfolding mark_node_unknown
mark-Silent iso node_id other st s t h a =
    elim (mark-In iso node_id st.tasks st.version_counter t h) [ inl (i, n) ↦ s t i a | inr u ↦ u ]

-- What the marking of a node makes of the task under a key.
pub mark_node-Kept :
    (iso node_id : Text) (st : MirrorStore) (k : Text)
    → Kept iso node_id (get st.tasks k) (get (mark_node_unknown iso st node_id).0.tasks k)
unfolding mark_node_unknown
mark_node-Kept iso node_id st k = mark-get iso node_id st.tasks st.version_counter k
