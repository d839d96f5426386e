-- ===== src/Mirror/Soundness.antt =====
-- What holds of the mirrored tasks over every sequence of calls.
use mathlib.Core.List.{append_assoc}
use tri_mc.Prelude.{
  ℕ, ◌+◌, ◌≤◌, ◌≡◌, refl, ap, ◌∙◌, subst, ◌↔◌, inl, inr, true, false, Bool-cases, Option, none,
  some, List, [], ◌∷◌, ◌++◌, arith, length, length-append, length-take, take, All, ltb,
}
use tri_mc.Prelude.Text.{Text, text, text_eq-cases, text_eq_iff}
use tri_mc.Map.{Map, get, put, get-put_self}
use tri_mc.Mirror.{
  MirrorStore, MirrorTask, ReportedTask, Moment, NodeHeartbeatRecord, build_key, cut_summary,
  is_active_on, status_eq, mark_tasks, mark_node_unknown, scan_nodes, scan_stale_nodes, mirror_one,
  MirrorTaskStatus, mirror_entry, with_task, inserted, updated, is_changed, mirror, get_task,
  clean_tasks, cleanup, record_node_heartbeat, is_old, new_store,
}
use tri_mc.Mirror.Marking.{mark-active, mark-idle}
use tri_mc.Mirror.Scanning.{scan-lost, scan-kept, newly}

-- A task under its own key, with a summary of at most 500 units and a version that is given out.
abbrev pub Fits : ℕ → Text × MirrorTask → Type 0
Fits v (k, t) = (k ≡ build_key t.node_id t.task_id) × (length t.summary ≤ 500) × (t.version ≤ v)

abbrev pub Sound : MirrorStore → Type 0
Sound st = All (Fits st.version_counter) st.tasks

Fits-later : (v w : ℕ) (m : Map MirrorTask) → v ≤ w → All (Fits v) m → All (Fits w) m
Fits-later v w [] le h = tt
Fits-later v w ((k, t) ∷ m) le ((a, b, c), h) =
    ((a, b, omega (arith, c, le)), Fits-later v w m le h)

status_eq_iff : (a b : MirrorTaskStatus) → (status_eq a b ≡ true) ↔ (a ≡ b)
status_eq_iff a b = (λ h. ground arith, λ h. ground arith)

All-put :
    {V : Type 0} (P : Text × V → Type 0) (m : Map V) (k : Text) (v : V)
    → All P m
    → P (k, v)
    → All P (put m k v)
unfolding put
All-put P [] k v h p = (p, tt)
All-put P ((j, w) ∷ m) k v (q, h) p = elim (text_eq-cases j k) [
  | inl (e, same) ↦ rw e (rw same p, h)
  | inr (e, ne) ↦ rw e (q, All-put P m k v h p)
]

All-get :
    {V : Type 0} (P : Text × V → Type 0) (m : Map V) (k : Text) (v : V)
    → All P m
    → get m k ≡ some v
    → P (k, v)
unfolding get
All-get P [] k v h e = cc e
All-get P ((j, w) ∷ m) k v (q, h) e = elim (text_eq-cases j k) [
  | inl (t, same) ↦ let found : w ≡ v = ground arith in subst (λ x. P (k, x)) found (rw (← same) q)
  | inr (t, ne) ↦ All-get P m k v h (rw t at e)
]

dots : (s : Text) → length (take 497 s ++ text "...") ≤ 500
unfolding text
dots s = omega (arith, length-append (take 497 s) (text "..."), length-take 497 s)

pub length-cut_summary : (s : Text) → length (cut_summary s) ≤ 500
unfolding cut_summary
length-cut_summary s = elim (Bool-cases (ltb 500 (length s))) [
  | inl e ↦ rw e (dots s)
  | inr e ↦ rw e (ground arith)
]

mark-Fits :
    (iso node : Text) (m : Map MirrorTask) (v : ℕ)
    → All (Fits v) m
    → let out = mark_tasks iso node m v in (v ≤ out.1) × All (Fits out.1) out.0
mark-Fits iso node [] v h = unfold mark_tasks in (omega arith, tt)
mark-Fits iso node ((k, t) ∷ m) v ((a, b, c), h) = elim (Bool-cases (is_active_on node t)) [
  | inl e ↦
      let (x, y) = mark-Fits iso node m (v + 1) (Fits-later v (v + 1) m (omega arith) h) in
      rw (mark-active iso node k t m v e) (omega (arith, x), ((a, b, x), y))
  | inr e ↦
      let (x, y) = mark-Fits iso node m v h in
      rw (mark-idle iso node k t m v e) (x, ((a, b, omega (arith, c, x)), y))
]

mark-Sound :
    (iso node : Text) (st : MirrorStore) → Sound st → Sound (mark_node_unknown iso st node).0
unfolding mark_node_unknown
mark-Sound iso node st h = (mark-Fits iso node st.tasks st.version_counter h).1

scan-Sound :
    (a b now : ℕ) (iso : Text) (m : Map NodeHeartbeatRecord) (st : MirrorStore)
    → Sound st
    → Sound (scan_nodes a b now iso m st).1
scan-Sound a b now iso [] st h = unfold scan_nodes in h
scan-Sound a b now iso ((k, hb) ∷ m) st h = elim (Bool-cases (newly a b now hb)) [
  | inl e ↦
      rw (scan-lost a b now iso k hb m st e)
        (scan-Sound a b now iso m (mark_node_unknown iso st k).0 (mark-Sound iso k st h))
  | inr e ↦ rw (scan-kept a b now iso k hb m st e) (scan-Sound a b now iso m st h)
]

clean-Fits :
    (v age now : ℕ) (m : Map MirrorTask) → All (Fits v) m → All (Fits v) (clean_tasks age now m).0
unfolding clean_tasks
clean-Fits v age now [] h = tt
clean-Fits v age now ((k, t) ∷ m) (p, h) = elim (Bool-cases (is_old age now t)) [
  | inl e ↦ rw e (clean-Fits v age now m h)
  | inr e ↦ rw e (p, clean-Fits v age now m h)
]

write-Sound :
    (st : MirrorStore) (k : Text) (t : MirrorTask) (v : ℕ)
    → Sound st
    → st.version_counter ≤ v
    → Fits v (k, t)
    → Sound (with_task st k t v)
write-Sound st k t v h le p =
    All-put (Fits v) st.tasks k t (Fits-later st.version_counter v st.tasks le h) p

-- The task shows what was reported, and is seen now.
abbrev pub Shows : ReportedTask → Moment → MirrorTask → Type 0
Shows t now u =
    (u.status ≡ t.status)
    × (u.title ≡ t.title)
    × (u.summary ≡ cut_summary t.summary)
    × (u.last_seen_at ≡ now)

unchanged-Shows :
    (t : ReportedTask) (now : Moment) (old : MirrorTask)
    → is_changed t old ≡ false
    → Shows t now (record old { last_seen_at = now })
unchanged-Shows t now old e = (
  (status_eq_iff old.status t.status).0 (ground arith),
  (text_eq_iff old.title t.title).0 (ground arith),
  (text_eq_iff old.summary (cut_summary t.summary)).0 (ground arith),
  refl,
)

module _ (node : Text) (now : Moment) (st : MirrorStore) (t : ReportedTask) (h : Sound st) where
  abbrev Mirrored : MirrorStore → Type 0
  Mirrored st' =
      Sound st'
      × ((u : MirrorTask) × (get st'.tasks (build_key node t.task_id) ≡ some u) × Shows t now u)

  written :
      (u : MirrorTask) (v : ℕ)
      → st.version_counter ≤ v
      → Fits v (build_key node t.task_id, u)
      → Shows t now u
      → Mirrored (with_task st (build_key node t.task_id) u v)
  written u v le p s = (
    write-Sound st (build_key node t.task_id) u v h le p,
    (u, get-put_self st.tasks (build_key node t.task_id) u, s),
  )

  entry-Mirrored :
      (o : Option MirrorTask)
      → get st.tasks (build_key node t.task_id) ≡ o
      → Mirrored (mirror_entry node now st t o).0
  unfolding mirror_entry
  entry-Mirrored none e =
      written (inserted node now t (st.version_counter + 1)) (st.version_counter + 1) (omega arith)
        (refl, length-cut_summary t.summary, omega arith) (refl, refl, refl, refl)
  entry-Mirrored (some old) e =
      let (a, b, c) = All-get (Fits st.version_counter) st.tasks _ old h e in
      elim (Bool-cases (is_changed t old)) [
        | inl x ↦ rw x (
            written (updated now t (st.version_counter + 1) old) (st.version_counter + 1)
              (omega arith) (a, length-cut_summary t.summary, omega arith) (refl, refl, refl, refl))
        | inr x ↦ rw x (
            written (record old { last_seen_at = now }) st.version_counter (omega arith) (a, b, c)
              (unchanged-Shows t now old x))
      ]

  one-Mirrored : Mirrored (mirror_one node now st t).0
  unfolding mirror_one
  one-Mirrored = entry-Mirrored (get st.tasks (build_key node t.task_id)) refl

mirror-Sound :
    (node : Text) (now : Moment) (st : MirrorStore) (ts : List ReportedTask)
    → Sound st
    → Sound (mirror node now st ts).0
unfolding mirror
mirror-Sound node now st [] h = h
mirror-Sound node now st (t ∷ ts) h =
    mirror-Sound node now (mirror_one node now st t).0 ts (one-Mirrored node now st t h).0

-- The calls of the store, each with its readings of the clock.
pub data Call : Type 0 where
  heartbeat : Text → Text → ℕ → Call
  scan_stale : ℕ → ℕ → ℕ → Text → Call
  report : Text → Moment → List ReportedTask → Call
  mark_unknown : Text → Text → Call
  clean : ℕ → ℕ → Call

unfoldable pub perform : MirrorStore → Call → MirrorStore
perform st (heartbeat node state now) = record_node_heartbeat st node state now
perform st (scan_stale a b now iso) = (scan_stale_nodes st a b now iso).0
perform st (report node now ts) = (mirror node now st ts).0
perform st (mark_unknown iso node) = (mark_node_unknown iso st node).0
perform st (clean age now) = (cleanup st age now).0

unfoldable pub run : MirrorStore → List Call → MirrorStore
unfolding perform
run st [] = st
run st (x ∷ xs) = run (perform st x) xs

heartbeat-tasks :
    (st : MirrorStore) (node state : Text) (now : ℕ)
    → let st' = record_node_heartbeat st node state now in
      (st'.tasks ≡ st.tasks) × (st'.version_counter ≡ st.version_counter)
unfolding record_node_heartbeat
heartbeat-tasks st node state now = (ground arith, ground arith)

perform-Sound : (st : MirrorStore) (x : Call) → Sound st → Sound (perform st x)
unfolding perform scan_stale_nodes cleanup
perform-Sound st (heartbeat node state now) h =
    let (t, v) = heartbeat-tasks st node state now in rw (t, v) h
perform-Sound st (scan_stale a b now iso) h = scan-Sound a b now iso st.node_heartbeats st h
perform-Sound st (report node now ts) h = mirror-Sound node now st ts h
perform-Sound st (mark_unknown iso node) h = mark-Sound iso node st h
perform-Sound st (clean age now) h = clean-Fits st.version_counter age now st.tasks h

run-Sound' : (st : MirrorStore) (xs : List Call) → Sound st → Sound (run st xs)
unfolding run
run-Sound' st [] h = h
run-Sound' st (x ∷ xs) h = run-Sound' (perform st x) xs (perform-Sound st x h)

-- From an empty store, after any calls, every task stands under the key of its own node and id, has a
-- summary of at most 500 units, and a version that the counter has given out.
pub run-Sound : (xs : List Call) → Sound (run new_store xs)
run-Sound xs = run-Sound' new_store xs tt

-- In a sound store a reported task is found afterwards with the reported status and title, the
-- reported summary cut to 500 units, and the time of the report as the time it was last seen. This
-- holds whatever its status was before: a terminal task can be running again.
pub mirror-Shows :
    (node : Text) (now : Moment) (st : MirrorStore) (t : ReportedTask)
    → Sound st
    → let st' = (mirror_one node now st t).0 in
      Sound st' × ((u : MirrorTask) × (get_task st' node t.task_id ≡ some u) × Shows t now u)
unfolding get_task
mirror-Shows node now st t h = one-Mirrored node now st t h

-- A node whose name holds a colon shares keys with another node: asking for task `c` of the node
-- `a:b` finds what asking for task `b:c` of the node `a` finds.
pub shared_key :
    (st : MirrorStore) (a b c : Text)
    → get_task st (a ++ (text ":" ++ b)) c ≡ get_task st a (b ++ (text ":" ++ c))
unfolding get_task build_key
shared_key st a b c = ap (get st.tasks) (
    append_assoc a (text ":" ++ b) (text ":" ++ c)
    ∙ ap (λ s. a ++ s) (append_assoc (text ":") b (text ":" ++ c)))
