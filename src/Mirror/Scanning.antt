-- ===== src/Mirror/Scanning.antt =====
-- The scan that marks the nodes that have fallen silent.
use tri_mc.Prelude.{
  ℕ, ◌+◌, ◌-◌, ◌<◌, ◌≡◌, ◌≢◌, refl, ap, ◌⊎◌, inl, inr, some, false_of_not, Bool, true, false, not,
  ◌&&◌, Bool-cases, [], ◌∷◌, arith, In,
}
use tri_mc.Prelude.Text.{Text, text, text_eq, text_eq_iff}
use tri_mc.Map.{Map, get, values}
use tri_mc.Mirror.{
  MirrorStore, MirrorTask, MirrorTaskStatus, pending, running, success, failed, cancelled, unknown,
  is_terminal, is_active_on, NodeHeartbeatRecord, mark_node_unknown, is_stale, lost, scan_nodes,
  scan_stale_nodes,
}
use tri_mc.Mirror.Marking.{Silent, marked-Silent, mark-Silent, mark_node-Kept}

module _ (stale_ms degraded_stale_ms now : ℕ) where
  -- A node on record, not unknown, whose last heartbeat is too long ago.
  abbrev pub Lost : NodeHeartbeatRecord → Type 0
  Lost hb = (hb.unknown ≡ false) × (is_stale stale_ms degraded_stale_ms now hb ≡ true)

  abbrev pub newly : NodeHeartbeatRecord → Bool
  newly hb = not hb.unknown && is_stale stale_ms degraded_stale_ms now hb

module _ (stale_ms degraded_stale_ms now : ℕ) (iso : Text) where
  abbrev pub scan :
      Map NodeHeartbeatRecord → MirrorStore → Map NodeHeartbeatRecord × MirrorStore × ℕ
  scan = scan_nodes stale_ms degraded_stale_ms now iso

  pub scan-lost :
      (k : Text) (hb : NodeHeartbeatRecord) (m : Map NodeHeartbeatRecord) (st : MirrorStore)
      → newly stale_ms degraded_stale_ms now hb ≡ true
      → let rest = scan m (mark_node_unknown iso st k).0 in
        scan ((k, hb) ∷ m) st ≡ ((k, lost hb) ∷ rest.0, rest.1, rest.2 + 1)
  unfolding scan_nodes
  scan-lost k hb m st e = rw e refl

  pub scan-kept :
      (k : Text) (hb : NodeHeartbeatRecord) (m : Map NodeHeartbeatRecord) (st : MirrorStore)
      → newly stale_ms degraded_stale_ms now hb ≡ false
      → let rest = scan m st in scan ((k, hb) ∷ m) st ≡ ((k, hb) ∷ rest.0, rest.1, rest.2)
  unfolding scan_nodes
  scan-kept k hb m st e = rw e refl

  scan_keeps :
      (m : Map NodeHeartbeatRecord) (st : MirrorStore) (node : Text)
      → Silent node st
      → Silent node (scan m st).1
  scan_keeps [] st node s = unfold scan_nodes in s
  scan_keeps ((k, hb) ∷ m) st node s = elim (Bool-cases (newly stale_ms degraded_stale_ms now hb)) [
    | inl e ↦
        rw (scan-lost k hb m st e)
          (scan_keeps m (mark_node_unknown iso st k).0 node (mark-Silent iso k node st s))
    | inr e ↦ rw (scan-kept k hb m st e) (scan_keeps m st node s)
  ]

  scan_silences :
      (m : Map NodeHeartbeatRecord) (st : MirrorStore) (node : Text) (hb : NodeHeartbeatRecord)
      → In (node, hb) m
      → Lost stale_ms degraded_stale_ms now hb
      → Silent node (scan m st).1
  scan_silences [] st node hb i l = elim i [ ]
  scan_silences ((k, x) ∷ m) st node hb (inl q) l =
      let same : node ≡ k = ap (λ p. p.0) q in
      let e : newly stale_ms degraded_stale_ms now x ≡ true = ground arith in
      rw (scan-lost k x m st e)
        (scan_keeps m (mark_node_unknown iso st k).0 node (rw same (marked-Silent iso k st)))
  scan_silences ((k, x) ∷ m) st node hb (inr i) l =
      elim (Bool-cases (newly stale_ms degraded_stale_ms now x)) [
        | inl e ↦
            rw (scan-lost k x m st e) (scan_silences m (mark_node_unknown iso st k).0 node hb i l)
        | inr e ↦ rw (scan-kept k x m st e) (scan_silences m st node hb i l)
      ]

  scan-fresh :
      (m : Map NodeHeartbeatRecord) (st : MirrorStore) (node : Text) (hb : NodeHeartbeatRecord)
      → In (node, hb) (scan m st).0
      → ¬ Lost stale_ms degraded_stale_ms now hb
  scan-fresh [] st node hb i l = unfold scan_nodes in elim i [ ]
  scan-fresh ((k, x) ∷ m) st node hb i l =
      elim (Bool-cases (newly stale_ms degraded_stale_ms now x)) [
        | inl e ↦ elim (rw (scan-lost k x m st e) at i) [
          | inl q ↦
              let u : hb.unknown ≡ true = ap (λ (p : Text × NodeHeartbeatRecord). p.1.unknown) q in
              cc (u, l.0)
          | inr j ↦ scan-fresh m (mark_node_unknown iso st k).0 node hb j l
        ]
        | inr e ↦ elim (rw (scan-kept k x m st e) at i) [
          | inl q ↦
              let same : hb ≡ x = ap (λ (p : Text × NodeHeartbeatRecord). p.1) q in ground arith
          | inr j ↦ scan-fresh m st node hb j l
        ]
      ]

-- A node on record, not unknown, from which nothing has been heard for longer than it may be silent:
-- the second time for a node that last said that it is degraded, the first for any other.
pub data Overdue (stale_ms degraded_stale_ms now : ℕ) (hb : NodeHeartbeatRecord) : Type 0 where
  degraded_silent :
      hb.unknown ≡ false
      → hb.state ≡ text "degraded"
      → degraded_stale_ms < now - hb.last_seen_at
      → Overdue stale_ms degraded_stale_ms now hb
  silent :
      hb.unknown ≡ false
      → hb.state ≢ text "degraded"
      → stale_ms < now - hb.last_seen_at
      → Overdue stale_ms degraded_stale_ms now hb

-- The states of a task that nothing more is expected of.
pub data Terminal : MirrorTaskStatus → Type 0 where
  succeeded : Terminal success
  has_failed : Terminal failed
  was_cancelled : Terminal cancelled

module _ (stale_ms degraded_stale_ms now : ℕ) (hb : NodeHeartbeatRecord) where
  past_deadline : Overdue stale_ms degraded_stale_ms now hb → Lost stale_ms degraded_stale_ms now hb
  past_deadline (degraded_silent k e l) =
      let d = (text_eq_iff hb.state (text "degraded")).1 e in (k, rw d (ground arith))
  past_deadline (silent k n l) =
      let d = false_of_not _ (text_eq_iff hb.state (text "degraded")) n in (k, rw d (ground arith))

is_terminal-Terminal : (s : MirrorTaskStatus) → Terminal s → is_terminal s ≡ true
is_terminal-Terminal success succeeded = refl
is_terminal-Terminal failed has_failed = refl
is_terminal-Terminal cancelled was_cancelled = refl
is_terminal-Terminal pending x = elim x [ ]
is_terminal-Terminal running x = elim x [ ]
is_terminal-Terminal unknown x = elim x [ ]

over_of_Silent :
    (node : Text) (st : MirrorStore)
    → Silent node st
    → (t : MirrorTask) → In t (values st.tasks)
    → t.node_id ≡ node
    → Terminal t.status ⊎ (t.status ≡ unknown)
over_of_Silent node st s t i e = over t.status refl
  where
    here : text_eq t.node_id node ≡ true
    here = (text_eq_iff t.node_id node).1 e

    over : (x : MirrorTaskStatus) → t.status ≡ x → Terminal t.status ⊎ (t.status ≡ unknown)
    over success q = inl (rw q succeeded)
    over failed q = inl (rw q has_failed)
    over cancelled q = inl (rw q was_cancelled)
    over unknown q = inr q
    over pending q = inr (s t i (rw (here, q) refl))
    over running q = inr (s t i (rw (here, q) refl))

idle_of_Terminal : (node : Text) (t : MirrorTask) → Terminal t.status → is_active_on node t ≡ false
idle_of_Terminal node t x = let e = is_terminal-Terminal t.status x in ground arith

keeps_finished :
    (stale_ms degraded_stale_ms now : ℕ) (iso : Text) (m : Map NodeHeartbeatRecord)
    (st : MirrorStore) (k : Text) (t : MirrorTask)
    → Terminal t.status
    → get st.tasks k ≡ some t
    → get (scan stale_ms degraded_stale_ms now iso m st).1.tasks k ≡ some t
keeps_finished stale_ms degraded_stale_ms now iso [] st k t x e = unfold scan_nodes in e
keeps_finished stale_ms degraded_stale_ms now iso ((j, hb) ∷ m) st k t x e =
    elim (Bool-cases (newly stale_ms degraded_stale_ms now hb)) [
      | inl n ↦
          let kept : get (mark_node_unknown iso st j).0.tasks k ≡ some t =
            ((mark_node-Kept iso j st k).1 t e).0 (idle_of_Terminal j t x) in
          rw (scan-lost stale_ms degraded_stale_ms now iso j hb m st n) (
            keeps_finished stale_ms degraded_stale_ms now iso m (mark_node_unknown iso st j).0 k t x
              kept)
      | inr n ↦
          rw (scan-kept stale_ms degraded_stale_ms now iso j hb m st n)
            (keeps_finished stale_ms degraded_stale_ms now iso m st k t x e)
    ]

-- After a scan no node on record is both known and silent for longer than it may be, which is the
-- second of the two times for a node that last said that it is degraded and the first for any other.
-- Every task of a node that the scan found so is terminal or unknown, and no terminal task of any
-- node has changed.
pub scan_settles :
    (st : MirrorStore) (stale_ms degraded_stale_ms now : ℕ) (iso : Text)
    → let st' = (scan_stale_nodes st stale_ms degraded_stale_ms now iso).0 in
      ((node : Text) (hb : NodeHeartbeatRecord)
        → In (node, hb) st'.node_heartbeats
        → ¬ Overdue stale_ms degraded_stale_ms now hb)
      × ((node : Text) (hb : NodeHeartbeatRecord)
          → In (node, hb) st.node_heartbeats
          → Overdue stale_ms degraded_stale_ms now hb
          → (t : MirrorTask) → In t (values st'.tasks)
          → t.node_id ≡ node
          → Terminal t.status ⊎ (t.status ≡ unknown))
      × ((k : Text) (t : MirrorTask)
          → get st.tasks k ≡ some t
          → Terminal t.status
          → get st'.tasks k ≡ some t)
unfolding scan_stale_nodes
scan_settles st stale_ms degraded_stale_ms now iso =
    let st' = (scan_stale_nodes st stale_ms degraded_stale_ms now iso).0 in
    (
      λ node hb i o.
          scan-fresh stale_ms degraded_stale_ms now iso st.node_heartbeats st node hb i
            (past_deadline stale_ms degraded_stale_ms now hb o),
      λ node hb i o. over_of_Silent node st' (
          scan_silences stale_ms degraded_stale_ms now iso st.node_heartbeats st node hb i
            (past_deadline stale_ms degraded_stale_ms now hb o)),
      λ k t e x. keeps_finished stale_ms degraded_stale_ms now iso st.node_heartbeats st k t x e,
    )
