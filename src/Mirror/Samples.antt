-- ===== src/Mirror/Samples.antt =====
-- A node that reports a task, falls silent and is marked by a scan.
use tri_mc.Prelude.{◌≡◌, ◌⊎◌, some, List, [], ◌∷◌, In}
use tri_mc.Prelude.Text.{Text, text}
use tri_mc.Mirror.{
  ReportedTask, Moment, NodeHeartbeatRecord, MirrorTask, unknown, running, new_store,
  scan_stale_nodes,
}
use tri_mc.Map.{get, values}
use tri_mc.Mirror.Scanning.{Overdue, Terminal, scan_settles}
use tri_mc.Mirror.Soundness.{Sound, Call, heartbeat, scan_stale, report, run, run-Sound}

abbrev noon : Moment
noon = record { ms = 1000; iso = text "2026-08-14T12:00:00.000Z" }

abbrev build : ReportedTask
build = record {
  task_id = text "t1";
  title = text "build";
  status = running;
  summary = text "half done";
  updated_at = text "2026-08-14T11:59:00.000Z";
}

abbrev story : List Call
story =
    heartbeat (text "n1") (text "connected") 1000
    ∷ report (text "n1") noon (build ∷ [])
    ∷ scan_stale 30000 180000 40000 (text "2026-08-14T12:00:39.000Z")
    ∷ []

run-Sound_example : Sound (run new_store story)
run-Sound_example = run-Sound story

scan_settles_example :
    let st = run new_store story in
    let st' = (scan_stale_nodes st 30000 180000 40000 (text "now")).0 in
    ((node : Text) (hb : NodeHeartbeatRecord)
      → In (node, hb) st'.node_heartbeats
      → ¬ Overdue 30000 180000 40000 hb)
    × ((node : Text) (hb : NodeHeartbeatRecord)
        → In (node, hb) st.node_heartbeats
        → Overdue 30000 180000 40000 hb
        → (t : MirrorTask) → In t (values st'.tasks)
        → t.node_id ≡ node
        → Terminal t.status ⊎ (t.status ≡ unknown))
    × ((k : Text) (t : MirrorTask)
        → get st.tasks k ≡ some t
        → Terminal t.status
        → get st'.tasks k ≡ some t)
scan_settles_example = scan_settles (run new_store story) 30000 180000 40000 (text "now")
