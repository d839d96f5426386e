-- ===== src/Mirror.antt =====
-- The mirror store (src/mirror/store.ts, src/mirror/types.ts): the server's copy of the nodes' tasks
-- and their heartbeats. A reading of the clock that is stored is a moment: milliseconds and the ISO
-- form that the program stores, from which it gets the milliseconds back.
pub mod Marking
pub mod Scanning
pub mod Soundness
mod Samples
use tri_mc.Prelude.{
  ℕ, ◌+◌, ◌-◌, min, Bool, true, false, not, ◌&&◌, ◌||◌, Option, none, some, List, [], ◌∷◌, ◌++◌,
  ◌==◌, ltb, leb, if◌then◌else◌, length, take, drop, any, keep_if,
}
use tri_mc.Prelude.Text.{Text, text, text_eq}
use tri_mc.Prelude.Sort.{sort_desc}
use tri_mc.Map.{Map, get, put, values}

pub data MirrorTaskStatus : Type 0 where
  pending running success failed cancelled unknown : MirrorTaskStatus

abbrev status_index : MirrorTaskStatus → ℕ
status_index pending = 0
status_index running = 1
status_index success = 2
status_index failed = 3
status_index cancelled = 4
status_index unknown = 5

abbrev pub status_eq : MirrorTaskStatus → MirrorTaskStatus → Bool
status_eq a b = status_index a == status_index b

abbrev terminal_statuses : List MirrorTaskStatus
terminal_statuses = success ∷ failed ∷ cancelled ∷ []

abbrev pub is_terminal : MirrorTaskStatus → Bool
is_terminal s = any (status_eq s) terminal_statuses

pub record Moment : Type 0 where
  pub ms : ℕ
  pub iso : Text

pub record MirrorTask : Type 0 where
  pub task_id : Text
  pub node_id : Text
  pub title : Text
  pub status : MirrorTaskStatus
  pub summary : Text
  pub updated_at : Text
  pub last_seen_at : Moment
  pub first_seen_at : Moment
  pub version : ℕ

-- A task in the body of a mirror request.
pub record ReportedTask : Type 0 where
  pub task_id : Text
  pub title : Text
  pub status : MirrorTaskStatus
  pub summary : Text
  pub updated_at : Text

pub record NodeHeartbeatRecord : Type 0 where
  pub last_seen_at : ℕ
  pub state : Text
  pub consecutive_hbs : ℕ
  pub unknown : Bool

pub record MirrorStore : Type 0 where
  pub tasks : Map MirrorTask
  pub node_heartbeats : Map NodeHeartbeatRecord
  pub version_counter : ℕ

abbrev pub new_store : MirrorStore
new_store = record { tasks = []; node_heartbeats = []; version_counter = 0 }

pub build_key : Text → Text → Text
build_key node_id task_id = node_id ++ (text ":" ++ task_id)

-- A heartbeat of a node that is on record.
pub beat : NodeHeartbeatRecord → Text → ℕ → NodeHeartbeatRecord
beat hb state now =
    let n = min (hb.consecutive_hbs + 1) 100 in
    if hb.unknown && leb 2 n
    then record { last_seen_at = now; state = state; consecutive_hbs = 0; unknown = false }
    else record { last_seen_at = now; state = state; consecutive_hbs = n; unknown = hb.unknown }

pub record_node_heartbeat : MirrorStore → Text → Text → ℕ → MirrorStore
record_node_heartbeat st node_id state now = elim (get st.node_heartbeats node_id) [
  | none ↦ record st {
    node_heartbeats =
        put st.node_heartbeats node_id
          (record { last_seen_at = now; state = state; consecutive_hbs = 1; unknown = false });
  }
  | some hb ↦ record st { node_heartbeats = put st.node_heartbeats node_id (beat hb state now) }
]

abbrev pub is_active_on : Text → MirrorTask → Bool
is_active_on node_id t = text_eq t.node_id node_id && not (is_terminal t.status)

-- The loop of `markNodeUnknown`: the tasks, the version counter, and how many are marked.
pub mark_tasks : Text → Text → Map MirrorTask → ℕ → Map MirrorTask × ℕ × ℕ
mark_tasks iso node_id [] version = ([], version, 0)
mark_tasks iso node_id ((k, t) ∷ m) version =
    let active = is_active_on node_id t in
    let v = if active then version + 1 else version in
    let rest = mark_tasks iso node_id m v in
    if active
    then (
      (k, record t { status = unknown; updated_at = iso; version = v }) ∷ rest.0,
      rest.1,
      rest.2 + 1,
    )
    else ((k, t) ∷ rest.0, rest.1, rest.2)

pub mark_node_unknown : Text → MirrorStore → Text → MirrorStore × ℕ
mark_node_unknown iso st node_id =
    let out = mark_tasks iso node_id st.tasks st.version_counter in
    (record st { tasks = out.0; version_counter = out.1 }, out.2)

abbrev pub threshold : ℕ → ℕ → NodeHeartbeatRecord → ℕ
threshold stale_ms degraded_stale_ms hb =
    if text_eq hb.state (text "degraded") then degraded_stale_ms else stale_ms

abbrev pub is_stale : ℕ → ℕ → ℕ → NodeHeartbeatRecord → Bool
is_stale stale_ms degraded_stale_ms now hb =
    ltb (threshold stale_ms degraded_stale_ms hb) (now - hb.last_seen_at)

abbrev pub lost : NodeHeartbeatRecord → NodeHeartbeatRecord
lost hb = record hb { unknown = true; consecutive_hbs = 0 }

-- The loop of `scanStaleNodes` over the heartbeats: those heartbeats, the store with its tasks
-- marked, and how many nodes are marked. The readings of the clock by the marking count as one.
pub scan_nodes :
    ℕ
    → ℕ
    → ℕ
    → Text
    → Map NodeHeartbeatRecord
    → MirrorStore
    → Map NodeHeartbeatRecord × MirrorStore × ℕ
scan_nodes stale_ms degraded_stale_ms now iso [] st = ([], st, 0)
scan_nodes stale_ms degraded_stale_ms now iso ((k, hb) ∷ m) st =
    let newly = not hb.unknown && is_stale stale_ms degraded_stale_ms now hb in
    let st' = if newly then (mark_node_unknown iso st k).0 else st in
    let rest = scan_nodes stale_ms degraded_stale_ms now iso m st' in
    if newly
    then ((k, lost hb) ∷ rest.0, rest.1, rest.2 + 1)
    else ((k, hb) ∷ rest.0, rest.1, rest.2)

pub scan_stale_nodes : MirrorStore → ℕ → ℕ → ℕ → Text → MirrorStore × ℕ
scan_stale_nodes st stale_ms degraded_stale_ms now iso =
    let out = scan_nodes stale_ms degraded_stale_ms now iso st.node_heartbeats st in
    (record out.1 { node_heartbeats = out.0 }, out.2)

pub cut_summary : Text → Text
cut_summary s = if ltb 500 (length s) then take 497 s ++ text "..." else s

abbrev pub inserted : Text → Moment → ReportedTask → ℕ → MirrorTask
inserted node_id now t version = record {
  task_id = t.task_id;
  node_id = node_id;
  title = t.title;
  status = t.status;
  summary = cut_summary t.summary;
  updated_at = t.updated_at;
  last_seen_at = now;
  first_seen_at = now;
  version = version;
}

abbrev pub updated : Moment → ReportedTask → ℕ → MirrorTask → MirrorTask
updated now t version old = record old {
  status = t.status;
  summary = cut_summary t.summary;
  title = t.title;
  updated_at = t.updated_at;
  last_seen_at = now;
  version = version;
}

abbrev pub is_changed : ReportedTask → MirrorTask → Bool
is_changed t old =
    not (status_eq old.status t.status)
    || not (text_eq old.summary (cut_summary t.summary))
    || not (text_eq old.title t.title)

-- The store with a task written under a key, and the counter set.
abbrev pub with_task : MirrorStore → Text → MirrorTask → ℕ → MirrorStore
with_task st key t version = record st { tasks = put st.tasks key t; version_counter = version }

-- What a reported task leads to, by what is found under its key.
pub mirror_entry :
    Text → Moment → MirrorStore → ReportedTask → Option MirrorTask → MirrorStore × Bool
mirror_entry node_id now st t none =
    let v = st.version_counter + 1 in
    (with_task st (build_key node_id t.task_id) (inserted node_id now t v) v, true)
mirror_entry node_id now st t (some old) =
    let v = st.version_counter + 1 in
    let key = build_key node_id t.task_id in
    if is_changed t old
    then (with_task st key (updated now t v old) v, true)
    else (with_task st key (record old { last_seen_at = now }) st.version_counter, false)

-- One turn of the loop of `mirror`, and whether it counts.
pub mirror_one : Text → Moment → MirrorStore → ReportedTask → MirrorStore × Bool
mirror_one node_id now st t =
    mirror_entry node_id now st t (get st.tasks (build_key node_id t.task_id))

pub mirror : Text → Moment → MirrorStore → List ReportedTask → MirrorStore × ℕ
mirror node_id now st [] = (st, 0)
mirror node_id now st (t ∷ ts) =
    let one = mirror_one node_id now st t in
    let rest = mirror node_id now one.0 ts in (rest.0, if one.1 then rest.1 + 1 else rest.1)

pub get_task : MirrorStore → Text → Text → Option MirrorTask
get_task st node_id task_id = get st.tasks (build_key node_id task_id)

pub get_active_by_node : MirrorStore → Text → List MirrorTask
get_active_by_node st node_id = keep_if (is_active_on node_id) (values st.tasks)

abbrev pub is_old : ℕ → ℕ → MirrorTask → Bool
is_old max_age_ms now t = is_terminal t.status && ltb max_age_ms (now - t.last_seen_at.ms)

-- The loop of `cleanup`: what it leaves, and how many it deletes.
pub clean_tasks : ℕ → ℕ → Map MirrorTask → Map MirrorTask × ℕ
clean_tasks max_age_ms now [] = ([], 0)
clean_tasks max_age_ms now ((k, t) ∷ m) =
    let rest = clean_tasks max_age_ms now m in
    if is_old max_age_ms now t then (rest.0, rest.1 + 1) else ((k, t) ∷ rest.0, rest.1)

pub cleanup : MirrorStore → ℕ → ℕ → MirrorStore × ℕ
cleanup st max_age_ms now =
    let out = clean_tasks max_age_ms now st.tasks in (record st { tasks = out.0 }, out.1)

abbrev pub on_node : Option Text → MirrorTask → Bool
on_node (some (c ∷ s)) t = text_eq t.node_id (c ∷ s)
on_node _ t = true

abbrev pub in_status : Option MirrorTaskStatus → MirrorTask → Bool
in_status none t = true
in_status (some s) t = status_eq s t.status

-- Unknown for more than an hour.
abbrev pub is_expired : ℕ → MirrorTask → Bool
is_expired now t = status_eq unknown t.status && ltb 3600000 (now - t.last_seen_at.ms)

-- `rank` orders the times of update as `localeCompare` does.
pub query :
    (Text → ℕ)
    → MirrorStore
    → Option Text
    → Option MirrorTaskStatus
    → ℕ
    → ℕ
    → ℕ
    → List MirrorTask × ℕ
query rank st node_id status limit offset now =
    let kept =
      keep_if (λ t. on_node node_id t && in_status status t && not (is_expired now t))
        (values st.tasks) in
    (take limit (drop offset (sort_desc (λ t. rank t.updated_at) kept)), length kept)
