-- ===== src/Tasks/Samples.antt =====
-- The controller on small runs, and its theorems at concrete inputs.
use tri_mc.Prelude.{◌≡◌, refl, ◌≢◌, ◌↔◌, none, some, List, [], ◌∷◌}
use tri_mc.Prelude.Text.{Text, text, trim, decimal, text_eq}
use tri_mc.Map.{get, put}
use tri_mc.Tasks.{
  Task, TaskStatus, TaskError, running, completed, failed, high, ok, err, empty, create_task,
  get_task, update_task_status, complete_task, fail_task, new_task, task_key, task_count,
}
use tri_mc.Tasks.Lifecycle.{Step, moved, update_accepts_iff, update_effect, reply_not_stored}
use tri_mc.Tasks.Fresh.{IsSound, create_fresh, empty-IsSound}
use tri_mc.Tasks.Runs.{
  Call, create, update, complete, clear, NoReset, complete_first, no_calls, perform, run, Evolves,
  run-IsSound, run-Evolves, terminal_frozen,
}

abbrev noon : Text
noon = text "2026-08-14T12:00:00.000Z"

abbrev later : Text
later = text "2026-08-14T12:05:00.000Z"

abbrev started : List Call
started = create noon (text " ship it ") high ∷ update noon (text "task_1") running ∷ []

abbrev shipped : Task
shipped = moved (new_task (text "task_1") (text "ship it") high noon) noon running

started_lem : get_task (run empty started) (text "task_1") ≡ some shipped
unfolding run perform create_task update_task_status get_task get put task_key decimal text text_eq
    trim
started_lem = refl

started-IsSound : IsSound (run empty started)
started-IsSound = run-IsSound started

update_effect_example :
    ((t : Task)
      → get_task (run empty started) (text "task_1") ≡ some t
      → Step t.status completed
      → let (c', r) = update_task_status (run empty started) later (text "task_1") completed in
        (r ≡ ok (moved t later completed))
        × (get_task c' (text "task_1") ≡ some (moved t later completed))
        × ((j : Text) → text "task_1" ≢ j → get_task c' j ≡ get_task (run empty started) j)
        × (c'.id_counter ≡ (run empty started).id_counter))
    × ((e : TaskError)
        → (update_task_status (run empty started) later (text "task_1") completed).1 ≡ err e
        → (update_task_status (run empty started) later (text "task_1") completed).0
          ≡ run empty started)
update_effect_example = update_effect (run empty started) later (text "task_1") completed

update_accepts_iff_example :
    ((r : Task) × ((update_task_status empty noon (text "task_1") running).1 ≡ ok r))
    ↔ ((t : Task) × (get_task empty (text "task_1") ≡ some t) × Step t.status running)
update_accepts_iff_example = update_accepts_iff empty noon (text "task_1") running

reply_not_stored_example :
    let (c', r) = complete_task (run empty started) later later (text "task_1") (text "done") in
    let (c'', r') = fail_task (run empty started) later later (text "task_1") (text "done") in
    (r
      ≡ ok (record shipped { status = completed; updated_at = later; result = some (text "done") }))
    × (get_task c' (text "task_1") ≡ some (moved shipped later completed))
    × (r' ≡ ok (record shipped { status = failed; updated_at = later; error = some (text "done") }))
    × (get_task c'' (text "task_1") ≡ some (moved shipped later failed))
reply_not_stored_example =
    reply_not_stored (run empty started) later later (text "task_1") (text "done") shipped
      started_lem refl

trim_ship : trim (text " ship it ") ≡ text "ship it"
unfolding trim text
trim_ship = refl

ship_not_blank : trim (text "ship") ≢ []
unfolding trim text
ship_not_blank e = cc e

create_fresh_example :
    let id = task_key 1 in
    let (c', r) = create_task empty noon (text "ship") high in
    (r ≡ ok (new_task id (text "ship") high noon))
    × (get_task empty id ≡ none)
    × (get_task c' id ≡ some (new_task id (text "ship") high noon))
    × ((j : Text) → id ≢ j → get_task c' j ≡ get_task empty j)
    × (c'.id_counter ≡ 1)
    × (task_count c' ≡ 1)
    × IsSound c'
unfolding task_count
create_fresh_example = create_fresh empty noon (text "ship") high empty-IsSound ship_not_blank

run-IsSound_example : IsSound (run empty started)
run-IsSound_example = run-IsSound started

abbrev shutdown : List Call
shutdown = complete later later (text "task_1") (text "ok") ∷ []

shutdown-NoReset : NoReset shutdown
shutdown-NoReset = complete_first later later (text "task_1") (text "ok") no_calls

run-Evolves_example :
    (NoReset shutdown
      → (u : Task) × (get_task (run (run empty started) shutdown) (text "task_1") ≡ some u)
        × Evolves shipped u)
    × (get_task (perform (run (run empty started) shutdown) clear) (text "task_1") ≡ none)
run-Evolves_example =
    run-Evolves (run empty started) shutdown (text "task_1") shipped started-IsSound started_lem

abbrev finished : List Call
finished = create noon (text "ship it") high ∷ update noon (text "task_1") TaskStatus.cancelled ∷ []

abbrev dropped : Task
dropped = moved (new_task (text "task_1") (text "ship it") high noon) noon TaskStatus.cancelled

dropped_lem : get_task (run empty finished) (text "task_1") ≡ some dropped
unfolding run perform create_task update_task_status get_task get put task_key decimal text text_eq
    trim
dropped_lem = refl

terminal_frozen_example :
    get_task (run (run empty finished) shutdown) (text "task_1") ≡ some dropped
terminal_frozen_example =
    terminal_frozen (run empty finished) shutdown (text "task_1") dropped (run-IsSound finished)
      dropped_lem refl shutdown-NoReset
