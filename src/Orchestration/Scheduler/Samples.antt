-- ===== src/Orchestration/Scheduler/Samples.antt =====
-- The scheduler's theorems at concrete records.
use tri_mc.Prelude.{◌+◌, ◌≡◌, ◌≢◌, none, List, [], ◌∷◌}
use tri_mc.Prelude.Text.{text}
use tri_mc.Orchestration.{TaskRecord, queued, assigned, running}
use tri_mc.Orchestration.Samples.{ada, task, noon}
use tri_mc.Orchestration.Scheduler.{success, escalate, default_config}
use tri_mc.Orchestration.Scheduler.Runs.{Same, Call, move, give, run, escalated_unowned}

abbrev second_try : List Call
second_try = move noon assigned none ∷ give noon ada [] default_config ∷ []

escalated_unowned_example :
    let t = task running in
    let up = escalate noon t (text "stuck") in
    Same t (run t second_try)
    × ((u : TaskRecord)
        → up ≡ success u
        → (u.retry_count ≡ t.retry_count + 1)
          × ((run u second_try).assigned_to ≡ none)
          × ((run u second_try).state ≢ queued))
escalated_unowned_example = escalated_unowned (task running) noon (text "stuck") second_try
