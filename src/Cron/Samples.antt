-- ===== src/Cron/Samples.antt =====
-- A small core of jobs, and a concrete run for each theorem of the cron service.
use tri_mc.Prelude.{
  ℕ, ◌+◌, ◌-◌, ◌%◌, ◌≤◌, ◌≡◌, ◌≢◌, refl, Option, Bool, true, false, not, ◌&&◌, none, some, List, [],
  ◌∷◌, is_some, arith, In, Bool-cases, inl, inr, ap, sym, ◌∙◌,
}
use tri_mc.Prelude.Text.{Text, text, text_eq, text_eq_iff, text-ne, decimal}
use tri_mc.Map.{Map, get, put, values}
use tri_mc.Cron.{
  JobState, Core, IsCore, Service, start, refused, begun, begin_run, refuse, already_running,
  CronRunResult, run_job, get_status, not_found, disabled, deleted_during_run, status_ok, failed,
  Others, quiet,
}
use tri_mc.Cron.WeekMath.{
  year_of, year_start, monday_after, iso_week_of, format_iso_week, format_date,
  compute_week_shift_tokens,
}
use tri_mc.Cron.WeekMath.Weeks.{compute_week_shift_tokens-weeks}
use tri_mc.Cron.Runs.{IsKept, start_recovers}
use tri_mc.Cron.Outcome.{MayRun, marked, single_instance, Recorded, run_job_records}
use tri_mc.Cron.Failures.{fail_often, failures_degrade}

pub record Job : Type 0 where
  pub name : Text
  pub enabled : Bool
  pub state : JobState

abbrev idle : JobState
idle = record {
  running_at = none;
  last_run_at = none;
  last_run_ok = none;
  last_error = none;
  consecutive_errors = 0;
  last_duration = none;
  run_count = 0;
  next_run_at = none;
}

abbrev core : Core Job Text Bool
core = record {
  id_of = λ j. j.name;
  is_enabled = λ j. j.enabled;
  created_at = λ j. 0;
  state_of = λ j. j.state;
  patch_job_state = λ j f. record j { state = f j.state };
  build_job = λ name enabled. record { name = name; enabled = enabled; state = idle };
  apply_job_patch = λ j enabled. record j { enabled = enabled };
  compute_next_run = λ j now. some (now + 60);
}

laws : IsCore core
laws = record { state-patch = λ j f. refl; id-patch = λ j f. refl; enabled-patch = λ j f. refl }

abbrev backup : Job
backup = record { name = text "backup"; enabled = true; state = idle }

abbrev crashed : Job
crashed = record { name = text "sync"; enabled = true; state = record idle { running_at = some 7 } }

abbrev service : Service Job
service = record {
  jobs = (text "backup", backup) ∷ (text "sync", crashed) ∷ [];
  is_running = false;
  ticks = 0;
}

backup_stored : get service.jobs (text "backup") ≡ some backup
unfolding get text text_eq
backup_stored = refl

backup_may : MayRun core (text "backup") true service.jobs backup
backup_may = record { stored = backup_stored; allowed = refl; free = refl }

abbrev AllOwn : Map Job → Type 0
AllOwn [] = Unit
AllOwn ((k, j) ∷ m) = (j.name ≡ k) × AllOwn m

stored_own : (m : Map Job) → AllOwn m → (k : Text) (j : Job) → get m k ≡ some j → j.name ≡ k
unfolding get
stored_own [] a k j e = cc e
stored_own ((q, i) ∷ m) (o, a) k j e = elim (Bool-cases (text_eq q k)) [
  | inl t ↦
      (let q' : some i ≡ some j = rw t at e in
        let one : i ≡ j = cc q' in ap (λ x. x.name) (sym one) ∙ o ∙ (text_eq_iff q k).0 t)
  | inr t ↦ stored_own m a k j (rw t at e)
]

service-IsKept : IsKept core service.jobs
unfolding text text_eq
service-IsKept = record {
  distinct = ((text-ne _ _ refl, tt), (tt, tt));
  own = stored_own service.jobs (refl, (refl, tt));
}

start_recovers_example :
    ((k : Text) → get service.jobs k ≡ none → get (start core service).jobs k ≡ none)
    × ((k : Text) (j : Job)
        → get service.jobs k ≡ some j
        → ((j' : Job) × (get (start core service).jobs k ≡ some j')
            × (j'.state.running_at ≡ none)
            × (j.state.running_at ≡ none → j' ≡ j))
          × ((now : ℕ)
              → (j' : Job) × (jobs' : Map Job) × (begin_run core k true now
                    (start core service).jobs
                  ≡ begun j' jobs')))
start_recovers_example = start_recovers core laws service refl service-IsKept

single_instance_example :
    ((now : ℕ) (jobs' : Map Job)
      → get jobs' (text "backup")
        ≡ get (marked core (text "backup") now service.jobs backup) (text "backup")
      → (now' : ℕ)
      → begin_run core (text "backup") true now' jobs' ≡ refused (refuse core true already_running))
    × ((error error' : Option Text) (started ended started' ended' : ℕ)
        → let second = run_job core (text "backup") true error' started' ended' quiet in
          let first =
            run_job core
              (text "backup")
              true
              error
              started
              ended
              (record {
                until_marked = λ x. (second x).1;
                during = λ x. x;
                until_recorded = λ x. x;
              })
              service in
          ((second service).0.ran ≡ true)
          × (first.0.ran ≡ true)
          × ((j : Job) × (get first.1.jobs (text "backup") ≡ some j)
              × (j.state.run_count ≡ backup.state.run_count + 1)))
single_instance_example = single_instance core laws (text "backup") true service backup backup_may

-- Another call adds a job while the handler runs.
abbrev adding : Others Job
adding = record {
  until_marked = λ s. s;
  during = λ s. record s { jobs = put s.jobs (text "new") backup };
  until_recorded = λ s. s;
}

abbrev failing_run : CronRunResult × Service Job
failing_run = run_job core (text "backup") true (some (text "exit code 1")) 10 14 adding service

run_job_records_example :
    (get service.jobs (text "backup") ≡ none → failing_run ≡ (refuse core false not_found, service))
    × ((job : Job)
        → get service.jobs (text "backup") ≡ some job
        → ((not true && not job.enabled) ≡ true
            → failing_run ≡ (refuse core true disabled, service))
          × ((not true && not job.enabled) ≡ false
              → is_some job.state.running_at ≡ true
              → failing_run ≡ (refuse core true already_running, service))
          × (MayRun core (text "backup") true service.jobs job
              → let middle =
                  adding.during
                    (record service { jobs = marked core (text "backup") 10 service.jobs job }) in
                (get middle.jobs (text "backup") ≡ none
                  → (failing_run.0.ran ≡ true)
                    × (failing_run.0.reason ≡ deleted_during_run false)
                    × (failing_run.1 ≡ middle))
                × ((fresh : Job)
                    → get middle.jobs (text "backup") ≡ some fresh
                    → (failing_run.0.ran ≡ true)
                      × (failing_run.0.job_id ≡ some (text "backup"))
                      × (some (text "exit code 1") ≡ none → failing_run.0.reason ≡ status_ok)
                      × ((m : Text)
                          → some (text "exit code 1") ≡ some m
                          → failing_run.0.reason ≡ failed m)
                      × ((j : Job) × (get failing_run.1.jobs (text "backup") ≡ some j)
                          × Recorded core (some (text "exit code 1")) 10 14 fresh j)
                      × ((k : Text)
                          → text "backup" ≢ k
                          → get failing_run.1.jobs k ≡ get middle.jobs k))))
run_job_records_example =
    run_job_records core laws (text "backup") true (some (text "exit code 1")) 10 14 adding service

abbrev failures : List (Text × ℕ × ℕ)
failures = (text "a", 10, 11) ∷ (text "b", 20, 21) ∷ (text "c", 30, 31) ∷ []

failures_degrade_example :
    ((get_status core (fail_often core (text "backup") failures service)).degraded ≡ true)
    × ((s' : Service Job)
        → (get_status core s').degraded ≡ true
        → (j : Job) × In j (values s'.jobs) × (3 ≤ j.state.consecutive_errors))
failures_degrade_example =
    failures_degrade core laws (text "backup") failures service backup backup_stored refl
      (omega arith)

-- Sunday, 16 August 2026.
abbrev a_sunday : ℕ
a_sunday = 593746

tokens_then :
    compute_week_shift_tokens a_sunday
    ≡ record { from_week = text "W33"; to_week = text "W34"; start_date = text "2026-08-17" }
unfolding compute_week_shift_tokens format_iso_week format_date iso_week_of text decimal year_start
    year_of
tokens_then = refl

compute_week_shift_tokens-weeks_example :
    let monday = monday_after a_sunday in
    let tokens = compute_week_shift_tokens a_sunday in
    (monday % 7 ≡ 0)
    × (monday ≤ a_sunday + 1)
    × (a_sunday + 1 ≤ monday + 6)
    × (tokens.start_date ≡ format_date monday)
    × (tokens.to_week ≡ format_iso_week (iso_week_of (a_sunday + 1)))
    × (tokens.from_week ≡ format_iso_week (iso_week_of (a_sunday + 1 - 7)))
    × (1 ≤ iso_week_of (a_sunday + 1))
    × (iso_week_of (a_sunday + 1) ≤ 53)
compute_week_shift_tokens-weeks_example = compute_week_shift_tokens-weeks a_sunday (omega arith)
