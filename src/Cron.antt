-- ===== src/Cron.antt =====
-- The cron service (src/cron/service.ts): the store of jobs, the recovery of stale runs, forced
-- runs and the status. A run loads the store and saves it in separate steps, and other calls may
-- come between; each other call counts as one step. The jobs and the functions on them are those of
-- agent-core, the record `Core` here; what its functions promise are the laws of `IsCore`.
pub mod WeekMath
pub mod Runs
pub mod Outcome
pub mod Failures
mod Samples
use tri_mc.Prelude.{
  ℕ, ◌+◌, ◌-◌, ◌≡◌, Bool, true, false, not, ◌&&◌, ◌||◌, Option, none, some, List, [], ◌∷◌, ◌++◌,
  if◌then◌else◌, ltb, leb, length, is_some, get_or,
}
use tri_mc.Prelude.Text.{Text, text}
use tri_mc.Map.{Map, get, put, remove, values}

pub record JobState : Type 0 where
  pub running_at : Option ℕ
  pub last_run_at : Option ℕ
  pub last_run_ok : Option Bool
  pub last_error : Option Text
  pub consecutive_errors : ℕ
  pub last_duration : Option ℕ
  pub run_count : ℕ
  pub next_run_at : Option ℕ

-- `build_job` takes whether the job is enabled; `patch_job_state` takes what the patch does to the fields that it names.
pub record Core (Job Create Patch : Type 0) : Type 0 where
  pub id_of : Job → Text
  pub is_enabled : Job → Bool
  pub created_at : Job → ℕ
  pub state_of : Job → JobState
  pub patch_job_state : Job → (JobState → JobState) → Job
  pub build_job : Create → Bool → Job
  pub apply_job_patch : Job → Patch → Job
  pub compute_next_run : Job → ℕ → Option ℕ

-- A patch of the state changes the state alone.
pub record IsCore {Job Create Patch : Type 0} (core : Core Job Create Patch) : Type 0 where
  pub state-patch :
      (j : Job) (f : JobState → JobState)
      → core.state_of (core.patch_job_state j f) ≡ f (core.state_of j)
  pub id-patch :
      (j : Job) (f : JobState → JobState) → core.id_of (core.patch_job_state j f) ≡ core.id_of j
  pub enabled-patch :
      (j : Job) (f : JobState → JobState)
      → core.is_enabled (core.patch_job_state j f) ≡ core.is_enabled j

-- The stored jobs, whether the executor runs, and how often it was told to look at the store again.
pub record Service (Job : Type 0) : Type 0 where
  pub jobs : Map Job
  pub is_running : Bool
  pub ticks : ℕ

-- What other calls do to the service while a run waits: between the load of the jobs and the save
-- that marks its own, while the handler runs, and between the second load and the second save.
pub record Others (Job : Type 0) : Type 0 where
  pub until_marked : Service Job → Service Job
  pub during : Service Job → Service Job
  pub until_recorded : Service Job → Service Job

-- No other calls.
abbrev pub quiet : {Job : Type 0} → Others Job
quiet = record { until_marked = λ s. s; during = λ s. s; until_recorded = λ s. s }

pub data RunReason : Type 0 where
  not_found disabled already_running : RunReason
  deleted_during_run : Bool → RunReason
  status_ok : RunReason
  failed : Text → RunReason

-- `enabled` may be left out; the rest is that of agent-core.
pub record CronJobCreate (Create : Type 0) : Type 0 where
  pub enabled : Option Bool
  pub rest : Create

pub record CronRunResult : Type 0 where
  pub ok : Bool
  pub ran : Bool
  pub reason : RunReason
  pub job_id : Option Text

abbrev pub degraded_threshold : ℕ
degraded_threshold = 3

pub record CronStatus : Type 0 where
  pub running : Bool
  pub degraded : Bool
  pub consecutive_failures : ℕ
  pub job_count : ℕ

module _ {Job Create Patch : Type 0} (core : Core Job Create Patch) where
  abbrev clear_running : JobState → JobState
  clear_running s = record s { running_at = none }

  -- The loop over the jobs that the store had; each write goes to the job's own identifier.
  unfoldable pub recover : List Job → Map Job → Map Job
  recover [] jobs = jobs
  recover (job ∷ rest) jobs = recover rest (
      if is_some (core.state_of job).running_at
      then put jobs (core.id_of job) (core.patch_job_state job clear_running)
      else jobs)

  unfoldable pub start : Service Job → Service Job
  unfolding recover
  start s =
      if s.is_running
      then s
      else record s { jobs = recover (values s.jobs) s.jobs; is_running = true }

  pub stop : Service Job → Service Job
  stop s = record s { is_running = false }

  abbrev saved : Service Job → Map Job → Service Job
  saved s jobs = record s { jobs = jobs; ticks = s.ticks + 1 }

  pub add_job : CronJobCreate Create → Service Job → Job × Service Job
  add_job input s =
      let job = core.build_job input.rest (get_or input.enabled true) in
      (job, saved s (put s.jobs (core.id_of job) job))

  insert_by_age : Job → List Job → List Job
  insert_by_age j [] = j ∷ []
  insert_by_age j (k ∷ ks) =
      let rest = insert_by_age j ks in
      if leb (core.created_at j) (core.created_at k) then j ∷ k ∷ ks else k ∷ rest

  -- The oldest first; jobs of the same age stay in their order.
  sort_by_age : List Job → List Job
  unfolding insert_by_age
  sort_by_age [] = []
  sort_by_age (j ∷ js) = insert_by_age j (sort_by_age js)

  pub list_jobs : Service Job → List Job
  unfolding sort_by_age
  list_jobs s = sort_by_age (values s.jobs)

  pub get_job : Text → Service Job → Option Job
  get_job id s = get s.jobs id

  abbrev patch_found : Text → Patch → Service Job → Option Job → Option Job × Service Job
  patch_found id patch s none = (none, s)
  patch_found id patch s (some job) =
      let job' = core.apply_job_patch job patch in (some job', saved s (put s.jobs id job'))

  pub update_job : Text → Patch → Service Job → Option Job × Service Job
  update_job id patch s = patch_found id patch s (get s.jobs id)

  pub remove_job : Text → Service Job → Bool × Service Job
  remove_job id s =
      if is_some (get s.jobs id) then (true, saved s (remove s.jobs id)) else (false, s)

  abbrev refuse : Bool → RunReason → CronRunResult
  refuse ok reason = record { ok = ok; ran = false; reason = reason; job_id = none }

  abbrev mark_running : ℕ → JobState → JobState
  mark_running now st = record st { running_at = some now; last_run_at = some now }

  -- The first half of a run, on the jobs that it has loaded: a refusal, or the job that the handler
  -- gets and the jobs that are to be saved before that.
  pub data Begun : Type 0 where
    refused : CronRunResult → Begun
    begun : Job → Map Job → Begun

  abbrev begin_found : Text → Bool → ℕ → Map Job → Option Job → Begun
  begin_found id force now jobs none = refused (refuse false not_found)
  begin_found id force now jobs (some job) =
      if not force && not (core.is_enabled job)
      then refused (refuse true disabled)
      else if is_some (core.state_of job).running_at
      then refused (refuse true already_running)
      else begun job (put jobs id (core.patch_job_state job (mark_running now)))

  unfoldable pub begin_run : Text → Bool → ℕ → Map Job → Begun
  begin_run id force now jobs = begin_found id force now jobs (get jobs id)

  -- The clock is taken not to go back during a run.
  -- What the handler came to: none for success, else the message of the error that it threw.
  abbrev record_run : Option Text → ℕ → ℕ → Option ℕ → JobState → JobState
  record_run error started ended next st = record st {
    running_at = none;
    last_run_ok = some (not (is_some error));
    last_error = error;
    consecutive_errors = if is_some error then st.consecutive_errors + 1 else 0;
    last_duration = some (ended - started);
    run_count = st.run_count + 1;
    next_run_at = next;
  }

  abbrev reason_of : Option Text → RunReason
  reason_of none = status_ok
  reason_of (some message) = failed message

  abbrev end_found :
      Text
      → Option Text
      → ℕ
      → ℕ
      → (Service Job → Service Job)
      → Service Job
      → Option Job
      → CronRunResult × Service Job
  end_found id error started ended meanwhile s none = (
    record {
      ok = true;
      ran = true;
      reason = deleted_during_run (not (is_some error));
      job_id = none;
    },
    s,
  )
  end_found id error started ended meanwhile s (some fresh) = (
    record { ok = true; ran = true; reason = reason_of error; job_id = some id },
    saved (meanwhile s) (
        put s.jobs id (
          core.patch_job_state fresh
            (record_run error started ended (core.compute_next_run fresh ended)))),
  )

  -- The second half, on the store as it is when the handler has ended; `meanwhile` is what other
  -- calls do between its load and its save, which writes the jobs that were loaded.
  unfoldable pub end_run :
      Text
      → Option Text
      → ℕ
      → ℕ
      → (Service Job → Service Job)
      → Service Job
      → CronRunResult × Service Job
  end_run id error started ended meanwhile s =
      end_found id error started ended meanwhile s (get s.jobs id)

  abbrev ended :
      Text → Option Text → ℕ → ℕ → Others Job → Service Job → Begun → CronRunResult × Service Job
  ended id error started end_at others s (refused r) = (r, s)
  ended id error started end_at others s (begun job jobs) =
      end_run id error started end_at others.until_recorded
        (others.during (record (others.until_marked s) { jobs = jobs }))

  -- A whole run, with what other calls do at its three waits.
  unfoldable pub run_job :
      Text → Bool → Option Text → ℕ → ℕ → Others Job → Service Job → CronRunResult × Service Job
  unfolding begin_run end_run
  run_job id force error started end_at others s =
      ended id error started end_at others s (begin_run id force started s.jobs)

  -- The loop for the maximum.
  unfoldable pub most_errors : List Job → ℕ → ℕ
  most_errors [] most = most
  most_errors (job ∷ rest) most = most_errors rest (
      if ltb most (core.state_of job).consecutive_errors
      then (core.state_of job).consecutive_errors
      else most)

  pub get_status : Service Job → CronStatus
  unfolding most_errors
  get_status s =
      let failures = most_errors (values s.jobs) 0 in
      record {
        running = s.is_running;
        degraded = leb degraded_threshold failures;
        consecutive_failures = failures;
        job_count = length (values s.jobs);
      }
