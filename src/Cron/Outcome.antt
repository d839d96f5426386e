-- ===== src/Cron/Outcome.antt =====
-- One run of a job: what it comes to, and when a second run of the job starts beside it.
use tri_mc.Prelude.{
  ℕ, ◌+◌, ◌-◌, ◌≡◌, ◌≢◌, refl, ap, ◌∙◌, Bool, true, false, not, ◌&&◌, Option, none, some, is_some,
}
use tri_mc.Prelude.Text.{Text}
use tri_mc.Map.{Map, get, put, get-put_self, get-put_ne}
use tri_mc.Cron.{
  Core, IsCore, Service, Others, quiet, status_ok, failed, refused, begun, begin_run, mark_running,
  refuse, not_found, disabled, already_running, end_run, deleted_during_run, run_job, record_run,
}

module _ {Job Create Patch : Type 0} (core : Core Job Create Patch) where
  -- A job that may run: it is stored, it is not running, and it is enabled or the run is forced.
  pub record MayRun (id : Text) (force : Bool) (jobs : Map Job) (job : Job) : Type 0 where
    pub stored : get jobs id ≡ some job
    pub allowed : (not force && not (core.is_enabled job)) ≡ false
    pub free : (core.state_of job).running_at ≡ none

  unfoldable pub marked : Text → ℕ → Map Job → Job → Map Job
  marked id now jobs job = put jobs id (core.patch_job_state job (mark_running core now))

  -- The entry of a job after a run that began at `started` and ended at `ended`, from what the entry
  -- was when the handler had ended.
  pub record Recorded (error : Option Text) (started ended : ℕ) (fresh j : Job) : Type 0 where
    pub not_running : (core.state_of j).running_at ≡ none
    pub outcome : (core.state_of j).last_run_ok ≡ some (not (is_some error))
    pub message : (core.state_of j).last_error ≡ error
    pub success : error ≡ none → (core.state_of j).consecutive_errors ≡ 0
    pub failure :
        (m : Text)
        → error ≡ some m
        → (core.state_of j).consecutive_errors ≡ (core.state_of fresh).consecutive_errors + 1
    pub counted : (core.state_of j).run_count ≡ (core.state_of fresh).run_count + 1
    pub duration : (core.state_of j).last_duration ≡ some (ended - started)
    pub next : (core.state_of j).next_run_at ≡ core.compute_next_run fresh ended
    pub start_kept : (core.state_of j).last_run_at ≡ (core.state_of fresh).last_run_at

module _ {Job Create Patch : Type 0} (core : Core Job Create Patch) (laws : IsCore core) where
  begin_run-MayRun :
      (id : Text) (force : Bool) (now : ℕ) (jobs : Map Job) (job : Job)
      → MayRun core id force jobs job
      → begin_run core id force now jobs ≡ begun job (marked core id now jobs job)
  unfolding begin_run marked
  begin_run-MayRun id force now jobs job m = rw (m.stored, m.allowed, m.free) refl

  recorded :
      (error : Option Text) (started ended : ℕ) (fresh : Job)
      → Recorded core error started ended fresh (
          core.patch_job_state fresh
            (record_run core error started ended (core.compute_next_run fresh ended)))
  recorded error started ended fresh =
      let f = record_run core error started ended (core.compute_next_run fresh ended) in
      let state = laws.state-patch fresh f in
      record {
        not_running = rw state refl;
        outcome = rw state refl;
        message = rw state refl;
        success = λ e. rw (state, e) refl;
        failure = λ m e. rw (state, e) refl;
        counted = rw state refl;
        duration = rw state refl;
        next = rw state refl;
        start_kept = rw state refl;
      }

  -- What a run comes to, whatever other calls do to the service at its three waits: one that may not
  -- begin changes nothing and says why; one whose job is gone when the handler has ended says so and
  -- leaves the service as those calls have left it; any other answers with the job and with the
  -- outcome, and saves the entry of the job as it was then, with its end on it: the job does not
  -- run, its errors in a row are counted on or start at nothing, and its runs are one more. Every
  -- other entry is what it was when the handler had ended.
  pub run_job_records :
      (id : Text) (force : Bool) (error : Option Text) (started ended : ℕ) (others : Others Job)
      (s : Service Job)
      → let r = run_job core id force error started ended others s in
        (get s.jobs id ≡ none → r ≡ (refuse core false not_found, s))
        × ((job : Job)
            → get s.jobs id ≡ some job
            → ((not force && not (core.is_enabled job)) ≡ true → r ≡ (refuse core true disabled, s))
              × ((not force && not (core.is_enabled job)) ≡ false
                  → is_some (core.state_of job).running_at ≡ true
                  → r ≡ (refuse core true already_running, s))
              × (MayRun core id force s.jobs job
                  → let middle = others.during (record (others.until_marked s) {
                    jobs = marked core id started s.jobs job;
                  }) in
                    (get middle.jobs id ≡ none
                      → (r.0.ran ≡ true)
                        × (r.0.reason ≡ deleted_during_run (not (is_some error)))
                        × (r.1 ≡ middle))
                    × ((fresh : Job)
                        → get middle.jobs id ≡ some fresh
                        → (r.0.ran ≡ true)
                          × (r.0.job_id ≡ some id)
                          × (error ≡ none → r.0.reason ≡ status_ok)
                          × ((m : Text) → error ≡ some m → r.0.reason ≡ failed m)
                          × ((j : Job) × (get r.1.jobs id ≡ some j)
                              × Recorded core error started ended fresh j)
                          × ((k : Text) → id ≢ k → get r.1.jobs k ≡ get middle.jobs k))))
  unfolding run_job
  run_job_records id force error started ended others s = (
    λ e. (unfold begin_run in rw e refl),
    λ job e. (
      λ d. (unfold begin_run in rw (e, d) refl),
      λ d r. (unfold begin_run in rw (e, d, r) refl),
      λ may. rw (begin_run-MayRun id force started s.jobs job may) (
        λ gone. (unfold end_run in rw gone (refl, refl, refl)),
        λ fresh there.
            (unfold end_run in
              rw there (
                refl,
                refl,
                λ q. rw q refl,
                λ m q. rw q refl,
                (_, get-put_self _ id _, recorded error started ended fresh),
                λ k ne. get-put_ne _ id k _ ne,
              )),
      ),
    ),
  )

  -- The job while it runs, and the end of a run with no other calls while its handler runs.
  -- The end of a run with no other calls from its mark on.
  pub run_MayRun :
      (id : Text) (force : Bool) (error : Option Text) (started ended : ℕ)
      (first : Service Job → Service Job) (s : Service Job) (job : Job)
      → MayRun core id force s.jobs job
      → let r =
          run_job core id force error started ended
            (record { until_marked = first; during = λ x. x; until_recorded = λ x. x })
            s in
        (r.0.ran ≡ true)
        × ((j : Job) × (get r.1.jobs id ≡ some j)
            × Recorded core error started ended
                (core.patch_job_state job (mark_running core started))
                j)
  unfolding marked
  run_MayRun id force error started ended first s job may =
      let others : Others Job = record {
        until_marked = first;
        during = λ x. x;
        until_recorded = λ x. x;
      } in
      let all = run_job_records id force error started ended others s in
      let new = core.patch_job_state job (mark_running core started) in
      let (ran, named, good, bad, entry, rest) =
        ((all.1 job may.stored).2 may).1 new (get-put_self s.jobs id new) in
      (ran, entry)

  -- While a job runs, a run of it that loads the store after the mark of the first was saved, as
  -- long as its entry stays, is refused, a forced one too. Before that nothing stops it: when a
  -- second run comes between the load and the save of a first one, both call the handler, and the
  -- entry afterwards counts one run of the two.
  pub single_instance :
      (id : Text) (force : Bool) (s : Service Job) (job : Job)
      → MayRun core id force s.jobs job
      → ((now : ℕ) (jobs' : Map Job)
          → get jobs' id ≡ get (marked core id now s.jobs job) id
          → (now' : ℕ)
          → begin_run core id true now' jobs' ≡ refused (refuse core true already_running))
        × ((error error' : Option Text) (started ended started' ended' : ℕ)
            → let second = run_job core id force error' started' ended' quiet in
              let first =
                run_job core id force error started ended
                  (record {
                    until_marked = λ x. (second x).1;
                    during = λ x. x;
                    until_recorded = λ x. x;
                  })
                  s in
              ((second s).0.ran ≡ true)
              × (first.0.ran ≡ true)
              × ((j : Job) × (get first.1.jobs id ≡ some j)
                  × ((core.state_of j).run_count ≡ (core.state_of job).run_count + 1)))
  single_instance id force s job m = (
    λ now jobs' same now'.
        let new = core.patch_job_state job (mark_running core now) in
        let there : get jobs' id ≡ some new =
          same ∙ (unfold marked in get-put_self s.jobs id new) in
        let running : (core.state_of new).running_at ≡ some now =
          ap (λ st. st.running_at) (laws.state-patch job (mark_running core now)) in
        unfold begin_run in rw (there, running) refl,
    λ error error' started ended started' ended'.
        let (ran, entry) = run_MayRun id force error' started' ended' (λ x. x) s job m in
        let second : Service Job → Service Job =
          λ x. (run_job core id force error' started' ended' quiet x).1 in
        let (ran1, entry1) = run_MayRun id force error started ended second s job m in
        let (j, stored, r) = entry1 in
        let same : (core.state_of (core.patch_job_state job (mark_running core started))).run_count
            ≡ (core.state_of job).run_count =
          ap (λ st. st.run_count) (laws.state-patch job (mark_running core started)) in
        (ran, ran1, (j, stored, r.counted ∙ ap (λ n. n + 1) same)),
  )
