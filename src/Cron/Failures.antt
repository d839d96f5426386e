-- ===== src/Cron/Failures.antt =====
-- How runs that fail show in the status.
use tri_mc.Prelude.{
  ℕ, ◌+◌, ◌≤◌, ◌≡◌, ◌≢◌, refl, sym, ap, subst, ◌↔◌, ◌⊎◌, inl, inr, true, none, some, List, [], ◌∷◌,
  if◌then◌else◌, ltb, leb, arith, Bool-cases, In, length,
}
use tri_mc.Prelude.Text.{Text}
use tri_mc.Map.{get, values, In-values_of_get}
use tri_mc.Cron.{
  Core, IsCore, Service, quiet, mark_running, run_job, most_errors, get_status, degraded_threshold,
}
use tri_mc.Cron.Outcome.{MayRun, run_MayRun}

module _ {Job Create Patch : Type 0} (core : Core Job Create Patch) where
  -- One forced run that fails, with nothing else going on: its message, its start and its end.
  pub fail_once : Text → Text × ℕ × ℕ → Service Job → Service Job
  fail_once id (message, started, ended) s =
      (run_job core id true (some message) started ended quiet s).1

  unfoldable pub fail_often : Text → List (Text × ℕ × ℕ) → Service Job → Service Job
  fail_often id [] s = s
  fail_often id (f ∷ fs) s = fail_often id fs (fail_once id f s)

module _ {Job Create Patch : Type 0} (core : Core Job Create Patch) (laws : IsCore core) where
  most_errors-ge :
      (js : List Job) (m : ℕ)
      → (m ≤ most_errors core js m)
        × ((j : Job) → In j js → (core.state_of j).consecutive_errors ≤ most_errors core js m)
  unfolding most_errors
  most_errors-ge [] m = (omega arith, λ j i. elim i [ ])
  most_errors-ge (k ∷ ks) m =
      let n =
        (if ltb m (core.state_of k).consecutive_errors
          then (core.state_of k).consecutive_errors
          else m) in
      let (up, all) = most_errors-ge ks n in
      let le : m ≤ n = ground arith in
      let ge : (core.state_of k).consecutive_errors ≤ n = ground arith in
      (omega arith, λ j i. elim i [ inl e ↦ rw e (omega arith) | inr i' ↦ all j i' ])

  most_errors-found :
      (js : List Job) (m : ℕ)
      → (most_errors core js m ≡ m)
        ⊎ ((j : Job) × In j js × ((core.state_of j).consecutive_errors ≡ most_errors core js m))
  unfolding most_errors
  most_errors-found [] m = inl refl
  most_errors-found (k ∷ ks) m = elim (Bool-cases (ltb m (core.state_of k).consecutive_errors)) [
    | inl e ↦ rw e (elim (most_errors-found ks (core.state_of k).consecutive_errors) [
      | inl q ↦ inr (k, inl refl, sym q)
      | inr (j, i, q) ↦ inr (j, inr i, q)
    ])
    | inr e ↦
        rw e (elim (most_errors-found ks m) [ inl q ↦ inl q | inr (j, i, q) ↦ inr (j, inr i, q) ])
  ]

  -- A service is degraded exactly when one of its jobs has failed three times in a row or more.
  degraded_iff :
      (s : Service Job)
      → ((get_status core s).degraded ≡ true)
        ↔ ((j : Job) × In j (values s.jobs) × (3 ≤ (core.state_of j).consecutive_errors))
  unfolding get_status
  degraded_iff s = (
    λ h. elim (most_errors-found (values s.jobs) 0) [
      | inl e ↦ (let none_failed = most_errors-ge (values s.jobs) 0 in absurd (too_few _ h e))
      | inr (j, i, e) ↦ (j, i, reached _ _ h e)
    ],
    λ (j, i, le). (let (up, all) = most_errors-ge (values s.jobs) 0 in enough _ _ le (all j i)),
  )
    where
      too_few : (n : ℕ) → leb degraded_threshold n ≡ true → n ≢ 0
      too_few n h e = ground arith

      reached : (m n : ℕ) → leb degraded_threshold n ≡ true → m ≡ n → 3 ≤ m
      reached m n h e = ground arith

      enough : (m n : ℕ) → 3 ≤ m → m ≤ n → leb degraded_threshold n ≡ true
      enough m n a b = ground arith

  Failed : Text → ℕ → Service Job → Type 0
  Failed id n s =
      (j : Job) × (get s.jobs id ≡ some j)
      × ((core.state_of j).running_at ≡ none)
      × (n ≤ (core.state_of j).consecutive_errors)

  fail_once-Failed :
      (id : Text) (f : Text × ℕ × ℕ) (n : ℕ) (s : Service Job)
      → Failed id n s
      → Failed id (n + 1) (fail_once core id f s)
  unfolding fail_once Failed
  fail_once-Failed id f n s (job, there, free, le) =
      let (message, started, ended) = f in
      let may : MayRun core id true s.jobs job = record {
        stored = there;
        allowed = refl;
        free = free;
      } in
      let new = core.patch_job_state job (mark_running core started) in
      let (ran, entry) =
        run_MayRun core laws id true (some message) started ended (λ x. x) s job may in
      let (j, stored, r) = entry in
      let counted : (core.state_of new).consecutive_errors
          ≡ (core.state_of job).consecutive_errors =
        ap (λ st. st.consecutive_errors) (laws.state-patch job (mark_running core started)) in
      (j, stored, r.not_running, rw (r.failure message refl, counted) (omega arith))

  fail_often-Failed :
      (id : Text) (fs : List (Text × ℕ × ℕ)) (n : ℕ) (s : Service Job)
      → Failed id n s
      → Failed id (n + length fs) (fail_often core id fs s)
  unfolding fail_often
  fail_often-Failed id [] n s h = subst (λ k. Failed id k s) (omega arith) h
  fail_often-Failed id (f ∷ fs) n s h =
      subst (λ k. Failed id k (fail_often core id fs (fail_once core id f s))) (omega arith)
        (fail_often-Failed id fs (n + 1) (fail_once core id f s) (fail_once-Failed id f n s h))

  -- A job that does not run and whose forced runs fail three times or more in a row makes the
  -- status degraded, whatever the messages and the times; and the status is degraded only by a job
  -- with three failures in a row.
  pub failures_degrade :
      (id : Text) (fs : List (Text × ℕ × ℕ)) (s : Service Job) (job : Job)
      → get s.jobs id ≡ some job
      → (core.state_of job).running_at ≡ none
      → 3 ≤ length fs
      → ((get_status core (fail_often core id fs s)).degraded ≡ true)
        × ((s' : Service Job)
            → (get_status core s').degraded ≡ true
            → (j : Job) × In j (values s'.jobs) × (3 ≤ (core.state_of j).consecutive_errors))
  unfolding Failed
  failures_degrade id fs s job there free long =
      let start : Failed id 0 s = (job, there, free, omega arith) in
      (
        degraded_after (fail_often core id fs s) (fail_often-Failed id fs 0 s start),
        λ s'. (degraded_iff s').0,
      )
    where
      degraded_after :
          (s' : Service Job) → Failed id (0 + length fs) s' → (get_status core s').degraded ≡ true
      degraded_after s' (j, stored, free', le) =
          (degraded_iff s').1 (j, In-values_of_get s'.jobs id j stored, omega arith)
