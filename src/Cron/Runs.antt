-- ===== src/Cron/Runs.antt =====
-- What the recovery at the start comes to, for the jobs and for forced runs after it.
use tri_mc.Prelude.{
  ℕ, ◌≡◌, ◌≢◌, refl, ap, ◌∙◌, ◌⊎◌, inl, inr, Bool, true, false, Option, none, some, [], ◌∷◌,
  if◌then◌else◌, is_some, Bool-cases, Option-cases,
}
use tri_mc.Prelude.Text.{Text, text_eq, text_eq-cases, text_eq_refl}
use tri_mc.Map.{Map, get, put, values, get-put, IsDistinct, Absent, Absent-get}
use tri_mc.Cron.{Core, IsCore, Service, recover, start, clear_running, begun, begin_run}

module _ {Job Create Patch : Type 0} (core : Core Job Create Patch) where
  -- Every job stands under its own identifier, and under it alone.
  pub record IsKept (jobs : Map Job) : Type 0 where
    pub distinct : IsDistinct jobs
    pub own : (k : Text) (j : Job) → get jobs k ≡ some j → core.id_of j ≡ k

  is_marked : Job → Bool
  is_marked j = is_some (core.state_of j).running_at

  cleared : Job → Job
  unfolding is_marked
  cleared j = if is_marked j then core.patch_job_state j (clear_running core) else j

  abbrev after_of : Option Job → Option Job → Option Job
  after_of none old = old
  after_of (some j) old = some (cleared j)

module _ {Job Create Patch : Type 0} (core : Core Job Create Patch) (laws : IsCore core) where
  recover_step :
      (q : Text) (j : Job) (m0 : Map Job)
      → core.id_of j ≡ q
      → get m0 q ≡ some j
      → (k : Text)
      → get
          (if is_some (core.state_of j).running_at
            then put m0 (core.id_of j) (core.patch_job_state j (clear_running core))
            else m0)
          k
        ≡ (if text_eq q k then some (cleared core j) else get m0 k)
  unfolding cleared is_marked
  recover_step q j m0 own there k = elim (Bool-cases (is_some (core.state_of j).running_at)) [
    | inl r ↦ rw (r, own, get-put m0 q k (core.patch_job_state j (clear_running core))) refl
    | inr r ↦ elim (text_eq-cases q k) [
      | inl (t, e) ↦ rw (r, t) (rw (← e) there)
      | inr (t, n) ↦ rw (r, t) refl
    ]
  ]

  Absent-get-none : (m : Map Job) (k : Text) → Absent k m → get m k ≡ none
  Absent-get-none m k a = elim (Option-cases (get m k)) [
    | inl e ↦ e
    | inr (v, e) ↦ absurd (Absent-get m k k v a e refl)
  ]

  other_key :
      {q k : Text}
      → ((text_eq q k ≡ true) × (q ≡ k)) ⊎ ((text_eq q k ≡ false) × (q ≢ k))
      → q ≢ k
      → text_eq q k ≡ false
  other_key (inl (t, e)) n = absurd (n e)
  other_key (inr (t, m)) n = t

  -- The loop clears the jobs of the map `m`, and nothing else of the map that it writes.
  recover-get :
      (m m0 : Map Job)
      → IsKept core m
      → ((k : Text) (j : Job) → get m k ≡ some j → get m0 k ≡ some j)
      → (k : Text) → get (recover core (values m) m0) k ≡ after_of core (get m k) (get m0 k)
  unfolding recover get
  recover-get [] m0 kept stored k = refl
  recover-get ((q, j) ∷ rest) m0 kept stored k =
      let m1 =
        (if is_some (core.state_of j).running_at
          then put m0 (core.id_of j) (core.patch_job_state j (clear_running core))
          else m0) in
      let own : core.id_of j ≡ q = kept.own q j (rw (text_eq_refl q) refl) in
      let step : (k' : Text)
          → get m1 k' ≡ (if text_eq q k' then some (cleared core j) else get m0 k') =
        recover_step q j m0 own (stored q j (rw (text_eq_refl q) refl)) in
      let below : (k' : Text) (j' : Job) → get rest k' ≡ some j' → text_eq q k' ≡ false =
        λ k' j' e. other_key (text_eq-cases q k') (Absent-get rest q k' j' kept.distinct.0 e) in
      let kept' : IsKept core rest = record {
        distinct = kept.distinct.1;
        own = λ k' j' e. kept.own k' j' (rw (below k' j' e) e);
      } in
      let ih =
        recover-get rest m1 kept'
          (λ k' j' e. rw (step k', below k' j' e) (stored k' j' (rw (below k' j' e) e))) k in
      ih ∙ (elim (text_eq-cases q k) [
        | inl (t, e) ↦
            let gone : get rest k ≡ none = Absent-get-none rest k (rw e at kept.distinct.0) in
            rw (gone, step k, t) refl
        | inr (t, n) ↦ rw (step k, t) refl
      ])

  cleared-free : (j : Job) → (core.state_of (cleared core j)).running_at ≡ none
  unfolding cleared is_marked
  cleared-free j = elim (Option-cases (core.state_of j).running_at) [
    | inl e ↦ rw e e
    | inr (t, e) ↦ rw e (ap (λ s. s.running_at) (laws.state-patch j (clear_running core)))
  ]

  cleared-kept : (j : Job) → (core.state_of j).running_at ≡ none → cleared core j ≡ j
  unfolding cleared is_marked
  cleared-kept j e = rw e refl

  -- What a crash leaves marked as running runs again: after the start of a service that was not
  -- running, whose jobs stand under their own identifiers, the same identifiers are there; no job
  -- is marked as running, and one that was not marked is what it was; and a forced run of any of
  -- them at any time begins.
  pub start_recovers :
      (s : Service Job)
      → s.is_running ≡ false
      → IsKept core s.jobs
      → ((k : Text) → get s.jobs k ≡ none → get (start core s).jobs k ≡ none)
        × ((k : Text) (j : Job)
            → get s.jobs k ≡ some j
            → ((j' : Job) × (get (start core s).jobs k ≡ some j')
                × ((core.state_of j').running_at ≡ none)
                × ((core.state_of j).running_at ≡ none → j' ≡ j))
              × ((now : ℕ)
                  → (j' : Job) × (jobs' : Map Job) × (begin_run core k true now (start core s).jobs
                      ≡ begun j' jobs')))
  unfolding start
  start_recovers s stopped kept =
      let read : (k : Text)
          → get (recover core (values s.jobs) s.jobs) k
            ≡ after_of core (get s.jobs k) (get s.jobs k) =
        λ k. recover-get s.jobs s.jobs kept (λ k' j e. e) k in
      rw stopped (
        λ k e. read k ∙ rw e refl,
        λ k j e.
            let there : get (recover core (values s.jobs) s.jobs) k ≡ some (cleared core j) =
              read k ∙ rw e refl in
            (
              (cleared core j, there, cleared-free j, cleared-kept j),
              λ now. (unfold begin_run in rw (there, cleared-free j) (_, _, refl)),
            ),
      )
