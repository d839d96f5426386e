-- ===== src/ConfigSync/Apply/Run/Effect.antt =====
-- What one run can do to the disk, and with which reply.
use tri_mc.Prelude.{
  ℕ, ◌≡◌, ◌≢◌, refl, inl, inr, Bool, true, false, Option, none, some, List, Bool-cases,
  Option-cases,
}
use tri_mc.Prelude.Text.{Text, text_eq, text_eq-cases}
use tri_mc.Map.{get}
use tri_mc.Json.{Json, Fields}
use tri_mc.ConfigSync.{DimKey}
use tri_mc.ConfigSync.Validate.{BundleValidation, valid, invalid, validate_sync_bundle}
use tri_mc.ConfigSync.Canonical.{compute_content_hash}
use tri_mc.ConfigSync.Store.{
  AppliedDimStatus, AppliedManifest, File, Disk, fleet_bundle_path, AppliedCache,
}
use tri_mc.ConfigSync.Store.Fresh.{manifest_on_disk, read_applied_manifest-forced}
use tri_mc.ConfigSync.Apply.{
  ConfigSyncApplyOutcome, all_applied, warning_stale, ConfigSyncApplyResult, bundle_id_of,
  generated_at_of, generated_by_of, VersionCompare, proceed, same_bundle, ignore, before,
  compare_with_applied, GitExecResult,
}
use tri_mc.ConfigSync.Apply.Landing.{Run, write_manifest, land_bundle}
use tri_mc.ConfigSync.Apply.Run.{
  Reply, replied, thrown, finish, with_warning, set_aside, land, settle, settle_version,
  on_validation, on_parsed, run_config_sync_apply,
}

-- The outcomes that leave the disk alone.
abbrev pub is_quiet : ConfigSyncApplyOutcome → Bool
is_quiet all_applied = false
is_quiet warning_stale = false
is_quiet _ = true

module _ (parse_date : Text → Option ℕ) where
  -- The work tree has the bundle, and the validator lets it through.
  pub record Accepted (run : Run) (disk : Disk) (bundle : Fields) : Type 0 where
    pub file : File Json
    pub raw : Json
    pub there : get disk.bundles (fleet_bundle_path run.fleet_root) ≡ some file
    pub parsed : file.content ≡ some raw
    pub passes : validate_sync_bundle parse_date raw ≡ valid bundle

  abbrev pub IsOlder : Fields → AppliedManifest → Type 0
  IsOlder bundle m = before (parse_date (generated_at_of bundle)) (parse_date m.generated_at) ≡ true

  -- Nothing is applied yet, or another bundle that is not from a later time.
  abbrev pub IsNews : Fields → Option AppliedManifest → Type 0
  IsNews bundle none = Unit
  IsNews bundle (some m) =
      (bundle_id_of bundle ≢ m.bundle_id)
      × (before (parse_date (generated_at_of bundle)) (parse_date m.generated_at) ≡ false)

  -- A bundle is set aside only when it is older, and passed only when it is not the applied one.
  data Compared (bundle : Fields) (m : AppliedManifest) : VersionCompare → Type 0 where
    went_on : IsNews bundle (some m) → Compared bundle m proceed
    was_same : bundle_id_of bundle ≡ m.bundle_id → Compared bundle m same_bundle
    was_older :
        (detail : Text) (w : Option Text) → IsOlder bundle m → Compared bundle m (ignore detail w)

  compared :
      (bundle : Fields) (hash : Text) (m : AppliedManifest)
      → Compared bundle m (compare_with_applied parse_date bundle hash m)
  unfolding compare_with_applied
  compared bundle hash m = elim (text_eq-cases (bundle_id_of bundle) m.bundle_id) [
    | inl (e, q) ↦ rw e (was_same q)
    | inr (e, n) ↦
        elim (Bool-cases
          (before (parse_date (generated_at_of bundle)) (parse_date m.generated_at))) [
            | inr f ↦ rw (e, f) (went_on (n, f))
            | inl f ↦ elim (Bool-cases (text_eq hash m.content_hash)) [
              | inr h ↦ rw (e, f, h) (was_older _ _ f)
              | inl h ↦ elim (Bool-cases (text_eq (generated_by_of bundle) m.source_instance_id)) [
                | inr i ↦ rw (e, f, h, i) (was_older _ _ f)
                | inl i ↦ rw (e, f, h, i) (was_older _ _ f)
              ]
            ]
          ]
  ]

module _ (parse_date : Text → Option ℕ) (sha256 : Text → Text) where
  pub data Effect (run : Run) (disk : Disk) : Reply × Disk → Type 0 where
    untouched :
        (r : ConfigSyncApplyResult) → is_quiet r.outcome ≡ true → Effect run disk (replied r, disk)
    not_warned : Effect run disk (thrown, disk)
    warned :
        (bundle : Fields) (m : AppliedManifest) (w : Text) (r : ConfigSyncApplyResult)
        (disk' : Disk)
        → Accepted parse_date run disk bundle
        → manifest_on_disk run.config_dir disk ≡ some m
        → IsOlder parse_date bundle m
        → r.outcome ≡ warning_stale
        → write_manifest run (with_warning m w) disk ≡ some disk'
        → Effect run disk (replied r, disk')
    landed :
        (bundle : Fields) (dims : DimKey → AppliedDimStatus) (warnings : List Text)
        → Accepted parse_date run disk bundle
        → IsNews parse_date bundle (manifest_on_disk run.config_dir disk)
        → Effect run disk (
            finish bundle dims
              (land_bundle run bundle (compute_content_hash sha256 bundle) dims warnings disk))

  module _ {G : Type 0} (git : G → List Text → GitExecResult × G) where
    land-Effect :
        (run : Run) (disk : Disk) (g : G) (bundle : Fields)
        → Accepted parse_date run disk bundle
        → IsNews parse_date bundle (manifest_on_disk run.config_dir disk)
        → Effect run disk (land parse_date sha256 git run bundle disk g).0
    unfolding land
    land-Effect run disk g bundle ok news = landed bundle _ _ ok news

    set_aside-Effect :
        (run : Run) (disk : Disk) (bundle : Fields) (m : AppliedManifest) (detail : Text)
        (w : Option Text)
        → Accepted parse_date run disk bundle
        → manifest_on_disk run.config_dir disk ≡ some m
        → IsOlder parse_date bundle m
        → Effect run disk (set_aside run bundle detail w m disk)
    set_aside-Effect run disk bundle m detail none ok there old = untouched _ refl
    set_aside-Effect run disk bundle m detail (some w) ok there old =
        elim (Option-cases (write_manifest run (with_warning m w) disk)) [
          | inl e ↦ rw e not_warned
          | inr (disk', e) ↦ rw e (warned bundle m w _ disk' ok there old refl e)
        ]

    settle-Effect :
        (run : Run) (disk : Disk) (g : G) (bundle : Fields) (m : AppliedManifest)
        (v : VersionCompare)
        → Accepted parse_date run disk bundle
        → manifest_on_disk run.config_dir disk ≡ some m
        → Compared parse_date bundle m v
        → Effect run disk (settle parse_date sha256 git run bundle m v disk g).0
    unfolding settle
    settle-Effect run disk g bundle m v ok there (went_on news) =
        land-Effect run disk g bundle ok (rw there news)
    settle-Effect run disk g bundle m v ok there (was_same q) = untouched _ refl
    settle-Effect run disk g bundle m v ok there (was_older detail w old) =
        set_aside-Effect run disk bundle m detail w ok there old

    Accepted-Effect :
        (run : Run) (disk : Disk) (g : G) (bundle : Fields) (o : Option AppliedManifest)
        → Accepted parse_date run disk bundle
        → manifest_on_disk run.config_dir disk ≡ o
        → Effect run disk (settle_version parse_date sha256 git run bundle o disk g).0
    Accepted-Effect run disk g bundle none ok there = land-Effect run disk g bundle ok (rw there tt)
    Accepted-Effect run disk g bundle (some m) ok there =
        settle-Effect run disk g bundle m _ ok there (compared parse_date bundle _ m)

    validated-Effect :
        (run : Run) (disk : Disk) (g : G) (cache : AppliedCache) (v : BundleValidation)
        → ((bundle : Fields) → v ≡ valid bundle → Accepted parse_date run disk bundle)
        → Effect run disk (on_validation parse_date sha256 git run v cache disk g).0
    validated-Effect run disk g cache (invalid error message) ok = untouched _ refl
    validated-Effect run disk g cache (valid bundle) ok =
        rw (read_applied_manifest-forced run.config_dir run.now disk cache)
          (Accepted-Effect run disk g bundle _ (ok bundle refl) refl)

    parsed-Effect :
        (run : Run) (disk : Disk) (g : G) (cache : AppliedCache) (file : File Json)
        (o : Option Json)
        → get disk.bundles (fleet_bundle_path run.fleet_root) ≡ some file
        → file.content ≡ o
        → Effect run disk (on_parsed parse_date sha256 git run o cache disk g).0
    parsed-Effect run disk g cache file none there q = untouched _ refl
    parsed-Effect run disk g cache file (some raw) there q =
        validated-Effect run disk g cache (validate_sync_bundle parse_date raw)
          (λ bundle e. record { file = file; raw = raw; there = there; parsed = q; passes = e })

    -- Every run leaves the disk alone, adds a warning to the manifest, or lands the bundle.
    pub run-Effect :
        (run : Run) (cache : AppliedCache) (disk : Disk) (g : G)
        → Effect run disk (run_config_sync_apply parse_date sha256 git run cache disk g).0
    unfolding run_config_sync_apply
    run-Effect run cache disk g =
        elim (Option-cases (get disk.bundles (fleet_bundle_path run.fleet_root))) [
          | inl e ↦ rw e (untouched _ refl)
          | inr (file, e) ↦ rw e (parsed-Effect run disk g cache file file.content e refl)
        ]
