-- ===== src/ConfigSync/Apply/Run.antt =====
-- One run of the job (src/config-sync/apply.ts, runConfigSyncApply).
pub mod Effect
pub mod History
pub mod Files
pub mod Repeats
pub mod Interrupted
use tri_mc.Prelude.{
  ℕ, Bool, true, false, not, ◌&&◌, Option, none, some, List, [], ◌∷◌, ◌++◌, if◌then◌else◌, ◌==◌,
  get_or, length, keep_if,
}
use tri_mc.Prelude.Text.{Text, text, text_eq, trim, decimal}
use tri_mc.Map.{Map, get, put}
use tri_mc.Json.{Json, null, Fields, member, as_string}
use tri_mc.ConfigSync.{
  DimKey, company, model, keys, employees, project, dim_keys, dim_name, is_dim_unavailable,
}
use tri_mc.ConfigSync.Validate.{valid, invalid, BundleValidation, validate_sync_bundle}
use tri_mc.ConfigSync.Canonical.{compute_content_hash, dim_of}
use tri_mc.ConfigSync.Store.{
  AppliedDimStatus, applied, unavailable, warning, AppliedManifest, File, Disk, join_path,
  fleet_bundle_path, applied_manifest_path, dim_file_path, AppliedCache, read_applied_manifest,
}
use tri_mc.ConfigSync.Apply.{
  ConfigSyncApplyOutcome, no_bundle, no_op, all_applied, ignored_stale, warning_stale,
  invalid_bundle, ConfigSyncApplyResult, text_of, bundle_id_of, generated_at_of, generated_by_of,
  VersionCompare, proceed, same_bundle, ignore, compare_with_applied, DimResult, field_of,
  resolve_keys_dim, GitExecResult,
}
use tri_mc.ConfigSync.Apply.Landing.{
  Run, resolve_employees_dim, write_manifest, Landed, land_bundle, land_dims,
}

-- `thrown` is an error of the file system, which the source passes on.
pub data Reply : Type 0 where
  replied : ConfigSyncApplyResult → Reply
  thrown : Reply

abbrev reply : ConfigSyncApplyOutcome → Fields → Text → Reply
reply outcome bundle detail =
    replied
      (record { outcome = outcome; bundle_id = some (bundle_id_of bundle); detail = some detail })

abbrev invalid_reply : Text → Reply
invalid_reply detail =
    replied (record { outcome = invalid_bundle; bundle_id = none; detail = some detail })

abbrev status_of : Option Json → AppliedDimStatus
status_of v = if is_dim_unavailable v then unavailable else applied

abbrev pub dims_of : Fields → AppliedDimStatus → AppliedDimStatus → DimKey → AppliedDimStatus
dims_of bundle keys_status employees_status keys = keys_status
dims_of bundle keys_status employees_status employees = employees_status
dims_of bundle keys_status employees_status dim = status_of (member bundle (dim_name dim))

abbrev noted : Text → Option Text → List Text
noted name none = []
noted name (some detail) = (name ++ detail) ∷ []

abbrev keys_warning : DimResult → List Text
keys_warning r = noted (text "keys: ") (if is_warning r.status then r.detail else none)
  where
    is_warning : AppliedDimStatus → Bool
    is_warning warning = true
    is_warning _ = false

abbrev is_applied : AppliedDimStatus → Bool
is_applied applied = true
is_applied _ = false

abbrev landed_detail : (DimKey → AppliedDimStatus) → Text
landed_detail dims =
    text "landed "
    ++ (decimal (length (keep_if (λ dim. is_applied (dims dim)) dim_keys))
        ++ text "/5 dims applied")

abbrev pub finish : Fields → (DimKey → AppliedDimStatus) → Landed → Reply × Disk
finish bundle dims (disk, true) = (reply all_applied bundle (landed_detail dims), disk)
finish bundle dims (disk, false) = (thrown, disk)

abbrev pub with_warning : AppliedManifest → Text → AppliedManifest
with_warning m w = record m { warnings = some (get_or m.warnings [] ++ (w ∷ [])) }

-- An older bundle is not landed; a warning is added to the manifest.
abbrev pub set_aside : Run → Fields → Text → Option Text → AppliedManifest → Disk → Reply × Disk
set_aside run bundle detail none m disk = (reply ignored_stale bundle detail, disk)
set_aside run bundle detail (some w) m disk = warned (write_manifest run (with_warning m w) disk)
  where
    warned : Option Disk → Reply × Disk
    warned none = (thrown, disk)
    warned (some disk') = (reply warning_stale bundle detail, disk')

module _ (parse_date : Text → Option ℕ) (sha256 : Text → Text) where
  module _ {G : Type 0} (git : G → List Text → GitExecResult × G) where
    -- Steps 4 and 5 of the source.
    unfoldable pub land : Run → Fields → Disk → G → (Reply × Disk) × G
    unfolding land_bundle
    land run bundle disk g =
        let keys_res = resolve_keys_dim bundle run.env in
        let (employees_res, g') = resolve_employees_dim git bundle run.fleet_root g in
        let dims = dims_of bundle keys_res.status employees_res.status in
        let warnings = keys_warning keys_res ++ noted (text "employees: ") employees_res.detail in
        let hash = compute_content_hash sha256 bundle in
        (finish bundle dims (land_bundle run bundle hash dims warnings disk), g')

    -- What is done with a bundle, by the comparison with the manifest.
    unfoldable pub settle :
        Run → Fields → AppliedManifest → VersionCompare → Disk → G → (Reply × Disk) × G
    unfolding land
    settle run bundle m proceed disk g = land run bundle disk g
    settle run bundle m same_bundle disk g = (
      (
        reply no_op bundle (text "bundle " ++ (bundle_id_of bundle ++ text " already applied")),
        disk,
      ),
      g,
    )
    settle run bundle m (ignore detail w) disk g = (set_aside run bundle detail w m disk, g)

    -- Step 3.
    abbrev pub settle_version :
        Run → Fields → Option AppliedManifest → Disk → G → (Reply × Disk) × G
    settle_version run bundle none disk g = land run bundle disk g
    settle_version run bundle (some m) disk g =
        let hash = compute_content_hash sha256 bundle in
        settle run bundle m (compare_with_applied parse_date bundle hash m) disk g

    abbrev pub on_validation : Run → BundleValidation → AppliedCache → Disk → G → (Reply × Disk) × G
    on_validation run (invalid error message) cache disk g =
        ((invalid_reply (error ++ (text ": " ++ message)), disk), g)
    on_validation run (valid bundle) cache disk g =
        let m = (read_applied_manifest run.config_dir true run.now disk cache).0 in
        settle_version run bundle m disk g

    abbrev pub on_parsed : Run → Option Json → AppliedCache → Disk → G → (Reply × Disk) × G
    on_parsed run none cache disk g =
        ((invalid_reply (text "fleet bundle is not valid JSON"), disk), g)
    on_parsed run (some raw) cache disk g =
        on_validation run (validate_sync_bundle parse_date raw) cache disk g

    abbrev pub on_bundle_file :
        Run → Option (File Json) → AppliedCache → Disk → G → (Reply × Disk) × G
    on_bundle_file run none cache disk g =
        ((replied (record { outcome = no_bundle; bundle_id = none; detail = none }), disk), g)
    on_bundle_file run (some file) cache disk g = on_parsed run file.content cache disk g

    -- The reply, the disk and the repositories after the run. The reader's cache is that of the
    -- run's process, which ends with it.
    unfoldable pub run_config_sync_apply : Run → AppliedCache → Disk → G → (Reply × Disk) × G
    run_config_sync_apply run cache disk g =
        on_bundle_file run (get disk.bundles (fleet_bundle_path run.fleet_root)) cache disk g
