-- ===== src/ConfigSync/Status.antt =====
-- What the status route answers (src/config-sync/status.ts, readConfigSyncStatus). The results of
-- the two calls of git, which run side by side, are arguments; `none` stands for a runner that
-- throws.
pub mod Pending
use tri_mc.Prelude.{
  ℕ, Bool, true, false, not, ◌&&◌, ◌||◌, Option, none, some, List, [], ◌∷◌, if◌then◌else◌, ◌==◌,
  get_or,
}
use tri_mc.Prelude.Text.{Text, text, text_eq, trim}
use tri_mc.Map.{Map, get}
use tri_mc.Json.{Json, null, bool, num, str, arr, obj, Fields, member, as_string}
use tri_mc.ConfigSync.{DimKey, is_string}
use tri_mc.ConfigSync.Validate.{BundleValidation, valid, invalid, validate_sync_bundle}
use tri_mc.ConfigSync.Store.{
  AppliedDimStatus, AppliedManifest, File, Disk, AppliedCache, fleet_bundle_path, dim_file_path,
  read_applied_manifest,
}
use tri_mc.ConfigSync.Apply.{GitExecResult, bundle_id_of, generated_at_of}

pub record AppliedSummary : Type 0 where
  pub bundle_id : Text
  pub generated_at : Text
  pub last_applied_at : Text
  pub source_instance_id : Text

pub record FleetHead : Type 0 where
  pub branch : Text
  pub commit : Text

pub record PendingBundle : Type 0 where
  pub bundle_id : Text
  pub generated_at : Text

pub record SyncStatusPayload : Type 0 where
  pub applied : Option AppliedSummary
  pub fleet_head : Option FleetHead
  pub dims : Option (DimKey → AppliedDimStatus)
  pub pending : Option PendingBundle
  pub project : Option Fields
  pub warnings : List Text

abbrev branch_of : GitExecResult → Text
branch_of r = if r.code == 0 then trim r.stdout else text "detached"

abbrev unless_blank : Text → Text → Option FleetHead
unless_blank [] branch = none
unless_blank (c ∷ commit) branch = some (record { branch = branch; commit = c ∷ commit })

-- A head that is blank, or a call that failed, gives no head.
pub fleet_head_of : Option (GitExecResult × GitExecResult) → Option FleetHead
fleet_head_of none = none
fleet_head_of (some (head_res, branch_res)) =
    if head_res.code == 0 then unless_blank (trim head_res.stdout) (branch_of branch_res) else none

abbrev is_news : Fields → Option AppliedManifest → Bool
is_news bundle none = true
is_news bundle (some m) = not (text_eq (bundle_id_of bundle) m.bundle_id)

abbrev pub pending_for : Fields → Option AppliedManifest → Option PendingBundle
pending_for bundle applied =
    if is_news bundle applied
    then some (record { bundle_id = bundle_id_of bundle; generated_at = generated_at_of bundle })
    else none

-- `parsed as BundleProject`, of a document that has the two fields.
unfoldable pub as_project : Option Json → Option Fields
as_project (some (obj fs)) =
    if is_string (member fs (text "projectKey")) && is_string (member fs (text "repoUrl"))
    then some fs
    else none
as_project _ = none

abbrev parsed_of : Option (File Json) → Option Json
parsed_of none = none
parsed_of (some file) = file.content

abbrev summary : AppliedManifest → AppliedSummary
summary m = record {
  bundle_id = m.bundle_id;
  generated_at = m.generated_at;
  last_applied_at = m.last_applied_at;
  source_instance_id = m.source_instance_id;
}

abbrev summary_of : Option AppliedManifest → Option AppliedSummary
summary_of none = none
summary_of (some m) = some (summary m)

abbrev dims_field : Option AppliedManifest → Option (DimKey → AppliedDimStatus)
dims_field none = none
dims_field (some m) = some m.dims

abbrev warnings_of : Option AppliedManifest → List Text
warnings_of none = []
warnings_of (some m) = get_or m.warnings []

module _ (parse_date : Text → Option ℕ) where
  abbrev pub pending_if_valid : BundleValidation → Option AppliedManifest → Option PendingBundle
  pending_if_valid (invalid error message) applied = none
  pending_if_valid (valid bundle) applied = pending_for bundle applied

  -- A bundle that is not there, is not JSON or is not valid is not pending.
  unfoldable pub pending_of : Option Json → Option AppliedManifest → Option PendingBundle
  pending_of none applied = none
  pending_of (some raw) applied = pending_if_valid (validate_sync_bundle parse_date raw) applied

  unfoldable pub read_config_sync_status :
      Text
      → Text
      → ℕ
      → Option (GitExecResult × GitExecResult)
      → Disk
      → AppliedCache
      → SyncStatusPayload × AppliedCache
  unfolding pending_of
  read_config_sync_status fleet_root config_dir now git disk cache =
      let (applied, cache') = read_applied_manifest config_dir false now disk cache in
      let bundle = parsed_of (get disk.bundles (fleet_bundle_path fleet_root)) in
      let project = parsed_of (get disk.documents (dim_file_path config_dir (text "project"))) in
      (
        record {
          applied = summary_of applied;
          fleet_head = fleet_head_of git;
          dims = dims_field applied;
          pending = pending_of bundle applied;
          project = as_project project;
          warnings = warnings_of applied;
        },
        cache',
      )
