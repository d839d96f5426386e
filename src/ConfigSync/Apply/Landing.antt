-- ===== src/ConfigSync/Apply/Landing.antt =====
-- What a run of the job is given, the check of the employees' commit and the writing of the files
-- (src/config-sync/apply.ts, resolveEmployeesDim and landBundle).
use tri_mc.Prelude.{
  ℕ, Bool, true, false, Option, none, some, List, [], ◌∷◌, ◌++◌, if◌then◌else◌, ◌==◌, get_or,
}
use tri_mc.Prelude.Text.{Text, text, text_eq, trim}
use tri_mc.Map.{Map, put}
use tri_mc.Json.{Json, Fields, member, as_string}
use tri_mc.ConfigSync.{DimKey, employees, dim_keys, dim_name, is_dim_unavailable}
use tri_mc.ConfigSync.Canonical.{dim_of}
use tri_mc.ConfigSync.Store.{
  AppliedDimStatus, applied, unavailable, warning, AppliedManifest, Disk, join_path,
  applied_manifest_path, dim_file_path,
}
use tri_mc.ConfigSync.Apply.{
  bundle_id_of, generated_at_of, generated_by_of, DimResult, field_of, GitExecResult,
}

-- What a run is given: the directories, the clock, the environment, the time that the file system
-- gives to the file of a path when that is written, and the paths that can be written. A run writes
-- no path twice.
pub record Run : Type 0 where
  pub fleet_root : Text
  pub config_dir : Text
  pub now : ℕ
  pub now_iso : Text
  pub env : Map Text
  pub mtime : Text → ℕ
  pub can_write : Text → Bool

abbrev pub head_of : GitExecResult → Text → Text
head_of r old = if r.code == 0 then trim r.stdout else old

abbrev or_unavailable : Text → Text
or_unavailable [] = text "unavailable"
or_unavailable (c ∷ s) = c ∷ s

abbrev mismatch : Text → Text → Text
mismatch head commit =
    text "fleet TriCompany HEAD=" ++ (or_unavailable head ++ (text " != bundle " ++ commit))

module _ {G : Type 0} (git : G → List Text → GitExecResult × G) where
  -- The repository is pulled when its head is not the bundle's commit, and the head is read again.
  unfoldable pub pull_and_recheck : Text → Text → Text → G → DimResult × G
  pull_and_recheck path commit head g =
      let (pulled, g1) = git g (text "-C" ∷ path ∷ text "pull" ∷ text "--ff-only" ∷ []) in
      let (recheck, g2) = git g1 (text "-C" ∷ path ∷ text "rev-parse" ∷ text "HEAD" ∷ []) in
      let head' = head_of recheck head in
      if text_eq head' commit
      then (record { status = applied; detail = none }, g2)
      else (record { status = warning; detail = some (mismatch head' commit) }, g2)

  unfoldable pub resolve_employees_dim : Fields → Text → G → DimResult × G
  unfolding pull_and_recheck
  resolve_employees_dim bundle fleet_root g =
      let path = join_path fleet_root (text "TriCompany") in
      let (head_res, g1) = git g (text "-C" ∷ path ∷ text "rev-parse" ∷ text "HEAD" ∷ []) in
      let head = head_of head_res [] in
      let commit = get_or (as_string (field_of bundle employees (text "sourceCommit"))) [] in
      let pulled = pull_and_recheck path commit head g1 in
      if is_dim_unavailable (member bundle (text "employees"))
      then (record { status = unavailable; detail = none }, g)
      else if text_eq head commit
      then (record { status = applied; detail = none }, g1)
      else pulled

-- `atomicWriteJson`: the file is replaced as a whole, or not at all.
abbrev pub write_manifest : Run → AppliedManifest → Disk → Option Disk
write_manifest run m disk =
    let path = applied_manifest_path run.config_dir in
    if run.can_write path
    then some (record disk {
      manifests = put disk.manifests path (record { mtime = run.mtime path; content = some m });
    })
    else none

abbrev pub write_dim : Run → DimKey → Json → Disk → Option Disk
write_dim run dim value disk =
    let path = dim_file_path run.config_dir (dim_name dim) in
    if run.can_write path
    then some (record disk {
      documents = put disk.documents path (record { mtime = run.mtime path; content = some value });
    })
    else none

-- The disk, and whether all was written: the first write that fails throws.
abbrev pub Landed : Type 0
Landed = Disk × Bool

abbrev pub and_then : Disk → Option Disk → (Disk → Landed) → Landed
and_then disk none rest = (disk, false)
and_then disk (some disk') rest = rest disk'

unfoldable pub land_dims : Run → Fields → List DimKey → Disk → Landed
land_dims run bundle [] disk = (disk, true)
land_dims run bundle (dim ∷ dims) disk =
    and_then disk (write_dim run dim (dim_of bundle (dim_name dim)) disk)
      (land_dims run bundle dims)

abbrev warnings_field : List Text → Option (List Text)
warnings_field [] = none
warnings_field (w ∷ ws) = some (w ∷ ws)

abbrev pub manifest_for :
    Run → Fields → Text → (DimKey → AppliedDimStatus) → List Text → AppliedManifest
manifest_for run bundle content_hash dims warnings = record {
  bundle_id = bundle_id_of bundle;
  generated_at = generated_at_of bundle;
  content_hash = content_hash;
  source_instance_id = generated_by_of bundle;
  last_applied_at = run.now_iso;
  dims = dims;
  warnings = warnings_field warnings;
}

-- The manifest first, then the dimensions.
unfoldable pub land_bundle :
    Run → Fields → Text → (DimKey → AppliedDimStatus) → List Text → Disk → Landed
unfolding land_dims
land_bundle run bundle content_hash dims warnings disk =
    and_then disk (write_manifest run (manifest_for run bundle content_hash dims warnings) disk)
      (land_dims run bundle dim_keys)
