-- ===== src/ConfigSync/Samples/Witnesses.antt =====
-- A concrete input for each theorem of the configuration sync.
use tri_mc.Prelude.{
  ℕ, ◌≤◌, ◌≡◌, ◌≢◌, refl, ◌↔◌, ◌⊎◌, true, false, not, none, some, List, [], ◌∷◌, arith, get_or,
}
use tri_mc.Prelude.Text.{Text, text, text_eq, text-ne, trim, decimal, join}
use tri_mc.Map.{Map, get, put}
use tri_mc.Json.{Json, null, str, obj, Fields, end, field, member, as_string}
use tri_mc.ConfigSync.{
  is_str, DimKey, company, model, keys, employees, project, dim_name, is_dim_unavailable,
}
use tri_mc.ConfigSync.Secrets.{Secret, find_secret_field, holds_secret}
use tri_mc.ConfigSync.Validate.{valid, validate_sync_bundle, check_fields}
use tri_mc.ConfigSync.Checks.{
  dim_checkers, check_keys, each, check_keys_provider, check_provider_fields,
  is_keys_provider_field, check_employees, check_employee,
}
use tri_mc.ConfigSync.Validate.Steps.{Settled}
use tri_mc.ConfigSync.Validate.Verdict.{Verdict, validate_sync_bundle_iff, valid-Safe}
use tri_mc.ConfigSync.Canonical.{dim_of, compute_content_hash}
use tri_mc.ConfigSync.Canonical.Hash.{
  SameDim, same_value, head_moved, first_has, same, in_object, swapped, fields, no_fields, dim_text,
  compute_content_hash-Same,
}
use tri_mc.ConfigSync.Store.{
  applied, AppliedManifest, File, Disk, AppliedCache, fleet_bundle_path, applied_manifest_path,
  dim_file_path, read_applied_manifest,
}
use tri_mc.ConfigSync.Store.Fresh.{manifest_on_disk}
use tri_mc.ConfigSync.Models.{read_applied_model, resolve_default_model, BundleModel}
use tri_mc.ConfigSync.Models.Levels.{
  Reached, started, manifest_written, manifest_read, model_on_disk, reads-Current,
  resolve_default_model-levels,
}
use tri_mc.ConfigSync.Apply.{
  compare_with_applied, resolve_keys_dim, field_of, ConfigSyncApplyResult, no_op,
}
use tri_mc.ConfigSync.Apply.Landing.{Run, resolve_employees_dim, land_bundle}
use tri_mc.ConfigSync.Apply.Resolved.{AtCommit, resolve_employees_dim-AtCommit}
use tri_mc.ConfigSync.Apply.Run.{settle, Reply, replied, thrown, run_config_sync_apply, land}
use tri_mc.ConfigSync.Apply.Run.Effect.{Accepted}
use tri_mc.ConfigSync.Apply.Run.History.{AppliedSince, runs, runs-AppliedSince}
use tri_mc.ConfigSync.Apply.Run.Repeats.{Whole, applied-Whole, run_twice}
use tri_mc.ConfigSync.Apply.Run.Interrupted.{lost_dim}
use tri_mc.ConfigSync.Status.{read_config_sync_status}
use tri_mc.ConfigSync.Status.Pending.{Later, applied_not_pending}
use tri_mc.ConfigSync.Samples.{
  parse_date, sha256, git, bundle, bundle_fields, bundle_passes, leaky, work_tree, empty_disk,
  first_run, first_result, first_reply,
}

abbrev first : (Reply × Disk) × ℕ
first = run_config_sync_apply parse_date sha256 git first_run none empty_disk 0

validate_sync_bundle_iff_example :
    (validate_sync_bundle parse_date leaky ≡ valid end) ↔ Verdict parse_date leaky (valid end)
validate_sync_bundle_iff_example = validate_sync_bundle_iff parse_date leaky (valid end)

valid-Safe_example : (bundle ≡ obj bundle_fields) × ¬ Secret bundle × Settled bundle_fields keys
valid-Safe_example = valid-Safe parse_date bundle bundle_fields bundle_passes

abbrev moved_fields : Fields
moved_fields = field (text "company") (obj (field (text "a") null (field (text "b") null end))) (
    field (text "bundleId") (str (text "b2"))
      (field (text "project") (obj (field (text "devHead") (str (text "c1")) end)) end))

abbrev moved_back : Fields
moved_back =
    field (text "company") (obj (field (text "b") null (field (text "a") null end)))
      (field (text "project") (obj end) end)

moved-Same :
    (dim : DimKey)
    → SameDim dim (dim_of moved_fields (dim_name dim)) (dim_of moved_back (dim_name dim))
unfolding member text text_eq
moved-Same company =
    same_value company (in_object (swapped (text "a") (text "b") null null end (text-ne _ _ refl)))
moved-Same model = same_value model (same null)
moved-Same keys = same_value keys (same null)
moved-Same employees = same_value employees (same null)
moved-Same project =
    head_moved (first_has (str (text "c1")) (fields (text "devHead") (same _) no_fields))

compute_content_hash-Same_example :
    (((dim : DimKey)
        → SameDim dim (dim_of moved_fields (dim_name dim)) (dim_of moved_back (dim_name dim)))
      → compute_content_hash sha256 moved_fields ≡ compute_content_hash sha256 moved_back)
    × (((x y : Text) → sha256 x ≡ sha256 y → x ≡ y)
        → (dim : DimKey)
        → ((other : DimKey)
            → other ≢ dim
            → SameDim other
                (dim_of moved_fields (dim_name other))
                (dim_of moved_back (dim_name other)))
        → compute_content_hash sha256 moved_fields ≡ compute_content_hash sha256 moved_back
        → dim_text moved_fields dim ≡ dim_text moved_back dim)
compute_content_hash-Same_example = compute_content_hash-Same sha256 moved_fields moved_back

moved_hash : compute_content_hash sha256 moved_fields ≡ compute_content_hash sha256 moved_back
moved_hash = (compute_content_hash-Same sha256 moved_fields moved_back).0 moved-Same

abbrev old_manifest : AppliedManifest
old_manifest = record {
  bundle_id = text "b0";
  generated_at = text "day";
  content_hash = [];
  source_instance_id = text "lc";
  last_applied_at = text "day";
  dims = λ dim. applied;
  warnings = none;
}

abbrev no_files : Disk
no_files = record { manifests = []; documents = []; bundles = work_tree }

abbrev old_file : File AppliedManifest
old_file = record { mtime = 3; content = some old_manifest }

abbrev old_disk : Disk
old_disk = record no_files { manifests = put [] (applied_manifest_path (text "/c")) old_file }

nothing_there :
    {A : Type 0} (path : Text) (file : File A) → get [] path ≡ some file → file.mtime ≤ 0
unfolding get
nothing_there path file e = cc e

written_reached : Reached 3 old_disk none none
written_reached =
    manifest_written (applied_manifest_path (text "/c")) old_file (omega arith)
      (started 0 no_files nothing_there nothing_there)

abbrev cache_then : AppliedCache
cache_then = (read_applied_manifest (text "/c") false 7 old_disk none).1

read_reached : Reached 3 old_disk cache_then none
read_reached = manifest_read (text "/c") false 7 written_reached

reads-Current_example :
    ((read_applied_manifest (text "/c") false 9 old_disk cache_then).0
      ≡ manifest_on_disk (text "/c") old_disk)
    × ((read_applied_model (text "/c") 9 old_disk none).0 ≡ model_on_disk (text "/c") old_disk)
reads-Current_example = reads-Current 3 old_disk cache_then none read_reached (text "/c") false 9

resolve_default_model-levels_example :
    let chosen = (resolve_default_model (some (text " m ")) (text "/c") 9 old_disk none).0 in
    let set = some (text " m ") in
    ((v : Text) → set ≡ some v → trim v ≢ [] → chosen ≡ trim v)
    × ((set ≡ none) ⊎ ((v : Text) × (set ≡ some v) × (trim v ≡ []))
        → ((bm : BundleModel)
            → model_on_disk (text "/c") old_disk ≡ some bm
            → (bm.default_model ≢ [] → chosen ≡ bm.default_model)
              × (bm.default_model ≡ [] → chosen ≡ text "deepseek-v4-pro"))
          × (model_on_disk (text "/c") old_disk ≡ none → chosen ≡ text "deepseek-v4-pro"))
resolve_default_model-levels_example =
    resolve_default_model-levels 3 old_disk cache_then none read_reached (some (text " m "))
      (text "/c") 9

old_since : AppliedSince parse_date 2 (text "/c") old_disk
unfolding manifest_on_disk get put text text_eq applied_manifest_path
old_since = (old_manifest, refl, 3, refl, omega arith)

abbrev occasions : List (Run × Map (File Json))
occasions = (first_run, work_tree) ∷ (first_run, []) ∷ []

runs-AppliedSince_example :
    AppliedSince parse_date 2 (text "/c") (runs parse_date sha256 git occasions old_disk 0).0
runs-AppliedSince_example =
    runs-AppliedSince parse_date sha256 git 2 (text "/c") occasions old_disk 0 (refl, (refl, tt))
      old_since

applied-Whole_example : (b : Fields) × Whole parse_date sha256 first_run empty_disk first.0.1 b
applied-Whole_example =
    applied-Whole parse_date sha256 git first_run none empty_disk 0 first_result first_reply refl

run_twice_example :
    let x = (run_config_sync_apply parse_date sha256 git first_run none first.0.1 4).0 in
    (r' : ConfigSyncApplyResult) × (x.0 ≡ replied r') × (r'.outcome ≡ no_op) × (x.1 ≡ first.0.1)
run_twice_example =
    run_twice parse_date sha256 git first_run none empty_disk 0 first_result first_reply refl
      first_run none 4 refl refl

abbrev broken_run : Run
broken_run = record first_run {
  can_write = λ path. not (text_eq path (dim_file_path (text "/c") (text "model")));
}

broken-Accepted : Accepted parse_date broken_run empty_disk bundle_fields
unfolding get fleet_bundle_path text text_eq
broken-Accepted = record {
  file = record { mtime = 1; content = some bundle };
  raw = bundle;
  there = refl;
  parsed = refl;
  passes = bundle_passes;
}

nothing_applied : manifest_on_disk (text "/c") empty_disk ≡ none
unfolding manifest_on_disk get
nothing_applied = refl

writable : broken_run.can_write (applied_manifest_path (text "/c")) ≡ true
unfolding text text_eq applied_manifest_path dim_file_path
writable = refl

not_writable : broken_run.can_write (dim_file_path (text "/c") (dim_name model)) ≡ false
unfolding text text_eq dim_file_path
not_writable = refl

lost_dim_example :
    let x = (run_config_sync_apply parse_date sha256 git broken_run none empty_disk 0).0 in
    let y = (run_config_sync_apply parse_date sha256 git first_run none x.1 1).0 in
    let path = dim_file_path (text "/c") (dim_name model) in
    (x.0 ≡ thrown)
    × ((r : ConfigSyncApplyResult) × (y.0 ≡ replied r) × (r.outcome ≡ no_op) × (y.1 ≡ x.1))
    × (get y.1.documents path ≡ get empty_disk.documents path)
lost_dim_example =
    lost_dim parse_date sha256 git broken_run none empty_disk 0 bundle_fields model broken-Accepted
      (rw nothing_applied tt) writable not_writable first_run none 1 refl refl

has_commit :
    get_or (as_string (field_of bundle_fields employees (text "sourceCommit"))) [] ≡ text "abc"
unfolding member text text_eq
has_commit = refl

employees_applied : (resolve_employees_dim git bundle_fields (text "/f") 0).0.status ≡ applied
unfolding resolve_employees_dim member is_dim_unavailable text text_eq trim
employees_applied = refl

resolve_employees_dim-AtCommit_example :
    (is_dim_unavailable (member bundle_fields (text "employees")) ≡ false)
    × AtCommit git bundle_fields
        (text "/f")
        (get_or (as_string (field_of bundle_fields employees (text "sourceCommit"))) [])
        (resolve_employees_dim git bundle_fields (text "/f") 0).1
resolve_employees_dim-AtCommit_example =
    resolve_employees_dim-AtCommit git bundle_fields (text "/f")
      (rw has_commit (text-ne _ _ (unfold text text_eq in refl))) 0 employees_applied

-- The first run, on a disk with an older manifest that the server has read.
abbrev again : (Reply × Disk) × ℕ
again = run_config_sync_apply parse_date sha256 git first_run none old_disk 0

again_reply : again.0.0 ≡ replied first_result
unfolding run_config_sync_apply validate_sync_bundle find_secret_field holds_secret check_fields
    is_str is_dim_unavailable dim_checkers check_keys each check_keys_provider check_provider_fields
    is_keys_provider_field check_employees check_employee member text text_eq fleet_bundle_path get
    land read_applied_manifest resolve_keys_dim resolve_employees_dim trim land_bundle decimal join
    put applied_manifest_path settle compare_with_applied
again_reply = refl

first-Later : Later first_run 3
unfolding text text_eq dim_file_path applied_manifest_path
first-Later =
    (omega arith, (omega arith, (omega arith, (omega arith, (omega arith, (omega arith, tt))))))

applied_not_pending_example :
    let shown =
      (read_config_sync_status parse_date (text "/f") (text "/c") 12 none again.0.1 cache_then).0 in
    (shown.pending ≡ none)
    × ((b : Fields) × Whole parse_date sha256 first_run old_disk again.0.1 b
        × (is_dim_unavailable (member b (text "project")) ≡ false
            → (p : Fields) × (member b (text "project") ≡ some (obj p)) × (shown.project ≡ some p)))
applied_not_pending_example =
    applied_not_pending parse_date sha256 git first_run none old_disk 0 first_result again_reply
      refl 3 cache_then none read_reached first-Later 12 none
