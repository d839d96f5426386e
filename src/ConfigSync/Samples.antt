-- ===== src/ConfigSync/Samples.antt =====
-- Tests of the configuration sync.
mod Witnesses
use tri_mc.Prelude.{
  ℕ, ◌+◌, ◌≤◌, ◌≡◌, ◌≢◌, refl, ◌↔◌, ◌⊎◌, inl, inr, Bool, true, false, Option, none, some, List, [],
  ◌∷◌, ◌++◌, arith, length, if◌then◌else◌,
}
use tri_mc.Prelude.Text.{Text, text, text_eq, decimal, join, trim}
use tri_mc.Map.{Map, get, put}
use tri_mc.Json.{
  Json, null, bool, num, str, arr, obj, Items, nil, cons, Fields, end, field, member, stringify,
  quote,
}
use tri_mc.ConfigSync.{DimKey, company, model, keys, employees, project, is_str, is_dim_unavailable}
use tri_mc.ConfigSync.Secrets.{find_secret_field, holds_secret, Secret, here}
use tri_mc.ConfigSync.Checks.{
  dim_checkers, check_keys, each, check_keys_provider, check_provider_fields,
  is_keys_provider_field, check_employees, check_employee,
}
use tri_mc.ConfigSync.Validate.{
  BundleValidation, valid, invalid, validate_sync_bundle, check_fields,
}
use tri_mc.ConfigSync.Canonical.{canonicalize, compute_content_hash}
use tri_mc.ConfigSync.Store.{
  AppliedDimStatus, applied, unavailable, warning, AppliedManifest, File, Disk, AppliedCache,
  fleet_bundle_path, applied_manifest_path, dim_file_path, read_applied_manifest,
}
use tri_mc.ConfigSync.Apply.{
  resolve_keys_dim, ConfigSyncApplyResult, ConfigSyncApplyOutcome, all_applied, no_op,
  GitExecResult,
}
use tri_mc.ConfigSync.Apply.Landing.{Run, resolve_employees_dim, land_bundle}
use tri_mc.ConfigSync.Apply.Run.{Reply, replied, thrown, run_config_sync_apply, land}

-- Dates of the tests are their number of units.
abbrev parse_date : Text → Option ℕ
parse_date t = some (length t)

abbrev sha256 : Text → Text
sha256 t = t

-- A repository whose head is `abc`, at any time.
abbrev git : ℕ → List Text → GitExecResult × ℕ
git n args = (record { code = 0; stdout = text "abc\n"; stderr = [] }, n + 1)

abbrev away : Json
away = obj (
    field (text "status") (str (text "unavailable"))
      (field (text "reason") (str (text "down")) end))

abbrev texts2 : Text → Text → Json
texts2 a b = obj (field a (str (text "x")) (field b (str (text "y")) end))

abbrev staff : Json
staff = obj (
    field (text "roster") (arr (cons (texts2 (text "roleId") (text "name")) nil))
      (field (text "sourceCommit") (str (text "abc")) end))

abbrev one_key : Json
one_key = obj (
    field (text "providers")
      (arr (
        cons
          (obj
            (field (text "provider") (str (text "openai")) (field (text "ready") (bool true) end)))
          nil))
      (field (text "refreshIntervalS") (num (text "60"))
        (field (text "fetchedAt") (str (text "d")) end)))

abbrev bundle_fields : Fields
bundle_fields = field (text "schemaVersion") (num (text "1")) (
    field (text "bundleId") (str (text "b1")) (
      field (text "generatedAt") (str (text "day 1")) (
        field (text "generatedBy") (str (text "lc")) (
          field (text "company") away (
            field (text "model") away (
              field (text "keys") one_key
                (field (text "employees") staff (field (text "project") away end))))))))

abbrev bundle : Json
bundle = obj bundle_fields

abbrev leaky : Json
leaky = obj (
    field (text "schemaVersion") (arr (cons (obj (field (text "token") (str (text "s")) end)) nil))
      end)

leaky_hit : find_secret_field leaky (text "$") ≡ some (text "$.schemaVersion[0].token")
unfolding find_secret_field holds_secret is_str text text_eq decimal
leaky_hit = refl

bundle_passes : validate_sync_bundle parse_date bundle ≡ valid bundle_fields
unfolding validate_sync_bundle find_secret_field holds_secret check_fields is_str is_dim_unavailable
    dim_checkers check_keys each check_keys_provider check_provider_fields is_keys_provider_field
    check_employees check_employee member text text_eq
bundle_passes = refl

canonical_sorted :
    canonicalize (obj (field (text "b") (num (text "1")) (field (text "a") null end)))
    ≡ text "{\"a\":null,\"b\":1}"
unfolding canonicalize text join stringify quote
canonical_sorted = refl

abbrev work_tree : Map (File Json)
work_tree = (fleet_bundle_path (text "/f"), record { mtime = 1; content = some bundle }) ∷ []

abbrev empty_disk : Disk
empty_disk = record { manifests = []; documents = []; bundles = work_tree }

-- The manifest first, then the dimensions.
abbrev write_time : Text → ℕ
write_time path =
    if text_eq path (text "/c/init-sync/company.json")
    then 6
    else if text_eq path (text "/c/init-sync/model.json")
    then 7
    else if text_eq path (text "/c/init-sync/keys.json")
    then 8
    else if text_eq path (text "/c/init-sync/employees.json")
    then 9
    else if text_eq path (text "/c/init-sync/project.json")
    then 10
    else 5

abbrev first_run : Run
first_run = record {
  fleet_root = text "/f";
  config_dir = text "/c";
  now = 5;
  now_iso = text "day 2";
  env = (text "OPENAI_API_KEY", text "k") ∷ [];
  mtime = write_time;
  can_write = λ path. true;
}

abbrev first_result : ConfigSyncApplyResult
first_result = record {
  outcome = all_applied;
  bundle_id = some (text "b1");
  detail = some (text "landed 2/5 dims applied");
}

first_reply :
    (run_config_sync_apply parse_date sha256 git first_run none empty_disk 0).0.0
    ≡ replied first_result
unfolding run_config_sync_apply validate_sync_bundle find_secret_field holds_secret check_fields
    is_str is_dim_unavailable dim_checkers check_keys each check_keys_provider check_provider_fields
    is_keys_provider_field check_employees check_employee member text text_eq fleet_bundle_path get
    land read_applied_manifest resolve_keys_dim resolve_employees_dim trim land_bundle decimal join
    put
first_reply = refl
