-- ===== src/ConfigSync/Checks.antt =====
-- The checks of the five dimensions (src/config-sync/types.ts, checkCompany to DIM_CHECKERS): the
-- message of the first condition that fails, `none` when the dimension has the shape.
pub mod Shapes
use tri_mc.Prelude.{
  Bool, true, false, not, ◌&&◌, ◌||◌, Option, none, some, List, [], ◌∷◌, ◌++◌, if◌then◌else◌,
}
use tri_mc.Prelude.Text.{Text, text, text_eq}
use tri_mc.Json.{Json, null, bool, num, str, arr, obj, Items, nil, cons, Fields, end, field, member}
use tri_mc.ConfigSync.{
  DimKey, company, model, keys, employees, project, is_str, is_array, items_of, or_else,
}

-- `isStr(v.k)` of an object.
abbrev pub has_str : Fields → Text → Bool
has_str fs k = is_str (member fs k)

abbrev pub has_array : Fields → Text → Bool
has_array fs k = is_array (member fs k)

abbrev pub is_number : Option Json → Bool
is_number (some (num n)) = true
is_number _ = false

abbrev pub is_boolean : Option Json → Bool
is_boolean (some (bool b)) = true
is_boolean _ = false

-- `v === undefined || typeof v === 'string'`
abbrev pub is_optional_string : Option Json → Bool
is_optional_string none = true
is_optional_string (some (str s)) = true
is_optional_string _ = false

abbrev pub require : Bool → Text → Option Text
require true message = none
require false message = some message

-- `if (!isRecord(v)) return message;`
abbrev pub on_record : Option Json → Text → (Fields → Option Text) → Option Text
on_record (some (obj fs)) message rest = rest fs
on_record _ message rest = some message

-- A loop that returns the first message.
unfoldable pub each : (Json → Option Text) → Items → Option Text
each check nil = none
each check (cons x xs) = or_else (check x) (each check xs)

unfoldable pub check_company : Option Json → Option Text
check_company v = on_record v (text "company must be an object") (λ fs.
    require
      (has_str fs (text "state") && has_str fs (text "ceoName") && has_str fs (text "onboardedAt"))
      (text "company.state/ceoName/onboardedAt must be non-empty strings"))

unfoldable pub check_catalog_entry : Json → Option Text
check_catalog_entry entry =
    on_record (some entry) (text "model.catalog[] needs id + provider strings") (λ fs.
      or_else
        (require (has_str fs (text "id") && has_str fs (text "provider"))
          (text "model.catalog[] needs id + provider strings"))
        (require (has_array fs (text "capabilities"))
          (text "model.catalog[].capabilities must be an array")))

unfoldable pub check_model_provider : Json → Option Text
check_model_provider p =
    on_record (some p) (text "model.providers[].provider must be a string") (λ fs.
      require (has_str fs (text "provider")) (text "model.providers[].provider must be a string"))

unfoldable pub check_model : Option Json → Option Text
check_model v = on_record v (text "model must be an object") (λ fs.
    or_else
      (require (has_str fs (text "defaultModel"))
        (text "model.defaultModel must be a non-empty string"))
      (or_else
        (require (has_array fs (text "catalog") && has_array fs (text "providers"))
          (text "model.catalog/providers must be arrays"))
        (or_else (each check_catalog_entry (items_of (member fs (text "catalog"))))
          (each check_model_provider (items_of (member fs (text "providers")))))))

-- `KEYS_PROVIDER_FIELDS.includes(field)`
unfoldable pub is_keys_provider_field : Text → Bool
is_keys_provider_field k =
    text_eq k (text "provider")
    || text_eq k (text "ready")
    || text_eq k (text "fingerprint")
    || text_eq k (text "baseUrl")

unfoldable pub check_provider_fields : Fields → Option Text
check_provider_fields end = none
check_provider_fields (field k v fs) =
    or_else
      (require (is_keys_provider_field k) (text "keys.providers[] field not whitelisted: " ++ k))
      (check_provider_fields fs)

unfoldable pub check_keys_provider : Json → Option Text
check_keys_provider p = on_record (some p) (text "keys.providers[] must be an object") (λ fs.
    or_else (check_provider_fields fs) (
      or_else
        (require (has_str fs (text "provider") && is_boolean (member fs (text "ready")))
          (text "keys.providers[] needs provider string + ready boolean"))
        (or_else
          (require (is_optional_string (member fs (text "fingerprint")))
            (text "keys.providers[].fingerprint must be a string"))
          (require (is_optional_string (member fs (text "baseUrl")))
            (text "keys.providers[].baseUrl must be a string")))))

unfoldable pub check_keys : Option Json → Option Text
check_keys v = on_record v (text "keys must be an object") (λ fs.
    or_else
      (require
        (has_array fs (text "providers")
          && is_number (member fs (text "refreshIntervalS"))
          && has_str fs (text "fetchedAt"))
        (text "keys.providers[]/refreshIntervalS/fetchedAt shape invalid"))
      (each check_keys_provider (items_of (member fs (text "providers")))))

unfoldable pub check_employee : Json → Option Text
check_employee e = on_record (some e) (text "employees.roster[] needs roleId + name strings") (λ fs.
    require (has_str fs (text "roleId") && has_str fs (text "name"))
      (text "employees.roster[] needs roleId + name strings"))

unfoldable pub check_employees : Option Json → Option Text
check_employees v = on_record v (text "employees must be an object") (λ fs.
    or_else
      (require (has_array fs (text "roster") && has_str fs (text "sourceCommit"))
        (text "employees.roster[]/sourceCommit shape invalid"))
      (each check_employee (items_of (member fs (text "roster")))))

unfoldable pub check_worktree : Json → Option Text
check_worktree wt =
    on_record (some wt) (text "project.worktrees[] needs path + branch strings") (λ fs.
      require (has_str fs (text "path") && has_str fs (text "branch"))
        (text "project.worktrees[] needs path + branch strings"))

unfoldable pub check_project : Option Json → Option Text
check_project v = on_record v (text "project must be an object") (λ fs.
    or_else
      (require
        (has_str fs (text "projectKey")
          && has_str fs (text "repoUrl")
          && has_str fs (text "defaultBranch")
          && has_str fs (text "devHead"))
        (text "project.projectKey/repoUrl/defaultBranch/devHead must be non-empty strings"))
      (or_else
        (require (has_array fs (text "worktrees")) (text "project.worktrees must be an array"))
        (each check_worktree (items_of (member fs (text "worktrees"))))))

-- `DIM_CHECKERS[dim]`
unfoldable pub dim_checkers : DimKey → Option Json → Option Text
dim_checkers company = check_company
dim_checkers model = check_model
dim_checkers keys = check_keys
dim_checkers employees = check_employees
dim_checkers project = check_project
