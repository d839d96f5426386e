-- ===== src/ConfigSync/Validate.antt =====
-- The validator of a bundle (src/config-sync/types.ts, validateSyncBundle). `Date.parse` is a
-- parameter that gives a number of milliseconds counted from the earliest date, so that a date
-- before 1970 has one too, and `none` for `NaN`.
pub mod Steps
pub mod Verdict
use tri_mc.Prelude.{
  ℕ, Bool, true, false, not, ◌&&◌, ◌||◌, Option, none, some, List, [], ◌∷◌, ◌++◌, if◌then◌else◌,
  is_some,
}
use tri_mc.Prelude.Text.{Text, text, text_eq}
use tri_mc.Json.{Json, null, bool, num, str, arr, obj, Fields, member}
use tri_mc.ConfigSync.{
  DimKey, dim_keys, dim_name, is_str, is_dim_unavailable, company, model, keys, employees, project,
}
use tri_mc.ConfigSync.Secrets.{find_secret_field}
use tri_mc.ConfigSync.Checks.{dim_checkers}

-- The reply holds the object itself, which the source only casts.
pub data BundleValidation : Type 0 where
  valid : Fields → BundleValidation
  invalid : (error message : Text) → BundleValidation

-- `v !== 1`
abbrev pub is_one : Option Json → Bool
is_one (some (num n)) = text_eq n (text "1")
is_one _ = false

abbrev pub report : DimKey → Option Text → Option Text → Option Text
report dim (some err) rest = some (dim_name dim ++ (text ": " ++ err))
report dim none rest = rest

-- The loop over the dimensions, and the message of the first that is not in shape.
unfoldable pub check_dims : Fields → List DimKey → Option Text
check_dims fs [] = none
check_dims fs (dim ∷ dims) =
    let rest = check_dims fs dims in
    let value = member fs (dim_name dim) in
    if is_dim_unavailable value then rest else report dim (dim_checkers dim value) rest

abbrev pub answer : Fields → Option Text → BundleValidation
answer fs none = valid fs
answer fs (some message) = invalid (text "bad_dim_shape") message

abbrev pub secret_message : Text → Text
secret_message hit =
    text "bundle contains key-material field at "
    ++ (hit ++ text "（SEC-20260813-001：密钥材料零传输，仅允许配置面 + 指纹）")

abbrev pub unless_secret : Option Text → BundleValidation → BundleValidation
unless_secret (some hit) rest = invalid (text "secret_field_rejected") (secret_message hit)
unless_secret none rest = rest

module _ (parse_date : Text → Option ℕ) where
  unfoldable pub is_date : Option Json → Bool
  is_date (some (str s)) = is_some (parse_date s)
  is_date _ = false

  -- The conditions on an object without a secret.
  unfoldable pub check_fields : Fields → BundleValidation
  unfolding check_dims is_date
  check_fields fs =
      if not (is_one (member fs (text "schemaVersion")))
      then invalid (text "bad_schema_version") (text "schemaVersion must be 1")
      else if not (is_str (member fs (text "bundleId")))
      then invalid (text "bad_bundle_id") (text "bundleId must be a non-empty string")
      else if not (is_str (member fs (text "generatedAt")))
          || not (is_date (member fs (text "generatedAt")))
      then invalid (text "bad_generated_at")
          (text "generatedAt must be a parseable ISO-8601 string")
      else if not (is_str (member fs (text "generatedBy")))
      then invalid (text "bad_generated_by") (text "generatedBy must be a non-empty string")
      else answer fs (check_dims fs dim_keys)

  abbrev pub on_object : Json → BundleValidation
  on_object (obj fs) = check_fields fs
  on_object _ = invalid (text "bad_shape") (text "bundle must be a JSON object")

  unfoldable pub validate_sync_bundle : Json → BundleValidation
  validate_sync_bundle raw = unless_secret (find_secret_field raw (text "$")) (on_object raw)
