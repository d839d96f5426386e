-- ===== src/ConfigSync/Apply.antt =====
-- The job that applies a bundle (src/config-sync/apply.ts). The runner of git, whose calls change
-- the repository that it runs in, is a parameter with a state of its own; a run may find that a path
-- cannot be written, where the source throws.
pub mod Landing
pub mod Resolved
pub mod Run
use tri_mc.Prelude.{
  ℕ, Bool, true, false, not, ◌&&◌, Option, none, some, List, [], ◌∷◌, ◌++◌, if◌then◌else◌, ltb,
  ◌==◌, get_or, length, keep_if,
}
use tri_mc.Prelude.Text.{Text, text, text_eq, trim, join, decimal}
use tri_mc.Map.{Map, get, put}
use tri_mc.Json.{Json, null, bool, num, str, arr, obj, Items, nil, cons, Fields, member, as_string}
use tri_mc.ConfigSync.{
  DimKey, company, model, keys, employees, project, dim_keys, dim_name, items_of, fields_of,
  is_dim_unavailable,
}
use tri_mc.ConfigSync.Validate.{valid, invalid, BundleValidation, validate_sync_bundle}
use tri_mc.ConfigSync.Canonical.{compute_content_hash, dim_of}
use tri_mc.ConfigSync.Store.{
  AppliedDimStatus, applied, unavailable, warning, AppliedManifest, File, Disk, join_path,
  fleet_bundle_path, applied_manifest_path, dim_file_path, AppliedCache, read_applied_manifest,
}

pub data ConfigSyncApplyOutcome : Type 0 where
  no_bundle no_op all_applied ignored_stale warning_stale invalid_bundle : ConfigSyncApplyOutcome

pub record ConfigSyncApplyResult : Type 0 where
  pub outcome : ConfigSyncApplyOutcome
  pub bundle_id : Option Text
  pub detail : Option Text

-- `bundle.k`, for a text field that every bundle has which was let through.
abbrev pub text_of : Fields → Text → Text
text_of fs k = get_or (as_string (member fs k)) []

abbrev pub bundle_id_of : Fields → Text
bundle_id_of bundle = text_of bundle (text "bundleId")

abbrev pub generated_at_of : Fields → Text
generated_at_of bundle = text_of bundle (text "generatedAt")

abbrev pub generated_by_of : Fields → Text
generated_by_of bundle = text_of bundle (text "generatedBy")

pub data VersionCompare : Type 0 where
  proceed : VersionCompare
  same_bundle : VersionCompare
  ignore : (detail : Text) (warning : Option Text) → VersionCompare

abbrev older : Text → Text → Text
older a b = text "older generatedAt (" ++ (a ++ (text " < " ++ (b ++ text ")")))

-- Whether the first of two dates, both known, is before the second.
abbrev pub before : Option ℕ → Option ℕ → Bool
before (some a) (some b) = ltb a b
before _ _ = false

module _ (parse_date : Text → Option ℕ) where
  unfoldable pub compare_with_applied : Fields → Text → AppliedManifest → VersionCompare
  compare_with_applied bundle content_hash m =
      if text_eq (bundle_id_of bundle) m.bundle_id
      then same_bundle
      else if not (before (parse_date (generated_at_of bundle)) (parse_date m.generated_at))
      then proceed
      else if not (text_eq content_hash m.content_hash)
      then ignore
          (older (generated_at_of bundle) m.generated_at
            ++ text " with different contentHash — 告警不动作（时钟回拨/多机写，MVP 记日志）")
          (some (text "stale-bundle-content-hash-differs"))
      else if not (text_eq (generated_by_of bundle) m.source_instance_id)
      then ignore
          (text "older generatedAt from different sourceInstanceId ("
            ++ (generated_by_of bundle
                ++ (text " vs " ++ (m.source_instance_id ++ text ") — 多实例初始化挂起标记（MVP 记日志）"))))
          (some (text "stale-bundle-source-instance-differs"))
      else ignore (older (generated_at_of bundle) m.generated_at ++ text " — 忽略") none

-- `PROVIDER_ENV_KEYS`
abbrev pub provider_env_keys : Map Text
provider_env_keys =
    (text "deepseek", text "DEEPSEEK_API_KEY")
    ∷ (text "anthropic", text "ANTHROPIC_API_KEY")
    ∷ (text "openai", text "OPENAI_API_KEY")
    ∷ (text "trimetaverse", text "TRIMODEL_TRIMETAVERSE_API_KEY")
    ∷ []

abbrev has_material : Option Text → Bool
has_material none = false
has_material (some v) = is_not_empty (trim v)
  where
    is_not_empty : Text → Bool
    is_not_empty [] = false
    is_not_empty (c ∷ s) = true

abbrev look_up : Map Text → Option Text → Option Text
look_up env none = none
look_up env (some key) = get env key

unfoldable pub is_covered : Map Text → Text → Bool
is_covered env provider = has_material (look_up env (get provider_env_keys provider))

-- `entry.provider`
abbrev pub provider_of : Json → Text
provider_of (obj fs) = text_of fs (text "provider")
provider_of _ = []

-- The loop over the providers.
unfoldable pub uncovered_in : Map Text → Items → List Text
uncovered_in env nil = []
uncovered_in env (cons p ps) =
    let rest = uncovered_in env ps in
    if is_covered env (provider_of p) then rest else provider_of p ∷ rest

pub record DimResult : Type 0 where
  pub status : AppliedDimStatus
  pub detail : Option Text

abbrev member_of : Option Fields → Text → Option Json
member_of none k = none
member_of (some fs) k = member fs k

abbrev pub field_of : Fields → DimKey → Text → Option Json
field_of bundle dim k = member_of (fields_of (member bundle (dim_name dim))) k

abbrev keys_result : List Text → DimResult
keys_result [] = record { status = applied; detail = none }
keys_result (p ∷ ps) = record {
  status = warning;
  detail = some (
      text "keys providers not covered by server env: "
      ++ (join (text ", ") (p ∷ ps) ++ text "（配置面+指纹已落，材料待 env 提供）"));
}

unfoldable pub resolve_keys_dim : Fields → Map Text → DimResult
unfolding uncovered_in is_covered
resolve_keys_dim bundle env =
    if is_dim_unavailable (member bundle (text "keys"))
    then record { status = unavailable; detail = as_string (field_of bundle keys (text "reason")) }
    else keys_result (uncovered_in env (items_of (field_of bundle keys (text "providers"))))

-- The code -1, of a run that did not begin, stands by a number that is not 0.
pub record GitExecResult : Type 0 where
  pub code : ℕ
  pub stdout : Text
  pub stderr : Text
