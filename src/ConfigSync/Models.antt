-- ===== src/ConfigSync/Models.antt =====
-- Which model a request runs on (src/config-sync/default-model.ts): the environment's, then the one
-- of the applied bundle, then a constant. An entry of the catalog is an object, as the validator
-- has it.
pub mod Levels
use tri_mc.Prelude.{ℕ, Bool, true, false, Option, none, some, [], ◌∷◌, if◌then◌else◌}
use tri_mc.Prelude.Text.{Text, text, trim, lower, includes}
use tri_mc.Map.{Map, get}
use tri_mc.Json.{Json, null, bool, num, str, arr, obj, Items, nil, cons, Fields, member, as_string}
use tri_mc.ConfigSync.{items_of, is_array}
use tri_mc.ConfigSync.Store.{File, Disk, CacheEntry, dim_file_path, cached, use_or_fill}

abbrev pub default_model_fallback : Text
default_model_fallback = text "deepseek-v4-pro"

abbrev pub flash_model_fallback : Text
flash_model_fallback = text "deepseek-v4-flash"

pub record BundleModel : Type 0 where
  pub default_model : Text
  pub catalog : Items

abbrev shaped : Option Text → Option Json → Option BundleModel
shaped (some m) (some (arr xs)) = some (record { default_model = m; catalog = xs })
shaped m catalog = none

-- `parsed as BundleModel`, of a document that has the two fields.
unfoldable pub as_model : Option Json → Option BundleModel
as_model (some (obj fs)) =
    shaped (as_string (member fs (text "defaultModel"))) (member fs (text "catalog"))
as_model _ = none

abbrev pub ModelCache : Type 0
ModelCache = Option (CacheEntry BundleModel)

abbrev pub as_model_file : File Json → File BundleModel
as_model_file file = record { mtime = file.mtime; content = as_model file.content }

-- A file that is not there leaves the cache as it is.
abbrev from_model_file :
    ℕ → Text → ModelCache → Option (File Json) → Option BundleModel × ModelCache
from_model_file now path cache none = (none, cache)
from_model_file now path cache (some file) =
    use_or_fill cache (cached cache path file.mtime now) path (as_model_file file) now

unfoldable pub read_applied_model : Text → ℕ → Disk → ModelCache → Option BundleModel × ModelCache
unfolding dim_file_path as_model
read_applied_model config_dir now disk cache =
    let path = dim_file_path config_dir (text "model") in
    from_model_file now path cache (get disk.documents path)

-- `if (t) return t`, else the rest.
abbrev pub unless_empty : Text → Text → Text
unless_empty [] rest = rest
unless_empty (c ∷ t) rest = c ∷ t

abbrev applied_default : Option BundleModel → Text
applied_default none = default_model_fallback
applied_default (some m) = unless_empty m.default_model default_model_fallback

-- `process.env.TRIMC_DEFAULT_MODEL?.trim()`, empty for a variable that is not set.
unfoldable pub env_model : Option Text → Text
env_model none = []
env_model (some t) = trim t

abbrev choose_default : Text → Option BundleModel × ModelCache → ModelCache → Text × ModelCache
choose_default (c ∷ t) read cache = (c ∷ t, cache)
choose_default [] read cache = (applied_default read.0, read.1)

unfoldable pub resolve_default_model :
    Option Text → Text → ℕ → Disk → ModelCache → Text × ModelCache
resolve_default_model env config_dir now disk cache =
    choose_default (env_model env) (read_applied_model config_dir now disk cache) cache

abbrev pub id_of : Json → Text
id_of (obj fs) = id_text (as_string (member fs (text "id")))
  where
    id_text : Option Text → Text
    id_text (some t) = t
    id_text none = []
id_of _ = []

-- `/flash/i.test(entry.id)`
abbrev pub is_flash : Json → Bool
is_flash entry = includes (lower (id_of entry)) (text "flash")

-- The identifier of the first entry that the test finds.
unfoldable pub find_flash : Items → Text
find_flash nil = []
find_flash (cons x xs) = let rest = find_flash xs in if is_flash x then id_of x else rest

abbrev applied_flash : Option BundleModel → Text
applied_flash none = flash_model_fallback
applied_flash (some m) = unless_empty (find_flash m.catalog) flash_model_fallback

unfoldable pub resolve_flash_model : Text → ℕ → Disk → ModelCache → Text × ModelCache
unfolding find_flash
resolve_flash_model config_dir now disk cache =
    let (model, cache') = read_applied_model config_dir now disk cache in
    (applied_flash model, cache')
