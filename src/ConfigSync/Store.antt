-- ===== src/ConfigSync/Store.antt =====
-- The files that the configuration is kept in, and the reader of the applied manifest with its
-- cache (src/config-sync/types.ts, AppliedManifest; status.ts). A disk holds the manifests, the
-- files of the dimensions and the bundles in the work trees, each by its path. The time is that of the system's clock.
pub mod Fresh
use tri_mc.Prelude.{
  ℕ, ◌-◌, Bool, true, false, not, ◌&&◌, Option, none, some, List, ◌++◌, if◌then◌else◌, ltb, ◌==◌,
}
use tri_mc.Prelude.Text.{Text, text, text_eq}
use tri_mc.Map.{Map, get}
use tri_mc.Json.{Json}
use tri_mc.ConfigSync.{DimKey}

pub data AppliedDimStatus : Type 0 where
  applied unavailable warning : AppliedDimStatus

pub record AppliedManifest : Type 0 where
  pub bundle_id : Text
  pub generated_at : Text
  pub content_hash : Text
  pub source_instance_id : Text
  pub last_applied_at : Text
  pub dims : DimKey → AppliedDimStatus
  pub warnings : Option (List Text)

-- A file that is there; no content when its text is not JSON, or is not of the kind.
pub record File (A : Type 0) : Type 0 where
  pub mtime : ℕ
  pub content : Option A

pub record Disk : Type 0 where
  pub manifests : Map (File AppliedManifest)
  pub documents : Map (File Json)
  pub bundles : Map (File Json)

-- `join(a, b)`, of a path in normal form and a name.
abbrev pub join_path : Text → Text → Text
join_path a b = a ++ (text "/" ++ b)

unfoldable pub fleet_bundle_path : Text → Text
fleet_bundle_path fleet_root =
    join_path fleet_root (text "TriMetaverse/docs/registry/init-sync/sync-config.json")

abbrev pub init_sync_dir : Text → Text
init_sync_dir config_dir = join_path config_dir (text "init-sync")

unfoldable pub applied_manifest_path : Text → Text
applied_manifest_path config_dir = join_path (init_sync_dir config_dir) (text "applied.json")

unfoldable pub dim_file_path : Text → Text → Text
dim_file_path config_dir dim = join_path (init_sync_dir config_dir) (dim ++ text ".json")

-- `{ path, entry }`, of the two modules that keep such a cache.
pub record CacheEntry (A : Type 0) : Type 0 where
  pub path : Text
  pub mtime : ℕ
  pub read_at : ℕ
  pub value : Option A

abbrev pub cache_ttl : ℕ
cache_ttl = 10000

-- A clock that went back makes the entry's age negative in the source and 0 here; both are less
-- than the limit.
abbrev pub is_fresh : {A : Type 0} → CacheEntry A → Text → ℕ → ℕ → Bool
is_fresh e path mtime now =
    text_eq e.path path && e.mtime == mtime && ltb (now - e.read_at) cache_ttl

-- The cached value, if there is one that may be used.
abbrev pub cached : {A : Type 0} → Option (CacheEntry A) → Text → ℕ → ℕ → Option (Option A)
cached none path mtime now = none
cached (some e) path mtime now = if is_fresh e path mtime now then some e.value else none

abbrev pub fill : {A : Type 0} → Text → File A → ℕ → Option A × Option (CacheEntry A)
fill path file now = (
  file.content,
  some (record { path = path; mtime = file.mtime; read_at = now; value = file.content }),
)

abbrev pub use_or_fill :
    {A : Type 0}
    → Option (CacheEntry A)
    → Option (Option A)
    → Text
    → File A
    → ℕ
    → Option A × Option (CacheEntry A)
use_or_fill cache (some v) path file now = (v, cache)
use_or_fill cache none path file now = fill path file now

abbrev from_file :
    {A : Type 0}
    → Bool
    → ℕ
    → Text
    → Option (CacheEntry A)
    → Option (File A)
    → Option A × Option (CacheEntry A)
from_file force_fresh now path cache none = (none, none)
from_file force_fresh now path cache (some file) =
    use_or_fill cache (if force_fresh then none else cached cache path file.mtime now) path file now

abbrev pub AppliedCache : Type 0
AppliedCache = Option (CacheEntry AppliedManifest)

-- The manifest, and the cache afterwards.
unfoldable pub read_applied_manifest :
    Text → Bool → ℕ → Disk → AppliedCache → Option AppliedManifest × AppliedCache
unfolding applied_manifest_path
read_applied_manifest config_dir force_fresh now disk cache =
    let path = applied_manifest_path config_dir in
    from_file force_fresh now path cache (get disk.manifests path)
