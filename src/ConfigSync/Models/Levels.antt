-- ===== src/ConfigSync/Models/Levels.antt =====
-- What the readers of the configuration return after reads and writes in any order, as far as every
-- write gives its file a later time of change than all writes before it.
use tri_mc.Prelude.{
  ℕ, ◌≤◌, ◌<◌, ◌≡◌, ◌≢◌, refl, sym, ◌∙◌, ◌⊎◌, inl, inr, Bool, Option, none, some, [], ◌∷◌, arith,
  Bool-cases, Option-cases, List-cases,
}
use tri_mc.Prelude.Text.{Text, text, trim}
use tri_mc.Map.{get, put}
use tri_mc.Json.{Json}
use tri_mc.ConfigSync.Store.{
  AppliedManifest, File, Disk, cached, AppliedCache, applied_manifest_path, dim_file_path,
  read_applied_manifest,
}
use tri_mc.ConfigSync.Store.Fresh.{
  content_of, itself, manifest_on_disk, Agrees, use_or_fill-content, Agrees-put, Agrees-later,
  Agrees-empty,
}
use tri_mc.ConfigSync.Models.{
  BundleModel, as_model, ModelCache, read_applied_model, resolve_default_model, env_model,
  unless_empty, default_model_fallback,
}

-- The states of the server's caches and the disk, with a time that no file is later than.
pub data Reached : ℕ → Disk → AppliedCache → ModelCache → Type 0 where
  started :
      (t : ℕ) (disk : Disk)
      → ((path : Text) (file : File AppliedManifest)
          → get disk.manifests path ≡ some file
          → file.mtime ≤ t)
      → ((path : Text) (file : File Json) → get disk.documents path ≡ some file → file.mtime ≤ t)
      → Reached t disk none none
  manifest_written :
      {t : ℕ} {disk : Disk} {a : AppliedCache} {m : ModelCache} (path : Text)
      (file : File AppliedManifest)
      → t < file.mtime
      → Reached t disk a m
      → Reached file.mtime (record disk { manifests = put disk.manifests path file }) a m
  document_written :
      {t : ℕ} {disk : Disk} {a : AppliedCache} {m : ModelCache} (path : Text) (file : File Json)
      → t < file.mtime
      → Reached t disk a m
      → Reached file.mtime (record disk { documents = put disk.documents path file }) a m
  manifest_read :
      {t : ℕ} {disk : Disk} {a : AppliedCache} {m : ModelCache} (config_dir : Text)
      (force_fresh : Bool) (now : ℕ)
      → Reached t disk a m
      → Reached t disk (read_applied_manifest config_dir force_fresh now disk a).1 m
  model_read :
      {t : ℕ} {disk : Disk} {a : AppliedCache} {m : ModelCache} (config_dir : Text) (now : ℕ)
      → Reached t disk a m
      → Reached t disk a (read_applied_model config_dir now disk m).1

-- The model of the applied bundle, as its file has it.
pub model_on_disk : Text → Disk → Option BundleModel
model_on_disk config_dir disk =
    content_of as_model (get disk.documents (dim_file_path config_dir (text "model")))

abbrev ManifestsAgree : ℕ → Disk → AppliedCache → Type 0
ManifestsAgree t disk a = Agrees itself t disk.manifests a

abbrev ModelsAgree : ℕ → Disk → ModelCache → Type 0
ModelsAgree t disk m = Agrees as_model t disk.documents m

read_manifest_agrees :
    (t : ℕ) (disk : Disk) (a : AppliedCache) (config_dir : Text) (force_fresh : Bool) (now : ℕ)
    → ManifestsAgree t disk a
    → let r = read_applied_manifest config_dir force_fresh now disk a in
      (r.0 ≡ manifest_on_disk config_dir disk) × ManifestsAgree t disk r.1
unfolding read_applied_manifest manifest_on_disk
read_manifest_agrees t disk a config_dir force_fresh now h =
    let path = applied_manifest_path config_dir in
    elim (Option-cases (get disk.manifests path)) [
      | inl e ↦ rw e (refl, Agrees-empty itself t disk.manifests h.past)
      | inr (file, e) ↦ elim (Bool-cases force_fresh) [
        | inl f ↦
            rw (e, f)
              (use_or_fill-content itself t disk.manifests a path file now none h e (inl refl))
        | inr f ↦
            rw (e, f)
              (use_or_fill-content itself t disk.manifests a path file now
                (cached a path file.mtime now) h e (inr refl))
      ]
    ]

read_model_agrees :
    (t : ℕ) (disk : Disk) (m : ModelCache) (config_dir : Text) (now : ℕ)
    → ModelsAgree t disk m
    → let r = read_applied_model config_dir now disk m in
      (r.0 ≡ model_on_disk config_dir disk) × ModelsAgree t disk r.1
unfolding read_applied_model model_on_disk
read_model_agrees t disk m config_dir now h =
    let path = dim_file_path config_dir (text "model") in
    elim (Option-cases (get disk.documents path)) [
      | inl e ↦ rw e (refl, h)
      | inr (file, e) ↦ rw e (
          use_or_fill-content as_model t disk.documents m path file now
            (cached m path file.mtime now) h e (inr refl))
    ]

reached_agree :
    (t : ℕ) (disk : Disk) (a : AppliedCache) (m : ModelCache)
    → Reached t disk a m
    → ManifestsAgree t disk a × ModelsAgree t disk m
reached_agree t disk a m (started u d p q) =
    (Agrees-empty itself _ _ p, Agrees-empty as_model _ _ q)
reached_agree t disk a m (manifest_written path file later r) =
    let (h, k) = reached_agree _ _ _ _ r in
    (Agrees-put itself _ _ _ path file later h, Agrees-later as_model _ _ _ _ (omega arith) k)
reached_agree t disk a m (document_written path file later r) =
    let (h, k) = reached_agree _ _ _ _ r in
    (Agrees-later itself _ _ _ _ (omega arith) h, Agrees-put as_model _ _ _ path file later k)
reached_agree t disk a m (manifest_read config_dir force_fresh now r) =
    let (h, k) = reached_agree _ _ _ _ r in
    ((read_manifest_agrees _ _ _ config_dir force_fresh now h).1, k)
reached_agree t disk a m (model_read config_dir now r) =
    let (h, k) = reached_agree _ _ _ _ r in (h, (read_model_agrees _ _ _ config_dir now k).1)

-- In every state that reads and writes lead to, each write at a time later than those before it, the
-- server reads the manifest and the model that are on the disk at that moment, whether or not it is
-- told to pass by its cache, at any time of its clock.
pub reads-Current :
    (t : ℕ) (disk : Disk) (a : AppliedCache) (m : ModelCache)
    → Reached t disk a m
    → (config_dir : Text) (force_fresh : Bool) (now : ℕ)
    → ((read_applied_manifest config_dir force_fresh now disk a).0
        ≡ manifest_on_disk config_dir disk)
      × ((read_applied_model config_dir now disk m).0 ≡ model_on_disk config_dir disk)
reads-Current t disk a m r config_dir force_fresh now =
    let (h, k) = reached_agree t disk a m r in
    (
      (read_manifest_agrees t disk a config_dir force_fresh now h).0,
      (read_model_agrees t disk m config_dir now k).0,
    )

unless_empty-ne : (s rest : Text) → s ≢ [] → unless_empty s rest ≡ s
unless_empty-ne [] rest n = absurd (n refl)
unless_empty-ne (c ∷ s) rest n = refl

chosen_levels :
    (t : ℕ) (disk : Disk) (a : AppliedCache) (m : ModelCache)
    → Reached t disk a m
    → (env : Option Text) (config_dir : Text) (now : ℕ)
    → let chosen = (resolve_default_model env config_dir now disk m).0 in
      (env_model env ≢ [] → chosen ≡ env_model env)
      × (env_model env ≡ []
          → ((bm : BundleModel)
              → model_on_disk config_dir disk ≡ some bm
              → bm.default_model ≢ []
              → chosen ≡ bm.default_model)
            × ((bm : BundleModel)
                → model_on_disk config_dir disk ≡ some bm
                → bm.default_model ≡ []
                → chosen ≡ default_model_fallback)
            × (model_on_disk config_dir disk ≡ none → chosen ≡ default_model_fallback))
unfolding resolve_default_model
chosen_levels t disk a m r env config_dir now =
    let current = (read_model_agrees t disk m config_dir now (reached_agree t disk a m r).1).0 in
    elim (List-cases (env_model env)) [
      | inl e ↦
          rw (e, current)
            (
              λ n. absurd (n refl),
              λ q. (
                λ bm o n. rw o (unless_empty-ne bm.default_model _ n),
                λ bm o n. rw (o, n) refl,
                λ o. rw o refl,
              ),
            )
      | inr (c, s, e) ↦ rw e (λ n. refl, λ q. cc q)
    ]

-- The three levels of the default model, in every such state: the environment's variable without the
-- white space around it, if that is not empty; where it is empty or there is no variable, the default
-- of the applied model as it is on the disk, if there is one and it is not empty; else the constant.
pub resolve_default_model-levels :
    (t : ℕ) (disk : Disk) (a : AppliedCache) (m : ModelCache)
    → Reached t disk a m
    → (env : Option Text) (config_dir : Text) (now : ℕ)
    → let chosen = (resolve_default_model env config_dir now disk m).0 in
      ((v : Text) → env ≡ some v → trim v ≢ [] → chosen ≡ trim v)
      × ((env ≡ none) ⊎ ((v : Text) × (env ≡ some v) × (trim v ≡ []))
          → ((bm : BundleModel)
              → model_on_disk config_dir disk ≡ some bm
              → (bm.default_model ≢ [] → chosen ≡ bm.default_model)
                × (bm.default_model ≡ [] → chosen ≡ text "deepseek-v4-pro"))
            × (model_on_disk config_dir disk ≡ none → chosen ≡ text "deepseek-v4-pro"))
unfolding env_model
resolve_default_model-levels t disk a m r env config_dir now =
    let (set, unset) = chosen_levels t disk a m r env config_dir now in
    (
      λ v e n. (let e' : env_model env ≡ trim v = rw e refl in set (λ q. n (sym e' ∙ q)) ∙ e'),
      λ none_set.
          let e : env_model env ≡ [] = elim none_set [
            | inl q ↦ rw q refl
            | inr (v, q, z) ↦ rw q z
          ] in
          let (one, two, three) = unset e in (λ bm o. (one bm o, two bm o), three),
    )
