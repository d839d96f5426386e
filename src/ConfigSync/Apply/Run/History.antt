-- ===== src/ConfigSync/Apply/Run/History.antt =====
-- What holds over any sequence of runs.
use tri_mc.Prelude.{
  ℕ, ◌≤◌, ◌≡◌, refl, ◌∙◌, subst, ◌⊎◌, inl, inr, true, false, Option, none, some, List, [], ◌∷◌,
  arith, Bool-cases, Option-cases, ltb, All,
}
use tri_mc.Prelude.Text.{Text}
use tri_mc.Map.{Map, get-put_self}
use tri_mc.Json.{Json, Fields}
use tri_mc.ConfigSync.{DimKey, dim_keys, dim_name}
use tri_mc.ConfigSync.Validate.Verdict.{valid-Dated}
use tri_mc.ConfigSync.Canonical.{compute_content_hash, dim_of}
use tri_mc.ConfigSync.Store.{AppliedDimStatus, AppliedManifest, File, Disk, applied_manifest_path}
use tri_mc.ConfigSync.Store.Fresh.{manifest_on_disk}
use tri_mc.ConfigSync.Apply.{generated_at_of, GitExecResult}
use tri_mc.ConfigSync.Apply.Landing.{
  Run, write_manifest, write_dim, manifest_for, land_dims, land_bundle, Landed,
}
use tri_mc.ConfigSync.Apply.Run.{Reply, finish, with_warning, run_config_sync_apply}
use tri_mc.ConfigSync.Apply.Run.Effect.{
  Accepted, IsNews, Effect, untouched, not_warned, warned, landed, run-Effect,
}

-- A written manifest is what the disk has, and the manifest stays when dimensions are written.
pub manifest_written :
    (run : Run) (m : AppliedManifest) (disk disk' : Disk)
    → write_manifest run m disk ≡ some disk'
    → manifest_on_disk run.config_dir disk' ≡ some m
unfolding manifest_on_disk
manifest_written run m disk disk' e =
    elim (Bool-cases (run.can_write (applied_manifest_path run.config_dir))) [
      | inl c ↦
          let q : some _ ≡ some disk' = rw c at e in
          let r = some-injective _ disk' q in
          rw (← r) (rw (get-put_self disk.manifests (applied_manifest_path run.config_dir) _) refl)
      | inr c ↦ let q : none ≡ some disk' = rw c at e in cc q
    ]
  where
    some-injective : {A : Type 0} (a b : A) → some a ≡ some b → a ≡ b
    some-injective a b e = cc e

write_dim-manifests :
    (run : Run) (dim : DimKey) (v : Json) (disk disk' : Disk)
    → write_dim run dim v disk ≡ some disk'
    → disk'.manifests ≡ disk.manifests
write_dim-manifests run dim v disk disk' e = ground arith

pub land_dims-manifests :
    (run : Run) (bundle : Fields) (dims : List DimKey) (disk : Disk)
    → (land_dims run bundle dims disk).0.manifests ≡ disk.manifests
unfolding land_dims
land_dims-manifests run bundle [] disk = refl
land_dims-manifests run bundle (dim ∷ dims) disk =
    elim (Option-cases (write_dim run dim (dim_of bundle (dim_name dim)) disk)) [
      | inl e ↦ rw e refl
      | inr (disk', e) ↦
          rw e
            (land_dims-manifests run bundle dims disk' ∙ write_dim-manifests run dim _ disk disk' e)
    ]

-- The applied manifest is of the time `n` or later.
abbrev pub AppliedSince : (Text → Option ℕ) → ℕ → Text → Disk → Type 0
AppliedSince parse_date n config_dir disk =
    (m : AppliedManifest) × (manifest_on_disk config_dir disk ≡ some m)
    × (k : ℕ) × (parse_date m.generated_at ≡ some k)
    × (n ≤ k)

module _ (parse_date : Text → Option ℕ) (sha256 : Text → Text) where
  Accepted-Dated :
      (run : Run) (disk : Disk) (bundle : Fields)
      → Accepted parse_date run disk bundle
      → (t : ℕ) × (parse_date (generated_at_of bundle) ≡ some t)
  Accepted-Dated run disk bundle ok =
      let (s, q, t, d) = valid-Dated parse_date ok.raw bundle ok.passes in (t, rw q d)

  pub land_bundle-manifest :
      (run : Run) (bundle : Fields) (hash : Text) (dims : DimKey → AppliedDimStatus)
      (ws : List Text) (disk : Disk)
      → let after = manifest_on_disk run.config_dir (land_bundle run bundle hash dims ws disk).0 in
        (after ≡ manifest_on_disk run.config_dir disk)
        ⊎ (after ≡ some (manifest_for run bundle hash dims ws))
  unfolding land_bundle
  land_bundle-manifest run bundle hash dims ws disk =
      elim (Option-cases (write_manifest run (manifest_for run bundle hash dims ws) disk)) [
        | inl e ↦ rw e (inl refl)
        | inr (disk', e) ↦
            let kept = land_dims-manifests run bundle dim_keys disk' in
            let same : manifest_on_disk run.config_dir (land_dims run bundle dim_keys disk').0
                ≡ manifest_on_disk run.config_dir disk' =
              unfold manifest_on_disk in rw kept refl in
            rw e (inr (same ∙ manifest_written run _ disk disk' e))
      ]

  -- Both replies of a landing have the disk that was written.
  finish-disk :
      (bundle : Fields) (dims : DimKey → AppliedDimStatus) (l : Landed)
      → (finish bundle dims l).1 ≡ l.0
  finish-disk bundle dims (disk, true) = refl
  finish-disk bundle dims (disk, false) = refl

  Effect-AppliedSince :
      (n : ℕ) (run : Run) (disk : Disk) (r : Reply × Disk)
      → Effect parse_date sha256 run disk r
      → AppliedSince parse_date n run.config_dir disk
      → AppliedSince parse_date n run.config_dir r.1
  Effect-AppliedSince n run disk r (untouched reply quiet) since = since
  Effect-AppliedSince n run disk r not_warned since = since
  Effect-AppliedSince n run disk r (warned bundle m w reply disk' ok there old o e) since =
      let (m', there', k, date, le) = since in
      let one : m ≡ m' = cc (there, there') in
      (with_warning m w, manifest_written run _ disk disk' e, k, rw one date, le)
  Effect-AppliedSince n run disk r (landed bundle dims ws ok news) since =
      let l = land_bundle run bundle (compute_content_hash sha256 bundle) dims ws disk in
      let (m, there, k, date, le) = since in
      let (t, dated) = Accepted-Dated run disk bundle ok in
      let about : IsNews parse_date bundle (some m) = rw there at news in
      let newer : ltb t k ≡ false = rw (dated, date) at about.1 in
      rw (finish-disk bundle dims l) (elim (land_bundle-manifest run bundle _ dims ws disk) [
        | inl same ↦ (m, same ∙ there, k, date, le)
        | inr now ↦ (manifest_for run bundle _ dims ws, now, t, dated, ground arith)
      ])

  module _ {G : Type 0} (git : G → List Text → GitExecResult × G) where
    -- The job runs on each occasion, on a work tree that anything may have happened to.
    unfoldable pub runs : List (Run × Map (File Json)) → Disk → G → Disk × G
    runs [] disk g = (disk, g)
    runs ((run, bundles) ∷ rest) disk g =
        let (reply, g') =
          run_config_sync_apply parse_date sha256 git run none (record disk { bundles = bundles })
            g in
        runs rest reply.1 g'

    -- The applied configuration never goes back in time: once one of a known date is applied, every
    -- sequence of runs in the directory, whatever bundles they meet and whichever of their writes
    -- fail, leaves one applied whose date is known and not earlier.
    pub runs-AppliedSince :
        (n : ℕ) (config_dir : Text) (occasions : List (Run × Map (File Json))) (disk : Disk) (g : G)
        → All (λ o. o.0.config_dir ≡ config_dir) occasions
        → AppliedSince parse_date n config_dir disk
        → AppliedSince parse_date n config_dir (runs occasions disk g).0
    unfolding runs
    runs-AppliedSince n config_dir [] disk g here since = since
    runs-AppliedSince n config_dir ((run, bundles) ∷ rest) disk g here since =
        let start : Disk = record disk { bundles = bundles } in
        let r = run_config_sync_apply parse_date sha256 git run none start g in
        let effect = run-Effect parse_date sha256 git run none start g in
        let moved : AppliedSince parse_date n run.config_dir start =
          unfold manifest_on_disk in rw here.0 since in
        let next = Effect-AppliedSince n run start r.0 effect moved in
        runs-AppliedSince n config_dir rest r.0.1 r.1 here.1
          (subst (λ d. AppliedSince parse_date n d r.0.1) here.0 next)
