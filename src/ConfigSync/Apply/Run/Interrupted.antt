-- ===== src/ConfigSync/Apply/Run/Interrupted.antt =====
-- What becomes of a bundle when a file of a dimension cannot be written.
use tri_mc.Prelude.{
  ℕ, ◌≡◌, refl, ap, ◌∙◌, inl, inr, true, false, Option, none, some, List, arith, Option-cases,
}
use tri_mc.Prelude.Text.{Text, text_eq-cases}
use tri_mc.Map.{get}
use tri_mc.Json.{Fields}
use tri_mc.ConfigSync.{DimKey, dim_keys, dim_name}
use tri_mc.ConfigSync.Canonical.{compute_content_hash}
use tri_mc.ConfigSync.Store.{
  AppliedDimStatus, AppliedManifest, Disk, AppliedCache, applied_manifest_path, dim_file_path,
}
use tri_mc.ConfigSync.Store.Fresh.{manifest_on_disk}
use tri_mc.ConfigSync.Apply.{
  no_op, ConfigSyncApplyResult, bundle_id_of, compare_with_applied, proceed, GitExecResult,
}
use tri_mc.ConfigSync.Apply.Landing.{
  Run, write_manifest, manifest_for, land_dims, land_bundle, Landed,
}
use tri_mc.ConfigSync.Apply.Run.{
  replied, thrown, finish, land, settle, settle_version, run_config_sync_apply,
}
use tri_mc.ConfigSync.Apply.Run.Effect.{Accepted, IsNews}
use tri_mc.ConfigSync.Apply.Run.History.{manifest_written, land_dims-manifests}
use tri_mc.ConfigSync.Apply.Run.Files.{land_dims-kept, land_dims-stopped}
use tri_mc.ConfigSync.Apply.Run.Repeats.{
  HasManifest, all_dims, land_dims-bundles, Accepted-run, repeated,
}

thrown_after :
    (bundle : Fields) (dims : DimKey → AppliedDimStatus) (l : Landed)
    → l.1 ≡ false
    → finish bundle dims l ≡ (thrown, l.0)
thrown_after bundle dims (disk, true) e = cc e
thrown_after bundle dims (disk, false) e = refl

-- What a landing leaves that writes the manifest and fails at a dimension.
module _ (run : Run) (bundle : Fields) (hash : Text) (dims : DimKey → AppliedDimStatus)
    (ws : List Text) (disk : Disk) (d : DimKey) where
  land_bundle-partial :
      run.can_write (applied_manifest_path run.config_dir) ≡ true
      → run.can_write (dim_file_path run.config_dir (dim_name d)) ≡ false
      → let l = land_bundle run bundle hash dims ws disk in
        (l.1 ≡ false)
        × HasManifest run.config_dir bundle l.0
        × (get l.0.documents (dim_file_path run.config_dir (dim_name d))
            ≡ get disk.documents (dim_file_path run.config_dir (dim_name d)))
        × (l.0.bundles ≡ disk.bundles)
  unfolding land_bundle
  land_bundle-partial cm cd =
      let m = manifest_for run bundle hash dims ws in
      elim (Option-cases (write_manifest run m disk)) [
        | inl e ↦ (let q : some _ ≡ none = rw cm at e in cc q)
        | inr (disk', e) ↦
            let kept = land_dims-manifests run bundle dim_keys disk' in
            let there : manifest_on_disk run.config_dir (land_dims run bundle dim_keys disk').0
                ≡ manifest_on_disk run.config_dir disk' =
              unfold manifest_on_disk in rw kept refl in
            let docs : disk'.documents ≡ disk.documents = ground arith in
            let same : disk'.bundles ≡ disk.bundles = ground arith in
            rw e (
              land_dims-stopped run bundle dim_keys d disk' (all_dims d) cd,
              (m, there ∙ manifest_written run m disk disk' e, refl),
              land_dims-kept run bundle dim_keys _ disk' cd
                  ∙ ap (λ f. get f (dim_file_path run.config_dir (dim_name d))) docs,
              land_dims-bundles run bundle dim_keys disk' ∙ same,
            )
      ]

  failed_landing :
      run.can_write (applied_manifest_path run.config_dir) ≡ true
      → run.can_write (dim_file_path run.config_dir (dim_name d)) ≡ false
      → let x = finish bundle dims (land_bundle run bundle hash dims ws disk) in
        (x.0 ≡ thrown)
        × HasManifest run.config_dir bundle x.1
        × (get x.1.documents (dim_file_path run.config_dir (dim_name d))
            ≡ get disk.documents (dim_file_path run.config_dir (dim_name d)))
        × (x.1.bundles ≡ disk.bundles)
  failed_landing cm cd =
      let (stopped, m, docs, kept) = land_bundle-partial cm cd in
      rw (thrown_after bundle dims (land_bundle run bundle hash dims ws disk) stopped)
        (refl, m, docs, kept)

module _ (parse_date : Text → Option ℕ) (sha256 : Text → Text) where
  module _ {G : Type 0} (git : G → List Text → GitExecResult × G) where
    news_land :
        (run : Run) (disk : Disk) (g : G) (bundle : Fields) (o : Option AppliedManifest)
        → IsNews parse_date bundle o
        → settle_version parse_date sha256 git run bundle o disk g
          ≡ land parse_date sha256 git run bundle disk g
    news_land run disk g bundle none news = refl
    news_land run disk g bundle (some m) news =
        elim (text_eq-cases (bundle_id_of bundle) m.bundle_id) [
          | inl (t, q) ↦ absurd (news.0 q)
          | inr (t, n) ↦
              let on : compare_with_applied parse_date bundle (compute_content_hash sha256 bundle) m
                  ≡ proceed =
                unfold compare_with_applied in rw (t, news.1) refl in
              rw on (unfold settle in refl)
        ]

    -- A bundle is lost when a run writes the manifest and then fails at a dimension: the run throws,
    -- and every further run on the same work tree and directory, with all paths writable again,
    -- replies that the bundle is applied and leaves the disk as it is, the file of that dimension
    -- as it was before the first run.
    pub lost_dim :
        (run : Run) (cache : AppliedCache) (disk : Disk) (g : G) (bundle : Fields) (d : DimKey)
        → Accepted parse_date run disk bundle
        → IsNews parse_date bundle (manifest_on_disk run.config_dir disk)
        → run.can_write (applied_manifest_path run.config_dir) ≡ true
        → run.can_write (dim_file_path run.config_dir (dim_name d)) ≡ false
        → (again : Run) (cache' : AppliedCache) (g' : G) → again.fleet_root ≡ run.fleet_root
        → again.config_dir ≡ run.config_dir
        → let first = (run_config_sync_apply parse_date sha256 git run cache disk g).0 in
          let next = (run_config_sync_apply parse_date sha256 git again cache' first.1 g').0 in
          let path = dim_file_path run.config_dir (dim_name d) in
          (first.0 ≡ thrown)
          × ((r : ConfigSyncApplyResult) × (next.0 ≡ replied r)
              × (r.outcome ≡ no_op)
              × (next.1 ≡ first.1))
          × (get next.1.documents path ≡ get disk.documents path)
    lost_dim run cache disk g bundle d ok news cm cd again cache' g' root dir =
        let first = (run_config_sync_apply parse_date sha256 git run cache disk g).0 in
        let (threw, m, docs, kept) = first_run in
        let ok' : Accepted parse_date again first.1 bundle = record {
          file = ok.file;
          raw = ok.raw;
          there = rw (root, kept) ok.there;
          parsed = ok.parsed;
          passes = ok.passes;
        } in
        let (r, replies, out, same) =
          repeated parse_date sha256 git again cache' first.1 g' bundle ok' (rw dir m) in
        (threw, (r, replies, out, same), rw same docs)
      where
        first_run :
            let first = (run_config_sync_apply parse_date sha256 git run cache disk g).0 in
            let path = dim_file_path run.config_dir (dim_name d) in
            (first.0 ≡ thrown)
            × HasManifest run.config_dir bundle first.1
            × (get first.1.documents path ≡ get disk.documents path)
            × (first.1.bundles ≡ disk.bundles)
        first_run =
            rw
              (
                Accepted-run parse_date sha256 git run cache disk g bundle ok,
                news_land run disk g bundle _ news,
              )
              (unfold land in failed_landing run bundle _ _ _ disk d cm cd)
