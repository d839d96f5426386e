-- ===== src/ConfigSync/Apply/Run/Repeats.antt =====
-- What a run leaves when it says that it applied the bundle, and what the next run makes of it.
use tri_mc.Prelude.{
  ℕ, ◌≡◌, refl, sym, ap, ◌∙◌, inl, inr, true, false, Option, some, List, [], ◌∷◌, arith, Bool-cases,
  Option-cases, In,
}
use tri_mc.Prelude.Text.{Text, text_eq, text_eq_iff}
use tri_mc.Json.{Json, null, obj, Fields, end, field, member}
use tri_mc.ConfigSync.{
  DimKey, company, model, keys, employees, project, dim_keys, dim_name, FieldIn,
}
use tri_mc.ConfigSync.Secrets.{Secret, in_field}
use tri_mc.ConfigSync.Validate.Verdict.{valid-Safe}
use tri_mc.ConfigSync.Canonical.{compute_content_hash, dim_of}
use tri_mc.ConfigSync.Store.{AppliedDimStatus, AppliedManifest, Disk, AppliedCache}
use tri_mc.ConfigSync.Store.Fresh.{manifest_on_disk, read_applied_manifest-forced}
use tri_mc.ConfigSync.Apply.{
  all_applied, no_op, ConfigSyncApplyResult, bundle_id_of, compare_with_applied, same_bundle,
  GitExecResult,
}
use tri_mc.ConfigSync.Apply.Landing.{
  Run, write_manifest, write_dim, manifest_for, land_dims, land_bundle, Landed,
}
use tri_mc.ConfigSync.Apply.Run.{
  Reply, replied, finish, settle, settle_version, run_config_sync_apply,
}
use tri_mc.ConfigSync.Apply.Run.Effect.{
  is_quiet, Accepted, Effect, untouched, not_warned, warned, landed, run-Effect,
}
use tri_mc.ConfigSync.Apply.Run.History.{manifest_written, land_dims-manifests}
use tri_mc.ConfigSync.Apply.Run.Files.{Holds, land_dims-Holds}

-- The manifest on the disk is that of the bundle.
abbrev pub HasManifest : Text → Fields → Disk → Type 0
HasManifest config_dir bundle disk =
    (m : AppliedManifest) × (manifest_on_disk config_dir disk ≡ some m)
    × (m.bundle_id ≡ bundle_id_of bundle)

pub land_dims-bundles :
    (run : Run) (bundle : Fields) (dims : List DimKey) (disk : Disk)
    → (land_dims run bundle dims disk).0.bundles ≡ disk.bundles
unfolding land_dims
land_dims-bundles run bundle [] disk = refl
land_dims-bundles run bundle (dim ∷ dims) disk =
    elim (Option-cases (write_dim run dim (dim_of bundle (dim_name dim)) disk)) [
      | inl e ↦ rw e refl
      | inr (disk', e) ↦ rw e (land_dims-bundles run bundle dims disk' ∙ same disk' e)
    ]
  where
    same :
        (disk' : Disk)
        → write_dim run dim (dim_of bundle (dim_name dim)) disk ≡ some disk'
        → disk'.bundles ≡ disk.bundles
    same disk' e = ground arith

pub all_dims : (d : DimKey) → In d dim_keys
all_dims company = inl refl
all_dims model = inr (inl refl)
all_dims keys = inr (inr (inl refl))
all_dims employees = inr (inr (inr (inl refl)))
all_dims project = inr (inr (inr (inr (inl refl))))

land_bundle-whole :
    (run : Run) (bundle : Fields) (hash : Text) (dims : DimKey → AppliedDimStatus) (ws : List Text)
    (disk : Disk)
    → let l = land_bundle run bundle hash dims ws disk in
      l.1 ≡ true
      → HasManifest run.config_dir bundle l.0
        × ((d : DimKey) → Holds run.config_dir bundle d l.0)
        × (l.0.bundles ≡ disk.bundles)
unfolding land_bundle
land_bundle-whole run bundle hash dims ws disk ok =
    let m = manifest_for run bundle hash dims ws in
    elim (Option-cases (write_manifest run m disk)) [
      | inl e ↦ (let q : false ≡ true = rw e at ok in cc q)
      | inr (disk', e) ↦
          let done : (land_dims run bundle dim_keys disk').1 ≡ true = rw e at ok in
          let kept = land_dims-manifests run bundle dim_keys disk' in
          let there : manifest_on_disk run.config_dir (land_dims run bundle dim_keys disk').0
              ≡ manifest_on_disk run.config_dir disk' =
            unfold manifest_on_disk in rw kept refl in
          let same : disk'.bundles ≡ disk.bundles = ground arith in
          rw e (
            (m, there ∙ manifest_written run m disk disk' e, refl),
            λ d. land_dims-Holds run bundle dim_keys d disk' done (inl (all_dims d)),
            land_dims-bundles run bundle dim_keys disk' ∙ same,
          )
    ]

finish-applied :
    (bundle : Fields) (dims : DimKey → AppliedDimStatus) (l : Landed) (r : ConfigSyncApplyResult)
    → (finish bundle dims l).0 ≡ replied r
    → (l.1 ≡ true) × ((finish bundle dims l).1 ≡ l.0)
finish-applied bundle dims (disk, true) r e = (refl, refl)
finish-applied bundle dims (disk, false) r e = cc e

member-FieldIn : (fs : Fields) (k : Text) (v : Json) → member fs k ≡ some v → FieldIn k v fs
unfolding member
member-FieldIn end k v e = cc e
member-FieldIn (field j w fs) k v e = elim (Bool-cases (text_eq j k)) [
  | inl t ↦ (let q : some w ≡ some v = rw t at e in inl (sym ((text_eq_iff j k).0 t), cc q))
  | inr t ↦ (let q : member fs k ≡ some v = rw t at e in inr (member-FieldIn fs k v q))
]

clean_part : (fs : Fields) (k : Text) → ¬ Secret (obj fs) → ¬ Secret (dim_of fs k)
clean_part fs k clean s = elim (Option-cases (member fs k)) [
  | inl e ↦ (let t : Secret null = rw e at s in elim t [ ])
  | inr (v, e) ↦ (let t : Secret v = rw e at s in clean (in_field k v (member-FieldIn fs k v e) t))
]

module _ (parse_date : Text → Option ℕ) (sha256 : Text → Text) where
  -- A bundle from the work tree is on the disk as a whole.
  pub record Whole (run : Run) (disk disk' : Disk) (bundle : Fields) : Type 0 where
    pub accepted : Accepted parse_date run disk bundle
    pub manifest : HasManifest run.config_dir bundle disk'
    pub files : (d : DimKey) → Holds run.config_dir bundle d disk'
    pub clean : (d : DimKey) → ¬ Secret (dim_of bundle (dim_name d))
    pub kept : disk'.bundles ≡ disk.bundles

  Effect-Whole :
      (run : Run) (disk : Disk) (x : Reply × Disk) (r : ConfigSyncApplyResult)
      → Effect parse_date sha256 run disk x
      → x.0 ≡ replied r
      → r.outcome ≡ all_applied
      → (bundle : Fields) × Whole run disk x.1 bundle
  Effect-Whole run disk x r (untouched r' quiet) e o =
      (let q : r' ≡ r = cc e in
        let two : is_quiet r.outcome ≡ true = rw (← q) quiet in
        let bad : false ≡ true = rw o at two in cc bad)
  Effect-Whole run disk x r not_warned e o = cc e
  Effect-Whole run disk x r (warned bundle m w r' disk' ok there old o' q) e o =
      (let same : r' ≡ r = cc e in let two = ap (λ z. z.outcome) same in cc (two, o, o'))
  Effect-Whole run disk x r (landed bundle dims ws ok news) e o =
      let l = land_bundle run bundle (compute_content_hash sha256 bundle) dims ws disk in
      let (done, there) = finish-applied bundle dims l r e in
      let (m, files, kept) = land_bundle-whole run bundle _ dims ws disk done in
      let (q, clean, s) = valid-Safe parse_date ok.raw bundle ok.passes in
      (
        bundle,
        record {
          accepted = ok;
          manifest = rw there m;
          files = rw there files;
          clean = λ d. clean_part bundle (dim_name d) (rw q at clean);
          kept = rw there kept;
        },
      )

  module _ {G : Type 0} (git : G → List Text → GitExecResult × G) where
    -- A run that says it applied the bundle has found one in the work tree that the validator lets
    -- through; the manifest on the disk then is the one of that bundle, the file of each of the
    -- five dimensions holds what the bundle has for it, and no file holds a secret.
    pub applied-Whole :
        (run : Run) (cache : AppliedCache) (disk : Disk) (g : G) (r : ConfigSyncApplyResult)
        → (run_config_sync_apply parse_date sha256 git run cache disk g).0.0 ≡ replied r
        → r.outcome ≡ all_applied
        → (bundle : Fields) × Whole run disk
            (run_config_sync_apply parse_date sha256 git run cache disk g).0.1
            bundle
    applied-Whole run cache disk g r e o =
        Effect-Whole run disk _ r (run-Effect parse_date sha256 git run cache disk g) e o

    pub Accepted-run :
        (run : Run) (cache : AppliedCache) (disk : Disk) (g : G) (bundle : Fields)
        → Accepted parse_date run disk bundle
        → run_config_sync_apply parse_date sha256 git run cache disk g
          ≡ settle_version parse_date sha256 git run bundle
              (manifest_on_disk run.config_dir disk)
              disk
              g
    unfolding run_config_sync_apply
    Accepted-run run cache disk g bundle ok =
        rw
          (
            ok.there,
            ok.parsed,
            ok.passes,
            read_applied_manifest-forced run.config_dir run.now disk cache,
          )
          refl

    -- With the manifest of the bundle on the disk, nothing is done.
    pub repeated :
        (run : Run) (cache : AppliedCache) (disk : Disk) (g : G) (bundle : Fields)
        → Accepted parse_date run disk bundle
        → HasManifest run.config_dir bundle disk
        → let x = (run_config_sync_apply parse_date sha256 git run cache disk g).0 in
          (r : ConfigSyncApplyResult) × (x.0 ≡ replied r) × (r.outcome ≡ no_op) × (x.1 ≡ disk)
    repeated run cache disk g bundle ok (m, there, id) =
        let same : compare_with_applied parse_date bundle (compute_content_hash sha256 bundle) m
            ≡ same_bundle =
          unfold compare_with_applied in
          rw ((text_eq_iff (bundle_id_of bundle) m.bundle_id).1 (sym id)) refl in
        rw (Accepted-run run cache disk g bundle ok, there, same)
          (unfold settle in (_, refl, refl, refl))

    -- Applying is idempotent: after a run that applied the bundle, every further run on the same
    -- work tree and directory is a no-op that leaves the disk as it is, whatever its environment,
    -- its clock, the state of the repositories and the cache.
    pub run_twice :
        (run : Run) (cache : AppliedCache) (disk : Disk) (g : G) (r : ConfigSyncApplyResult)
        → (run_config_sync_apply parse_date sha256 git run cache disk g).0.0 ≡ replied r
        → r.outcome ≡ all_applied
        → (again : Run) (cache' : AppliedCache) (g' : G) → again.fleet_root ≡ run.fleet_root
        → again.config_dir ≡ run.config_dir
        → let disk' = (run_config_sync_apply parse_date sha256 git run cache disk g).0.1 in
          let x = (run_config_sync_apply parse_date sha256 git again cache' disk' g').0 in
          (r' : ConfigSyncApplyResult) × (x.0 ≡ replied r') × (r'.outcome ≡ no_op) × (x.1 ≡ disk')
    run_twice run cache disk g r e o again cache' g' root dir =
        let disk' = (run_config_sync_apply parse_date sha256 git run cache disk g).0.1 in
        let (bundle, w) = applied-Whole run cache disk g r e o in
        let ok : Accepted parse_date again disk' bundle = record {
          file = w.accepted.file;
          raw = w.accepted.raw;
          there = rw (root, w.kept) w.accepted.there;
          parsed = w.accepted.parsed;
          passes = w.accepted.passes;
        } in
        repeated again cache' disk' g' bundle ok (rw dir w.manifest)
