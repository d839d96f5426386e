-- ===== src/ConfigSync/Status/Pending.antt =====
-- What the status route shows after the job has applied a bundle.
use tri_mc.Prelude.{
  ℕ, ◌<◌, ◌≡◌, refl, sym, subst, inl, inr, Bool, true, false, Option, none, some, Option-cases,
  List, [], ◌∷◌, Bool-cases,
}
use tri_mc.Prelude.Text.{Text, text, text_eq_iff}
use tri_mc.Json.{Json, null, bool, num, str, arr, obj, Fields, member}
use tri_mc.ConfigSync.{DimKey, project, dim_keys, dim_name, is_dim_unavailable, is_str, is_string}
use tri_mc.ConfigSync.Checks.Shapes.{Shaped}
use tri_mc.ConfigSync.Validate.Verdict.{valid-Settled}
use tri_mc.ConfigSync.Canonical.{dim_of, compute_content_hash}
use tri_mc.ConfigSync.Store.{
  AppliedManifest, AppliedDimStatus, Disk, AppliedCache, applied_manifest_path, dim_file_path,
}
use tri_mc.ConfigSync.Models.{ModelCache}
use tri_mc.ConfigSync.Models.Levels.{Reached, manifest_written, document_written, reads-Current}
use tri_mc.ConfigSync.Apply.{GitExecResult, ConfigSyncApplyResult, all_applied, bundle_id_of}
use tri_mc.ConfigSync.Apply.Landing.{
  Run, write_manifest, write_dim, land_dims, land_bundle, manifest_for,
}
use tri_mc.ConfigSync.Apply.Run.{Reply, replied, run_config_sync_apply, with_warning, finish}
use tri_mc.ConfigSync.Apply.Run.Effect.{Effect, untouched, not_warned, warned, landed, run-Effect}
use tri_mc.ConfigSync.Apply.Run.Repeats.{Whole, applied-Whole}
use tri_mc.ConfigSync.Status.{read_config_sync_status, pending_of, as_project}

-- Each of the files is written later than those before it, and than `t`.
abbrev Increasing : Run → ℕ → List DimKey → Type 0
Increasing run t [] = Unit
Increasing run t (dim ∷ dims) =
    let at = run.mtime (dim_file_path run.config_dir (dim_name dim)) in
    (t < at) × Increasing run at dims

-- The files of a run, the manifest first, are written one after the other, later than `t`.
abbrev pub Later : Run → ℕ → Type 0
Later run t =
    let at = run.mtime (applied_manifest_path run.config_dir) in
    (t < at) × Increasing run at dim_keys

-- The server's caches stay as they are while the job writes.
module _ (a : AppliedCache) (m : ModelCache) where
  abbrev ReachedAt : Disk → Type 0
  ReachedAt disk = (t : ℕ) × Reached t disk a m

  write_manifest-Reached :
      (run : Run) (t : ℕ) (x : AppliedManifest) (disk disk' : Disk)
      → t < run.mtime (applied_manifest_path run.config_dir)
      → Reached t disk a m
      → write_manifest run x disk ≡ some disk'
      → Reached (run.mtime (applied_manifest_path run.config_dir)) disk' a m
  write_manifest-Reached run t x disk disk' later r e =
      let path = applied_manifest_path run.config_dir in
      elim (Bool-cases (run.can_write path)) [
        | inl c ↦
            let after =
              manifest_written path (record { mtime = run.mtime path; content = some x }) later r in
            subst (λ d. Reached (run.mtime path) d a m) (some_of (rw c at e)) after
        | inr c ↦ (let q : none ≡ some disk' = rw c at e in cc q)
      ]
    where
      some_of : {x y : Disk} → some x ≡ some y → x ≡ y
      some_of q = cc q

  write_dim-Reached :
      (run : Run) (t : ℕ) (dim : DimKey) (v : Json) (disk disk' : Disk)
      → t < run.mtime (dim_file_path run.config_dir (dim_name dim))
      → Reached t disk a m
      → write_dim run dim v disk ≡ some disk'
      → Reached (run.mtime (dim_file_path run.config_dir (dim_name dim))) disk' a m
  write_dim-Reached run t dim v disk disk' later r e =
      let path = dim_file_path run.config_dir (dim_name dim) in
      elim (Bool-cases (run.can_write path)) [
        | inl c ↦
            let after =
              document_written path (record { mtime = run.mtime path; content = some v }) later r in
            subst (λ d. Reached (run.mtime path) d a m) (some_of (rw c at e)) after
        | inr c ↦ (let q : none ≡ some disk' = rw c at e in cc q)
      ]
    where
      some_of : {x y : Disk} → some x ≡ some y → x ≡ y
      some_of q = cc q

  land_dims-Reached :
      (run : Run) (bundle : Fields) (dims : List DimKey) (t : ℕ) (disk : Disk)
      → Increasing run t dims
      → Reached t disk a m
      → ReachedAt (land_dims run bundle dims disk).0
  unfolding land_dims
  land_dims-Reached run bundle [] t disk i r = (t, r)
  land_dims-Reached run bundle (dim ∷ dims) t disk (later, i) r =
      elim (Option-cases (write_dim run dim (dim_of bundle (dim_name dim)) disk)) [
        | inl e ↦ rw e (t, r)
        | inr (disk', e) ↦ rw e (
            land_dims-Reached run bundle dims _ disk' i
              (write_dim-Reached run t dim _ disk disk' later r e))
      ]

  finish_disk :
      (bundle : Fields) (dims : DimKey → AppliedDimStatus) (l : Disk × Bool)
      → (finish bundle dims l).1 ≡ l.0
  finish_disk bundle dims (disk, true) = refl
  finish_disk bundle dims (disk, false) = refl

  land_bundle-Reached :
      (run : Run) (bundle : Fields) (hash : Text) (dims : DimKey → AppliedDimStatus)
      (ws : List Text) (t : ℕ) (disk : Disk)
      → Later run t
      → Reached t disk a m
      → ReachedAt (land_bundle run bundle hash dims ws disk).0
  unfolding land_bundle
  land_bundle-Reached run bundle hash dims ws t disk (later, i) r =
      let x = manifest_for run bundle hash dims ws in
      elim (Option-cases (write_manifest run x disk)) [
        | inl e ↦ rw e (t, r)
        | inr (disk', e) ↦ rw e (
            land_dims-Reached run bundle dim_keys _ disk' i
              (write_manifest-Reached run t x disk disk' later r e))
      ]

  Effect-Reached :
      (parse_date : Text → Option ℕ) (sha256 : Text → Text) (run : Run) (disk : Disk)
      (x : Reply × Disk) (t : ℕ)
      → Effect parse_date sha256 run disk x
      → Later run t
      → Reached t disk a m
      → ReachedAt x.1
  Effect-Reached parse_date sha256 run disk x t (untouched q quiet) l r = (t, r)
  Effect-Reached parse_date sha256 run disk x t not_warned l r = (t, r)
  Effect-Reached parse_date sha256 run disk x t (warned bundle y w q disk' ok there old o e) l r =
      (_, write_manifest-Reached run t (with_warning y w) disk disk' l.0 r e)
  Effect-Reached parse_date sha256 run disk x t (landed bundle dims ws ok news) l r =
      let hash = compute_content_hash sha256 bundle in
      let out = land_bundle run bundle hash dims ws disk in
      rw (finish_disk bundle dims out) (land_bundle-Reached run bundle hash dims ws t disk l r)

is_string_of : (v : Option Json) → is_str v ≡ true → is_string v ≡ true
unfolding is_str
is_string_of (some (str s)) e = refl
is_string_of none e = cc
is_string_of (some null) e = cc
is_string_of (some (bool b)) e = cc
is_string_of (some (num n)) e = cc
is_string_of (some (arr xs)) e = cc
is_string_of (some (obj fs)) e = cc

shown_project :
    (v : Option Json)
    → Shaped project v
    → (p : Fields) × (v ≡ some (obj p)) × (as_project v ≡ some p)
unfolding as_project
shown_project v (p, here, shape) =
    (p, here, rw (here, is_string_of _ shape.0.0, is_string_of _ shape.0.1) refl)

module _ (parse_date : Text → Option ℕ) (sha256 : Text → Text) where
  module _ {G : Type 0} (git : G → List Text → GitExecResult × G) where
    -- After a run that applied a bundle, whose files were written one after the other, a server
    -- whose caches come from reads before the run, whatever it read, shows at any time of its clock
    -- that nothing is pending, and shows the project of the bundle, if that is not marked as
    -- unavailable.
    pub applied_not_pending :
        (run : Run) (cache : AppliedCache) (disk : Disk) (g : G) (r : ConfigSyncApplyResult)
        → (run_config_sync_apply parse_date sha256 git run cache disk g).0.0 ≡ replied r
        → r.outcome ≡ all_applied
        → (t : ℕ) (a : AppliedCache) (m : ModelCache) → Reached t disk a m
        → Later run t
        → (now : ℕ) (heads : Option (GitExecResult × GitExecResult))
        → let disk' = (run_config_sync_apply parse_date sha256 git run cache disk g).0.1 in
          let shown =
            (read_config_sync_status parse_date run.fleet_root run.config_dir now heads disk'
              a).0 in
          (shown.pending ≡ none)
          × ((bundle : Fields) × Whole parse_date sha256 run disk disk' bundle
              × (is_dim_unavailable (member bundle (text "project")) ≡ false
                  → (p : Fields) × (member bundle (text "project") ≡ some (obj p))
                    × (shown.project ≡ some p)))
    unfolding read_config_sync_status
    applied_not_pending run cache disk g r e o t a m reached later now heads =
        let out = run_config_sync_apply parse_date sha256 git run cache disk g in
        let disk' = out.0.1 in
        let (bundle, w) = applied-Whole parse_date sha256 git run cache disk g r e o in
        let (t', reached') =
          Effect-Reached a m parse_date sha256 run disk out.0 t
            (run-Effect parse_date sha256 git run cache disk g) later reached in
        let current = (reads-Current t' disk' a m reached' run.config_dir false now).0 in
        let (manifest, there, id) = w.manifest in
        let (file, at, content) = w.files project in
        let nothing : pending_of parse_date (some w.accepted.raw) (some manifest) ≡ none =
          unfold pending_of in
          rw (w.accepted.passes, (text_eq_iff (bundle_id_of bundle) manifest.bundle_id).1 (sym id))
            refl in
        (
          rw (current, there, w.kept, w.accepted.there, w.accepted.parsed) nothing,
          (
            bundle,
            w,
            λ here.
                elim (valid-Settled parse_date w.accepted.raw bundle w.accepted.passes project) [
                  | inl away ↦ absurd (cc (away, here))
                  | inr shaped ↦
                      let (p, q, s) = shown_project _ shaped in
                      (p, q, rw (at, content, q) (rw q at s))
                ],
          ),
        )
