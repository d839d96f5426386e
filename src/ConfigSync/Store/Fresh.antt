-- ===== src/ConfigSync/Store/Fresh.antt =====
-- The cached readers return what is on the disk, as long as every write of a file gives it a time
-- of change that no earlier one had.
use tri_mc.Prelude.{
  ℕ, ◌≤◌, ◌<◌, ◌≡◌, ◌≢◌, refl, sym, ap, ◌∙◌, ◌⊎◌, inl, inr, true, false, Option, none, some, arith,
  Bool-cases, Option-cases,
}
use tri_mc.Prelude.Text.{Text, text_eq, text_eq_iff, text_eq-cases}
use tri_mc.Map.{Map, get, put, get-put}
use tri_mc.ConfigSync.Store.{
  AppliedManifest, File, Disk, CacheEntry, cached, is_fresh, use_or_fill, AppliedCache,
  applied_manifest_path, read_applied_manifest,
}

some-injective : {A : Type 0} (a b : A) → some a ≡ some b → a ≡ b
some-injective a b e = cc e

module _ {A B : Type 0} (view : Option B → Option A) where
  -- The file as a reader sees it.
  abbrev pub seen : File B → File A
  seen file = record { mtime = file.mtime; content = view file.content }

  abbrev pub content_of : Option (File B) → Option A
  content_of none = none
  content_of (some file) = view file.content

  -- All files are of the past; an entry is too, and it agrees with the file that it was read from,
  -- if that has not changed since.
  pub record Agrees (t : ℕ) (files : Map (File B)) (cache : Option (CacheEntry A)) : Type 0 where
    pub past : (path : Text) (file : File B) → get files path ≡ some file → file.mtime ≤ t
    pub entry_past : (e : CacheEntry A) → cache ≡ some e → e.mtime ≤ t
    pub agrees :
        (e : CacheEntry A)
        → cache ≡ some e
        → (file : File B) → get files e.path ≡ some file
        → file.mtime ≡ e.mtime
        → view file.content ≡ e.value

  fresh-same :
      (e : CacheEntry A) (path : Text) (mtime now : ℕ)
      → is_fresh e path mtime now ≡ true
      → (e.path ≡ path) × (mtime ≡ e.mtime)
  fresh-same e path mtime now h = ((text_eq_iff e.path path).0 (ground arith), ground arith)

  -- The value of the cache, if it is used, is that of the file.
  cached-Agrees :
      (t : ℕ) (files : Map (File B)) (cache : Option (CacheEntry A)) (path : Text) (file : File B)
      (now : ℕ) (v : Option A)
      → Agrees t files cache
      → get files path ≡ some file
      → cached cache path file.mtime now ≡ some v
      → v ≡ view file.content
  cached-Agrees t files none path file now v a g h = cc
  cached-Agrees t files (some e) path file now v a g h =
      elim (Bool-cases (is_fresh e path file.mtime now)) [
        | inl f ↦
            let (q, m) = fresh-same e path file.mtime now f in
            let same : some e.value ≡ some v = rw f at h in
            let held = a.agrees e refl file (rw q g) m in cc (same, held)
        | inr f ↦ let stale : none ≡ some v = rw f at h in cc stale
      ]

  filled-Agrees :
      (t : ℕ) (files : Map (File B)) (cache : Option (CacheEntry A)) (path : Text) (file : File B)
      (now : ℕ)
      → Agrees t files cache
      → get files path ≡ some file
      → Agrees t files (
          some
            (record { path = path; mtime = file.mtime; read_at = now; value = view file.content }))
  filled-Agrees t files cache path file now a g = record {
    past = a.past;
    entry_past = λ e q.
        let m = ap (λ x. x.mtime) (some-injective _ e q) in
        let old = a.past path file g in rw (← m) old;
    agrees = λ e q file' g' m.
        let r = some-injective _ e q in
        let there : get files path ≡ some file' = rw (ap (λ x. x.path) r) g' in
        let one : file ≡ file' = cc (g, there) in rw (← one) (ap (λ x. x.value) r);
  }

  -- A reader that uses the cache or the file returns what the file holds.
  pub use_or_fill-content :
      (t : ℕ) (files : Map (File B)) (cache : Option (CacheEntry A)) (path : Text) (file : File B)
      (now : ℕ) (found : Option (Option A))
      → Agrees t files cache
      → get files path ≡ some file
      → (found ≡ none) ⊎ (found ≡ cached cache path file.mtime now)
      → let r = use_or_fill cache found path (seen file) now in
        (r.0 ≡ view file.content) × Agrees t files r.1
  use_or_fill-content t files cache path file now none a g h =
      (refl, filled-Agrees t files cache path file now a g)
  use_or_fill-content t files cache path file now (some v) a g (inl q) = cc q
  use_or_fill-content t files cache path file now (some v) a g (inr q) =
      (cached-Agrees t files cache path file now v a g (sym q), a)

  -- A write at a later time than any before keeps the agreement, and so does a removal.
  pub Agrees-put :
      (t : ℕ) (files : Map (File B)) (cache : Option (CacheEntry A)) (path : Text) (file : File B)
      → t < file.mtime
      → Agrees t files cache
      → Agrees file.mtime (put files path file) cache
  Agrees-put t files cache path file later a = record {
    past = λ p f g. put_past p f (text_eq-cases path p) g;
    entry_past = λ e q. (let old = a.entry_past e q in omega arith);
    agrees = λ e q f g m. put_agrees e q f (text_eq-cases path e.path) g m;
  }
    where
      put_past :
          (p : Text) (f : File B)
          → ((text_eq path p ≡ true) × (path ≡ p)) ⊎ ((text_eq path p ≡ false) × (path ≢ p))
          → get (put files path file) p ≡ some f
          → f.mtime ≤ file.mtime
      put_past p f (inl (q, w)) g =
          let same = some-injective file f (rw (get-put files path p file, q) at g) in
          rw (← same) (omega arith)
      put_past p f (inr (q, w)) g =
          let old = a.past p f (rw (get-put files path p file, q) at g) in omega arith

      put_agrees :
          (e : CacheEntry A)
          → cache ≡ some e
          → (f : File B)
          → ((text_eq path e.path ≡ true) × (path ≡ e.path))
            ⊎ ((text_eq path e.path ≡ false) × (path ≢ e.path))
          → get (put files path file) e.path ≡ some f
          → f.mtime ≡ e.mtime
          → view f.content ≡ e.value
      put_agrees e c f (inl (q, w)) g m =
          let same = some-injective file f (rw (get-put files path e.path file, q) at g) in
          let old = a.entry_past e c in
          let n : file.mtime ≡ e.mtime = ap (λ x. x.mtime) same ∙ m in absurd (the_past old n)
        where
          the_past : e.mtime ≤ t → file.mtime ≢ e.mtime
          the_past old n = omega arith
      put_agrees e c f (inr (q, w)) g m =
          a.agrees e c f (rw (get-put files path e.path file, q) at g) m

  pub Agrees-later :
      (t u : ℕ) (files : Map (File B)) (cache : Option (CacheEntry A))
      → t ≤ u
      → Agrees t files cache
      → Agrees u files cache
  Agrees-later t u files cache le a = record {
    past = λ p f g. (let old = a.past p f g in omega arith);
    entry_past = λ e q. (let old = a.entry_past e q in omega arith);
    agrees = a.agrees;
  }

  -- The empty cache agrees with every disk.
  pub Agrees-empty :
      (t : ℕ) (files : Map (File B))
      → ((path : Text) (file : File B) → get files path ≡ some file → file.mtime ≤ t)
      → Agrees t files none
  Agrees-empty t files p = record {
    past = p;
    entry_past = λ e q. cc q;
    agrees = λ e q file g m. cc q;
  }

abbrev pub itself : {A : Type 0} → A → A
itself a = a

unfoldable pub manifest_on_disk : Text → Disk → Option AppliedManifest
manifest_on_disk config_dir disk =
    content_of itself (get disk.manifests (applied_manifest_path config_dir))

-- A reader that passes by the cache reads the disk.
pub read_applied_manifest-forced :
    (config_dir : Text) (now : ℕ) (disk : Disk) (cache : AppliedCache)
    → (read_applied_manifest config_dir true now disk cache).0 ≡ manifest_on_disk config_dir disk
unfolding read_applied_manifest manifest_on_disk
read_applied_manifest-forced config_dir now disk cache =
    elim (Option-cases (get disk.manifests (applied_manifest_path config_dir))) [
      | inl e ↦ rw e refl
      | inr (file, e) ↦ rw e refl
    ]
