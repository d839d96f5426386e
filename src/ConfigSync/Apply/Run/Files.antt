-- ===== src/ConfigSync/Apply/Run/Files.antt =====
-- Which files a landing writes.
use tri_mc.Prelude.{
  ◌≡◌, refl, sym, ap, ◌∙◌, ◌⊎◌, inl, inr, true, false, Option, none, some, List, [], ◌∷◌, ◌++◌,
  Bool-cases, Option-cases, if◌then◌else◌, In,
}
use tri_mc.Prelude.Text.{Text, text, text_eq, text_eq-cases}
use tri_mc.Map.{get, put, get-put}
use tri_mc.Json.{Json, Fields}
use tri_mc.ConfigSync.{DimKey, company, model, keys, employees, project, dim_name}
use tri_mc.ConfigSync.Canonical.{dim_of}
use tri_mc.ConfigSync.Store.{File, Disk, init_sync_dir, dim_file_path}
use tri_mc.ConfigSync.Apply.Landing.{Run, write_dim, land_dims}

-- The dimension of a file name.
dim_of_file : Text → Option DimKey
unfolding text_eq
dim_of_file t =
    if text_eq t (text "company.json")
    then some company
    else if text_eq t (text "model.json")
    then some model
    else if text_eq t (text "keys.json")
    then some keys
    else if text_eq t (text "employees.json")
    then some employees
    else some project

dim_of_file-name : (dim : DimKey) → dim_of_file (dim_name dim ++ text ".json") ≡ some dim
unfolding dim_of_file text
dim_of_file-name company = refl
dim_of_file-name model = refl
dim_of_file-name keys = refl
dim_of_file-name employees = refl
dim_of_file-name project = refl

same_tail : (p s t : Text) → p ++ s ≡ p ++ t → s ≡ t
same_tail [] s t e = e
same_tail (c ∷ p) s t e = same_tail p s t (cc e)

-- Two dimensions do not share a file.
pub dim_file_path-injective :
    (dir : Text) (d e : DimKey)
    → dim_file_path dir (dim_name d) ≡ dim_file_path dir (dim_name e)
    → d ≡ e
unfolding dim_file_path
dim_file_path-injective dir d e q =
    let name = same_tail (text "/") _ _ (same_tail (init_sync_dir dir) _ _ q) in
    let key : some d ≡ some e =
      sym (dim_of_file-name d) ∙ ap dim_of_file name ∙ dim_of_file-name e in
    cc key

-- The file of a dimension holds what the bundle has for it.
abbrev pub Holds : Text → Fields → DimKey → Disk → Type 0
Holds config_dir bundle dim disk =
    (file : File Json) × (get disk.documents (dim_file_path config_dir (dim_name dim)) ≡ some file)
    × (file.content ≡ some (dim_of bundle (dim_name dim)))

some_disk : (a b : Disk) → some a ≡ some b → a ≡ b
some_disk a b e = cc e

-- A write that is made puts the value, and leaves every other path as it was.
write_dim-put :
    (run : Run) (dim : DimKey) (v : Json) (disk disk' : Disk)
    → write_dim run dim v disk ≡ some disk'
    → disk' ≡ record disk {
      documents = put disk.documents (dim_file_path run.config_dir (dim_name dim)) (record {
        mtime = run.mtime (dim_file_path run.config_dir (dim_name dim));
        content = some v;
      });
    }
write_dim-put run dim v disk disk' e =
    elim (Bool-cases (run.can_write (dim_file_path run.config_dir (dim_name dim)))) [
      | inl c ↦ sym (some_disk _ disk' (rw c at e))
      | inr c ↦ let q : none ≡ some disk' = rw c at e in cc q
    ]

write_dim-Holds :
    (run : Run) (bundle : Fields) (dim d : DimKey) (disk disk' : Disk)
    → write_dim run dim (dim_of bundle (dim_name dim)) disk ≡ some disk'
    → (d ≡ dim) ⊎ Holds run.config_dir bundle d disk
    → Holds run.config_dir bundle d disk'
write_dim-Holds run bundle dim d disk disk' e held =
    let path = dim_file_path run.config_dir (dim_name dim) in
    let other = dim_file_path run.config_dir (dim_name d) in
    let new : File Json = record {
      mtime = run.mtime path;
      content = some (dim_of bundle (dim_name dim));
    } in
    rw (write_dim-put run dim _ disk disk' e) (elim (text_eq-cases path other) [
      | inl (t, q) ↦ (
        new,
        rw (get-put disk.documents path other new, t) refl,
        ap (λ k. some (dim_of bundle (dim_name k)))
            (dim_file_path-injective run.config_dir dim d q),
      )
      | inr (t, n) ↦ elim held [
        | inl same ↦ absurd (n (ap (λ k. dim_file_path run.config_dir (dim_name k)) (sym same)))
        | inr (file, there, content) ↦
            (file, rw (get-put disk.documents path other new, t) there, content)
      ]
    ])

-- After a landing without an error, every dimension that was to be landed is.
pub land_dims-Holds :
    (run : Run) (bundle : Fields) (dims : List DimKey) (d : DimKey) (disk : Disk)
    → (land_dims run bundle dims disk).1 ≡ true
    → In d dims ⊎ Holds run.config_dir bundle d disk
    → Holds run.config_dir bundle d (land_dims run bundle dims disk).0
unfolding land_dims
land_dims-Holds run bundle [] d disk e (inl i) = elim i [ ]
land_dims-Holds run bundle [] d disk e (inr held) = held
land_dims-Holds run bundle (dim ∷ dims) d disk e held =
    elim (Option-cases (write_dim run dim (dim_of bundle (dim_name dim)) disk)) [
      | inl w ↦ (let q : false ≡ true = rw w at e in cc q)
      | inr (disk', w) ↦ rw w (
          land_dims-Holds run bundle dims d disk' (rw w at e) (elim held [
            | inl i ↦ elim i [
              | inl q ↦ inr (write_dim-Holds run bundle dim d disk disk' w (inl q))
              | inr i' ↦ inl i'
            ]
            | inr h ↦ inr (write_dim-Holds run bundle dim d disk disk' w (inr h))
          ]))
    ]

-- A path that cannot be written keeps its file, and a dimension whose path it is stops the landing.
pub land_dims-kept :
    (run : Run) (bundle : Fields) (dims : List DimKey) (path : Text) (disk : Disk)
    → run.can_write path ≡ false
    → get (land_dims run bundle dims disk).0.documents path ≡ get disk.documents path
unfolding land_dims
land_dims-kept run bundle [] path disk c = refl
land_dims-kept run bundle (dim ∷ dims) path disk c =
    elim (Option-cases (write_dim run dim (dim_of bundle (dim_name dim)) disk)) [
      | inl w ↦ rw w refl
      | inr (disk', w) ↦ rw w (land_dims-kept run bundle dims path disk' c ∙ kept disk' w)
    ]
  where
    kept :
        (disk' : Disk)
        → write_dim run dim (dim_of bundle (dim_name dim)) disk ≡ some disk'
        → get disk'.documents path ≡ get disk.documents path
    kept disk' w = elim (text_eq-cases (dim_file_path run.config_dir (dim_name dim)) path) [
      | inl (t, q) ↦
          let c' : run.can_write (dim_file_path run.config_dir (dim_name dim)) ≡ false = rw q c in
          let q' : none ≡ some disk' = rw c' at w in cc q'
      | inr (t, n) ↦
          rw
            (
              write_dim-put run dim _ disk disk' w,
              get-put disk.documents (dim_file_path run.config_dir (dim_name dim)) path (record {
                mtime = run.mtime (dim_file_path run.config_dir (dim_name dim));
                content = some (dim_of bundle (dim_name dim));
              }),
              t,
            )
            refl
    ]

pub land_dims-stopped :
    (run : Run) (bundle : Fields) (dims : List DimKey) (d : DimKey) (disk : Disk)
    → In d dims
    → run.can_write (dim_file_path run.config_dir (dim_name d)) ≡ false
    → (land_dims run bundle dims disk).1 ≡ false
unfolding land_dims
land_dims-stopped run bundle [] d disk i c = elim i [ ]
land_dims-stopped run bundle (dim ∷ dims) d disk i c =
    elim (Option-cases (write_dim run dim (dim_of bundle (dim_name dim)) disk)) [
      | inl w ↦ rw w refl
      | inr (disk', w) ↦ rw w (elim i [
        | inl q ↦
            (let c' : run.can_write (dim_file_path run.config_dir (dim_name dim)) ≡ false =
                rw (ap (λ k. dim_file_path run.config_dir (dim_name k)) (sym q)) c in
              let q' : none ≡ some disk' = rw c' at w in cc q')
        | inr i' ↦ land_dims-stopped run bundle dims d disk' i' c
      ])
    ]
