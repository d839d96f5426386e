-- ===== src/ConfigSync/Validate/Steps.antt =====
-- The conditions on a bundle that is an object, in the order in which the validator asks for them.
use tri_mc.Prelude.{
  ℕ, ◌≡◌, refl, ◌↔◌, ◌⊎◌, inl, inr, Bool, true, false, not, ◌||◌, Option, none, some, List, [], ◌∷◌,
  arith, Bool-cases, Option-cases, All,
}
use tri_mc.Prelude.Text.{Text, text}
use tri_mc.Json.{Fields, member}
use tri_mc.ConfigSync.{
  DimKey, dim_keys, dim_name, is_str, is_dim_unavailable, company, model, keys, employees, project,
}
use tri_mc.ConfigSync.Checks.{dim_checkers}
use tri_mc.ConfigSync.Checks.Shapes.{Shaped, dim_checkers-Shaped}
use tri_mc.ConfigSync.Validate.{
  BundleValidation, valid, invalid, is_one, answer, is_date, check_dims, check_fields,
}

-- A dimension is marked as unavailable, or it has its shape.
abbrev pub Settled : Fields → DimKey → Type 0
Settled fs dim =
    (is_dim_unavailable (member fs (dim_name dim)) ≡ true) ⊎ Shaped dim (member fs (dim_name dim))

check_dims-cons :
    (fs : Fields) (dim : DimKey) (dims : List DimKey)
    → (check_dims fs (dim ∷ dims) ≡ none) ↔ Settled fs dim × (check_dims fs dims ≡ none)
unfolding check_dims
check_dims-cons fs dim dims = elim (Bool-cases (is_dim_unavailable (member fs (dim_name dim)))) [
  | inl away ↦ rw away (λ e. (inl refl, e), λ p. p.1)
  | inr here ↦ elim (Option-cases (dim_checkers dim (member fs (dim_name dim)))) [
    | inl ok ↦ rw (here, ok) (λ e. (inr ((dim_checkers-Shaped _ _).0 ok), e), λ p. p.1)
    | inr (err, bad) ↦
        rw (here, bad)
          (
            λ e. cc,
            λ p. elim p.0 [
              | inl away ↦ cc (away)
              | inr shape ↦ cc ((dim_checkers-Shaped _ _).1 shape, bad)
            ],
          )
  ]
]

check_dims-none :
    (fs : Fields) (dims : List DimKey) → (check_dims fs dims ≡ none) ↔ All (Settled fs) dims
check_dims-none fs [] = unfold check_dims in (λ e. tt, λ a. refl)
check_dims-none fs (dim ∷ dims) =
    let (to, from) = check_dims-cons fs dim dims in
    let (ih, hi) = check_dims-none fs dims in
    (λ e. let (s, r) = to e in (s, ih r), λ a. from (a.0, hi a.1))

-- The conditions on an object, in the order in which they are asked.
module _ (parse_date : Text → Option ℕ) (fs : Fields) where
  abbrev pub HasVersion : Type 0
  HasVersion = is_one (member fs (text "schemaVersion")) ≡ true

  abbrev pub HasId : Type 0
  HasId = is_str (member fs (text "bundleId")) ≡ true

  abbrev pub HasDate : Type 0
  HasDate =
      (is_str (member fs (text "generatedAt")) ≡ true)
      × (is_date parse_date (member fs (text "generatedAt")) ≡ true)

  abbrev pub HasAuthor : Type 0
  HasAuthor = is_str (member fs (text "generatedBy")) ≡ true

  pub data Judged : BundleValidation → Type 0 where
    bad_version :
        ¬ HasVersion → Judged (invalid (text "bad_schema_version") (text "schemaVersion must be 1"))
    bad_id :
        HasVersion
        → ¬ HasId
        → Judged (invalid (text "bad_bundle_id") (text "bundleId must be a non-empty string"))
    bad_date :
        HasVersion
        → HasId
        → ¬ HasDate
        → Judged (
            invalid
              (text "bad_generated_at")
              (text "generatedAt must be a parseable ISO-8601 string"))
    bad_author :
        HasVersion
        → HasId
        → HasDate
        → ¬ HasAuthor
        → Judged (invalid (text "bad_generated_by") (text "generatedBy must be a non-empty string"))
    bad_dim :
        HasVersion
        → HasId
        → HasDate
        → HasAuthor
        → ¬ ((dim : DimKey) → Settled fs dim)
        → (message : Text) → check_dims fs dim_keys ≡ some message
        → Judged (invalid (text "bad_dim_shape") message)
    accepted :
        HasVersion
        → HasId
        → HasDate
        → HasAuthor
        → ((dim : DimKey) → Settled fs dim)
        → Judged (valid fs)

  all-Settled : (check_dims fs dim_keys ≡ none) ↔ ((dim : DimKey) → Settled fs dim)
  all-Settled =
      let (to, from) = check_dims-none fs dim_keys in
      (
        λ e dim. pick dim (to e),
        λ s. from (s company, (s model, (s keys, (s employees, (s project, tt))))),
      )
    where
      pick : (dim : DimKey) → All (Settled fs) dim_keys → Settled fs dim
      pick company a = a.0
      pick model a = a.1.0
      pick keys a = a.1.1.0
      pick employees a = a.1.1.1.0
      pick project a = a.1.1.1.1.0

  Judged-dims :
      HasVersion → HasId → HasDate → HasAuthor → Judged (answer fs (check_dims fs dim_keys))
  Judged-dims v i d a = elim (Option-cases (check_dims fs dim_keys)) [
    | inl e ↦ rw e (accepted v i d a (all-Settled.0 e))
    | inr (message, e) ↦ rw e (bad_dim v i d a (λ s. cc (all-Settled.1 s, e)) message e)
  ]

  pub judged : Judged (check_fields parse_date fs)
  unfolding check_fields
  judged = elim (Bool-cases (is_one (member fs (text "schemaVersion")))) [
    | inr e ↦ rw e (bad_version (λ h. cc (h, e)))
    | inl v ↦ elim (Bool-cases (is_str (member fs (text "bundleId")))) [
      | inr e ↦ rw (v, e) (bad_id v (λ h. cc (h, e)))
      | inl i ↦ elim (Bool-cases (is_str (member fs (text "generatedAt")))) [
        | inr e ↦ rw (v, i, e) (bad_date v i (λ h. cc (h.0, e)))
        | inl s ↦ elim (Bool-cases (is_date parse_date (member fs (text "generatedAt")))) [
          | inr e ↦ rw (v, i, s, e) (bad_date v i (λ h. cc (h.1, e)))
          | inl d ↦ elim (Bool-cases (is_str (member fs (text "generatedBy")))) [
            | inr e ↦ rw (v, i, s, d, e) (bad_author v i (s, d) (λ h. cc (h, e)))
            | inl a ↦ rw (v, i, s, d, a) (Judged-dims v i (s, d) a)
          ]
        ]
      ]
    ]
  ]

  not_date : (a b : Bool) → ¬ ((a ≡ true) × (b ≡ true)) → (not a || not b) ≡ true
  not_date true true n = absurd (n (refl, refl))
  not_date true false n = refl
  not_date false b n = refl

  pub Judged-back : (r : BundleValidation) → Judged r → check_fields parse_date fs ≡ r
  unfolding check_fields
  Judged-back r (bad_version n) = ground arith
  Judged-back r (bad_id v n) = ground arith
  Judged-back r (bad_date v i n) = let nd = not_date _ _ n in rw (v, i, nd) refl
  Judged-back r (bad_author v i d n) = ground arith
  Judged-back r (bad_dim v i d a n message e) = rw (v, i, d.0, d.1, a, e) refl
  Judged-back r (accepted v i d a s) = rw (v, i, d.0, d.1, a, all-Settled.1 s) refl
