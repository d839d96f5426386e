-- ===== src/ConfigSync/Validate/Verdict.antt =====
-- What the validator of a bundle decides: the first of six conditions that fails names the error,
-- and a bundle that is let through meets them all.
use tri_mc.Prelude.{
  ℕ, ◌≡◌, ◌≢◌, refl, subst, ◌↔◌, inl, inr, true, false, Option, none, some, Option-cases,
}
use tri_mc.Prelude.Text.{Text, text}
use tri_mc.Json.{Json, null, bool, num, str, arr, obj, Fields, member}
use tri_mc.ConfigSync.{DimKey, keys}
use tri_mc.ConfigSync.Secrets.{
  find_secret_field, Secret, find_secret_field-none, find_secret_field-Secret,
}
use tri_mc.ConfigSync.Validate.Steps.{Settled, Judged, accepted, judged, Judged-back}
use tri_mc.ConfigSync.Validate.{
  BundleValidation, valid, invalid, secret_message, is_date, on_object, validate_sync_bundle,
}

-- The verdict on a JSON value.
pub data Verdict (parse_date : Text → Option ℕ) (raw : Json) : BundleValidation → Type 0 where
  has_secret :
      Secret raw
      → (hit : Text) → find_secret_field raw (text "$") ≡ some hit
      → Verdict parse_date raw (invalid (text "secret_field_rejected") (secret_message hit))
  no_object :
      ¬ Secret raw
      → ((fs : Fields) → raw ≢ obj fs)
      → Verdict parse_date raw (invalid (text "bad_shape") (text "bundle must be a JSON object"))
  of_fields :
      ¬ Secret raw
      → (fs : Fields) → raw ≡ obj fs
      → (r : BundleValidation) → Judged parse_date fs r
      → Verdict parse_date raw r

module _ (parse_date : Text → Option ℕ) where
  on_object-Verdict :
      (raw : Json) → ¬ Secret raw → Verdict parse_date raw (on_object parse_date raw)
  on_object-Verdict (obj fs) n = of_fields n fs refl _ (judged parse_date fs)
  on_object-Verdict null n = no_object n (λ fs q. cc q)
  on_object-Verdict (bool b) n = no_object n (λ fs q. cc q)
  on_object-Verdict (num t) n = no_object n (λ fs q. cc q)
  on_object-Verdict (str t) n = no_object n (λ fs q. cc q)
  on_object-Verdict (arr xs) n = no_object n (λ fs q. cc q)

  validated : (raw : Json) → Verdict parse_date raw (validate_sync_bundle parse_date raw)
  unfolding validate_sync_bundle
  validated raw = elim (Option-cases (find_secret_field raw (text "$"))) [
    | inl e ↦ rw e (on_object-Verdict raw ((find_secret_field-none raw _).0 e))
    | inr (hit, e) ↦ rw e (has_secret (find_secret_field-Secret raw _ hit e) hit e)
  ]

  on_object-shapeless :
      (raw : Json)
      → ((fs : Fields) → raw ≢ obj fs)
      → on_object parse_date raw ≡ invalid (text "bad_shape") (text "bundle must be a JSON object")
  on_object-shapeless (obj fs) n = absurd (n fs refl)
  on_object-shapeless null n = refl
  on_object-shapeless (bool b) n = refl
  on_object-shapeless (num t) n = refl
  on_object-shapeless (str t) n = refl
  on_object-shapeless (arr xs) n = refl

  Verdict-back :
      (raw : Json) (r : BundleValidation)
      → Verdict parse_date raw r
      → validate_sync_bundle parse_date raw ≡ r
  unfolding validate_sync_bundle
  Verdict-back raw r (has_secret s hit e) = rw e refl
  Verdict-back raw r (no_object n m) =
      rw ((find_secret_field-none raw (text "$")).1 n) (on_object-shapeless raw m)
  Verdict-back raw r (of_fields n fs q r' j) =
      rw ((find_secret_field-none raw (text "$")).1 n, q) (Judged-back parse_date fs r' j)

  -- What the validator answers, and when: a value that holds a secret at any depth is rejected for
  -- it; then one that is no object; then the version, the identifier, the date, the author and the
  -- five dimensions are asked for in this order, the first that is missing names the error, and
  -- what passes them all is let through as it is.
  pub validate_sync_bundle_iff :
      (raw : Json) (r : BundleValidation)
      → (validate_sync_bundle parse_date raw ≡ r) ↔ Verdict parse_date raw r
  validate_sync_bundle_iff raw r =
      (λ e. subst (λ x. Verdict parse_date raw x) e (validated raw), Verdict-back raw r)

  -- A bundle that is let through holds no text but the empty one under the name of a secret, which
  -- are `api_key`, `apiKey`, `secret` and `token`, at any depth; and the providers of its keys, if
  -- these are not marked as unavailable, have no field but `provider`, `ready`, `fingerprint` and
  -- `baseUrl`.
  pub valid-Safe :
      (raw : Json) (fs : Fields)
      → validate_sync_bundle parse_date raw ≡ valid fs
      → (raw ≡ obj fs) × ¬ Secret raw × Settled fs keys
  valid-Safe raw fs e = from ((validate_sync_bundle_iff raw (valid fs)).0 e)
    where
      of_judged :
          (gs : Fields)
          → raw ≡ obj gs
          → Judged parse_date gs (valid fs)
          → (raw ≡ obj fs) × Settled fs keys
      of_judged gs q (accepted v i d a s) = (q, s keys)

      from : Verdict parse_date raw (valid fs) → (raw ≡ obj fs) × ¬ Secret raw × Settled fs keys
      from (of_fields n gs q r j) = let (p, s) = of_judged gs q j in (p, n, s)

  -- Every dimension of a bundle that is let through is marked as unavailable or has its shape.
  pub valid-Settled :
      (raw : Json) (fs : Fields)
      → validate_sync_bundle parse_date raw ≡ valid fs
      → (dim : DimKey) → Settled fs dim
  valid-Settled raw fs e = from ((validate_sync_bundle_iff raw (valid fs)).0 e)
    where
      of_judged : (gs : Fields) → Judged parse_date gs (valid fs) → (dim : DimKey) → Settled fs dim
      of_judged gs (accepted v i d a s) = s

      from : Verdict parse_date raw (valid fs) → (dim : DimKey) → Settled fs dim
      from (of_fields n gs q r j) = of_judged gs j

  dated :
      (v : Option Json)
      → is_date parse_date v ≡ true
      → (s : Text) × (v ≡ some (str s)) × (t : ℕ) × (parse_date s ≡ some t)
  unfolding is_date
  dated none e = cc
  dated (some null) e = cc
  dated (some (bool b)) e = cc
  dated (some (num n)) e = cc
  dated (some (arr xs)) e = cc
  dated (some (obj fs)) e = cc
  dated (some (str s)) e = elim (Option-cases (parse_date s)) [
    | inl miss ↦ (let q : false ≡ true = rw miss at e in cc q)
    | inr (t, found) ↦ (s, refl, t, found)
  ]

  -- The date of a bundle that is let through can be read.
  pub valid-Dated :
      (raw : Json) (fs : Fields)
      → validate_sync_bundle parse_date raw ≡ valid fs
      → (s : Text) × (member fs (text "generatedAt") ≡ some (str s))
        × (t : ℕ) × (parse_date s ≡ some t)
  valid-Dated raw fs e = from ((validate_sync_bundle_iff raw (valid fs)).0 e)
    where
      of_judged :
          (gs : Fields)
          → Judged parse_date gs (valid fs)
          → is_date parse_date (member fs (text "generatedAt")) ≡ true
      of_judged gs (accepted v i d a s) = d.1

      from :
          Verdict parse_date raw (valid fs)
          → (s : Text) × (member fs (text "generatedAt") ≡ some (str s))
            × (t : ℕ) × (parse_date s ≡ some t)
      from (of_fields n gs q r j) = dated _ (of_judged gs j)
