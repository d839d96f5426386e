-- ===== src/ConfigSync/Checks/Shapes.antt =====
-- The shape that each dimension must have, and that the checks let nothing else through.
use tri_mc.Prelude.{
  ◌≡◌, refl, ◌↔◌, ◌⊎◌, inl, inr, Bool, true, false, ◌&&◌, Option, none, some, arith,
}
use tri_mc.Prelude.Text.{Text, text, text_eq, text_eq-cases}
use tri_mc.Json.{Json, null, bool, num, str, arr, obj, Items, nil, cons, Fields, end, field, member}
use tri_mc.ConfigSync.{
  DimKey, company, model, keys, employees, project, is_array, items_of, or_else, or_else-none,
  ItemIn, FieldIn,
}
use tri_mc.ConfigSync.Checks.{
  has_str, has_array, is_number, is_boolean, is_optional_string, require, on_record, each,
  is_keys_provider_field, check_provider_fields, check_keys_provider, check_keys, check_company,
  check_catalog_entry, check_model_provider, check_model, check_employee, check_employees,
  check_worktree, check_project, dim_checkers,
}

-- An object with what `P` asks of its fields.
abbrev pub Object : (Fields → Type 0) → Option Json → Type 0
Object P v = (fs : Fields) × (v ≡ some (obj fs)) × P fs

-- Texts that are not empty stand under these names.
abbrev pub HasTexts2 : Text → Text → Fields → Type 0
HasTexts2 a b fs = (has_str fs a ≡ true) × (has_str fs b ≡ true)

-- An array whose elements are all in a shape.
abbrev pub ArrayOf : (Option Json → Type 0) → Option Json → Type 0
ArrayOf P v = (is_array v ≡ true) × ((x : Json) → ItemIn x (items_of v) → P (some x))

abbrev IsCatalogEntry : Option Json → Type 0
IsCatalogEntry =
    Object (λ fs.
      HasTexts2 (text "id") (text "provider") fs × (has_array fs (text "capabilities") ≡ true))

abbrev IsModelProvider : Option Json → Type 0
IsModelProvider = Object (λ fs. has_str fs (text "provider") ≡ true)

-- The fields that a provider of the keys may have.
abbrev pub KeysField : Text → Type 0
KeysField k =
    (k ≡ text "provider") ⊎ (k ≡ text "ready") ⊎ (k ≡ text "fingerprint") ⊎ (k ≡ text "baseUrl")

is_keys_provider_field_iff : (k : Text) → (is_keys_provider_field k ≡ true) ↔ KeysField k
unfolding is_keys_provider_field
is_keys_provider_field_iff k = (
  λ e. elim (text_eq-cases k (text "provider")) [
    | inl (t, q) ↦ inl q
    | inr (t1, n1) ↦ elim (text_eq-cases k (text "ready")) [
      | inl (t, q) ↦ inr (inl q)
      | inr (t2, n2) ↦ elim (text_eq-cases k (text "fingerprint")) [
        | inl (t, q) ↦ inr (inr (inl q))
        | inr (t3, n3) ↦ elim (text_eq-cases k (text "baseUrl")) [
          | inl (t, q) ↦ inr (inr (inr q))
          | inr (t4, n4) ↦ (let bad : false ≡ true = rw (t1, t2, t3, t4) at e in cc bad)
        ]
      ]
    ]
  ],
  λ n. elim n [
    | inl q ↦ rw q (unfold text in unfold text_eq in refl)
    | inr (inl q) ↦ rw q (unfold text in unfold text_eq in refl)
    | inr (inr (inl q)) ↦ rw q (unfold text in unfold text_eq in refl)
    | inr (inr (inr q)) ↦ rw q (unfold text in unfold text_eq in refl)
  ],
)

-- No field but the four allowed ones.
abbrev pub IsKeysProvider : Option Json → Type 0
IsKeysProvider = Object (λ fs.
    ((k : Text) (v : Json) → FieldIn k v fs → KeysField k)
    × (has_str fs (text "provider") ≡ true)
    × (is_boolean (member fs (text "ready")) ≡ true)
    × (is_optional_string (member fs (text "fingerprint")) ≡ true)
    × (is_optional_string (member fs (text "baseUrl")) ≡ true))

abbrev IsEmployee : Option Json → Type 0
IsEmployee = Object (HasTexts2 (text "roleId") (text "name"))

abbrev IsWorktree : Option Json → Type 0
IsWorktree = Object (HasTexts2 (text "path") (text "branch"))

abbrev pub Shaped : DimKey → Option Json → Type 0
Shaped company =
    Object (λ fs.
      (has_str fs (text "state") ≡ true) × HasTexts2 (text "ceoName") (text "onboardedAt") fs)
Shaped model = Object (λ fs.
    (has_str fs (text "defaultModel") ≡ true)
    × ArrayOf IsCatalogEntry (member fs (text "catalog"))
    × ArrayOf IsModelProvider (member fs (text "providers")))
Shaped keys = Object (λ fs.
    ArrayOf IsKeysProvider (member fs (text "providers"))
    × (is_number (member fs (text "refreshIntervalS")) ≡ true)
    × (has_str fs (text "fetchedAt") ≡ true))
Shaped employees = Object (λ fs.
    ArrayOf IsEmployee (member fs (text "roster")) × (has_str fs (text "sourceCommit") ≡ true))
Shaped project = Object (λ fs.
    HasTexts2 (text "projectKey") (text "repoUrl") fs
    × HasTexts2 (text "defaultBranch") (text "devHead") fs
    × ArrayOf IsWorktree (member fs (text "worktrees")))

require-none : (b : Bool) (message : Text) → (require b message ≡ none) ↔ (b ≡ true)
require-none true message = (λ e. refl, λ e. refl)
require-none false message = (λ e. cc, λ e. cc)

-- What the part after the test for an object decides, the whole check decides of objects.
on_record-none :
    (v : Option Json) (message : Text) (rest : Fields → Option Text) (P : Fields → Type 0)
    → ((fs : Fields) → (rest fs ≡ none) ↔ P fs)
    → (on_record v message rest ≡ none) ↔ Object P v
on_record-none (some (obj fs)) message rest P iff = (
  λ e. (fs, refl, (iff fs).0 e),
  λ o. let (gs, q, p) = o in let same : fs ≡ gs = cc q in (iff fs).1 (rw same p),
)
on_record-none none message rest P iff = (λ e. cc, λ o. cc o.1)
on_record-none (some null) message rest P iff = (λ e. cc, λ o. cc o.1)
on_record-none (some (bool b)) message rest P iff = (λ e. cc, λ o. cc o.1)
on_record-none (some (num n)) message rest P iff = (λ e. cc, λ o. cc o.1)
on_record-none (some (str s)) message rest P iff = (λ e. cc, λ o. cc o.1)
on_record-none (some (arr xs)) message rest P iff = (λ e. cc, λ o. cc o.1)

each-none :
    (check : Json → Option Text) (P : Option Json → Type 0)
    → ((x : Json) → (check x ≡ none) ↔ P (some x))
    → (xs : Items) → (each check xs ≡ none) ↔ ((x : Json) → ItemIn x xs → P (some x))
unfolding each
each-none check P iff nil = (λ e x i. elim i [ ], λ h. refl)
each-none check P iff (cons y ys) =
    let ih = each-none check P iff ys in
    (
      λ e x i. elim i [
        | inl q ↦ rw q ((iff y).0 ((or_else-none _ _).0 e).0)
        | inr p ↦ ih.0 ((or_else-none _ _).0 e).1 x p
      ],
      λ h. (or_else-none _ _).1 ((iff y).1 (h y (inl refl)), ih.1 (λ x i. h x (inr i))),
    )

and_iff : (a b : Bool) → (a && b ≡ true) ↔ (a ≡ true) × (b ≡ true)
and_iff a b = (λ e. ground arith, λ p. ground arith)

require_two :
    (a b : Bool) (message : Text) → (require (a && b) message ≡ none) ↔ (a ≡ true) × (b ≡ true)
require_two a b message = (
  λ e. (and_iff a b).0 ((require-none _ message).0 e),
  λ p. (require-none _ message).1 ((and_iff a b).1 p),
)

check_provider_fields-none :
    (fs : Fields)
    → (check_provider_fields fs ≡ none) ↔ ((k : Text) (v : Json) → FieldIn k v fs → KeysField k)
unfolding check_provider_fields
check_provider_fields-none end = (λ e k v i. elim i [ ], λ h. refl)
check_provider_fields-none (field j w fs) =
    let ih = check_provider_fields-none fs in
    (
      λ e k v i. elim i [
        | inl q ↦
            rw q.0
              ((is_keys_provider_field_iff j).0 ((require-none _ _).0 ((or_else-none _ _).0 e).0))
        | inr p ↦ ih.0 ((or_else-none _ _).0 e).1 k v p
      ],
      λ h. (or_else-none _ _).1 (
        (require-none _ _).1 ((is_keys_provider_field_iff j).1 (h j w (inl (refl, refl)))),
        ih.1 (λ k v i. h k v (inr i)),
      ),
    )

-- Two checks in sequence.
module _ (a b : Option Text) {P Q : Type 0} (ap : (a ≡ none) ↔ P) (bq : (b ≡ none) ↔ Q) where
  in_turn : (or_else a b ≡ none) ↔ P × Q
  in_turn = (
    λ e. let (x, y) = (or_else-none a b).0 e in (ap.0 x, bq.0 y),
    λ pq. (or_else-none a b).1 (ap.1 pq.0, bq.1 pq.1),
  )

-- What is equivalent to a shape, from what the checks give.
weaken : {R P Q : Type 0} → R ↔ P → (P → Q) → (Q → P) → R ↔ Q
weaken rp f g = (λ r. f (rp.0 r), λ q. rp.1 (g q))

check_keys_provider-none : (p : Json) → (check_keys_provider p ≡ none) ↔ IsKeysProvider (some p)
unfolding check_keys_provider
check_keys_provider-none p = on_record-none (some p) _ _ _ (λ fs.
    weaken
      (in_turn _ _ (check_provider_fields-none fs)
        (in_turn _ _ (require_two _ _ _) (in_turn _ _ (require-none _ _) (require-none _ _))))
      (λ h. let (a, r) = h in let ((b, c), r') = r in let (d, e) = r' in (a, b, c, d, e))
      (λ h. let (a, b, c, d, e) = h in (a, ((b, c), (d, e)))))

require_three :
    (a b c : Bool) (message : Text)
    → (require (a && b && c) message ≡ none) ↔ (a ≡ true) × (b ≡ true) × (c ≡ true)
require_three a b c message =
    weaken (require-none _ message) (λ e. ground arith) (λ p. ground arith)

check_keys-none : (v : Option Json) → (check_keys v ≡ none) ↔ Shaped keys v
unfolding check_keys
check_keys-none v = on_record-none v _ _ _ (λ fs.
    weaken
      (in_turn _ _ (require_three _ _ _ _) (each-none _ IsKeysProvider check_keys_provider-none _))
      (λ h. ((h.0.0, h.1), h.0.1, h.0.2)) (λ h. ((h.0.0, h.1, h.2), h.0.1)))

check_company-none : (v : Option Json) → (check_company v ≡ none) ↔ Shaped company v
unfolding check_company
check_company-none v =
    on_record-none v _ _ _
      (λ fs. weaken (require_three _ _ _ _) (λ h. (h.0, (h.1, h.2))) (λ h. (h.0, h.1.0, h.1.1)))

check_catalog_entry-none : (x : Json) → (check_catalog_entry x ≡ none) ↔ IsCatalogEntry (some x)
unfolding check_catalog_entry
check_catalog_entry-none x =
    on_record-none (some x) _ _ _ (λ fs. in_turn _ _ (require_two _ _ _) (require-none _ _))

check_model_provider-none : (x : Json) → (check_model_provider x ≡ none) ↔ IsModelProvider (some x)
unfolding check_model_provider
check_model_provider-none x = on_record-none (some x) _ _ _ (λ fs. require-none _ _)

check_model-none : (v : Option Json) → (check_model v ≡ none) ↔ Shaped model v
unfolding check_model
check_model-none v = on_record-none v _ _ _ (λ fs.
    weaken
      (in_turn _ _ (require-none _ _) (
        in_turn _ _ (require_two _ _ _) (
          in_turn _ _ (each-none _ IsCatalogEntry check_catalog_entry-none _)
            (each-none _ IsModelProvider check_model_provider-none _))))
      (λ h. let (d, r) = h in let ((c, p), r') = r in let (cs, ps) = r' in (d, (c, cs), (p, ps)))
      (λ h. let (d, r, r') = h in let (c, cs) = r in let (p, ps) = r' in (d, ((c, p), (cs, ps)))))

check_employee-none : (x : Json) → (check_employee x ≡ none) ↔ IsEmployee (some x)
unfolding check_employee
check_employee-none x = on_record-none (some x) _ _ _ (λ fs. require_two _ _ _)

check_employees-none : (v : Option Json) → (check_employees v ≡ none) ↔ Shaped employees v
unfolding check_employees
check_employees-none v = on_record-none v _ _ _ (λ fs.
    weaken (in_turn _ _ (require_two _ _ _) (each-none _ IsEmployee check_employee-none _))
      (λ h. let ((r, s), es) = h in ((r, es), s)) (λ h. let ((r, es), s) = h in ((r, s), es)))

check_worktree-none : (x : Json) → (check_worktree x ≡ none) ↔ IsWorktree (some x)
unfolding check_worktree
check_worktree-none x = on_record-none (some x) _ _ _ (λ fs. require_two _ _ _)

require_four :
    (a b c d : Bool) (message : Text)
    → (require (a && b && c && d) message ≡ none)
      ↔ (a ≡ true) × (b ≡ true) × (c ≡ true) × (d ≡ true)
require_four a b c d message =
    weaken (require-none _ message) (λ e. ground arith) (λ p. ground arith)

check_project-none : (v : Option Json) → (check_project v ≡ none) ↔ Shaped project v
unfolding check_project
check_project-none v = on_record-none v _ _ _ (λ fs.
    weaken
      (in_turn _ _ (require_four _ _ _ _ _)
        (in_turn _ _ (require-none _ _) (each-none _ IsWorktree check_worktree-none _)))
      (λ h. let ((k, r, b, d), t) = h in ((k, r), (b, d), t))
      (λ h. let ((k, r), (b, d), t) = h in ((k, r, b, d), t)))

-- A dimension is let through exactly when it has its shape: for the keys, providers with no field
-- but the four that are allowed.
pub dim_checkers-Shaped :
    (dim : DimKey) (v : Option Json) → (dim_checkers dim v ≡ none) ↔ Shaped dim v
unfolding dim_checkers
dim_checkers-Shaped company v = check_company-none v
dim_checkers-Shaped model v = check_model-none v
dim_checkers-Shaped keys v = check_keys-none v
dim_checkers-Shaped employees v = check_employees-none v
dim_checkers-Shaped project v = check_project-none v
