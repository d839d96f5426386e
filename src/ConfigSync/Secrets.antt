-- ===== src/ConfigSync/Secrets.antt =====
-- The search of a bundle for key material (src/config-sync/types.ts, findSecretField), and what it
-- finds: the names that a secret may stand under, at any depth.
use tri_mc.Prelude.{
  ℕ, ◌+◌, Bool, true, false, ◌||◌, Option, none, some, [], ◌∷◌, ◌++◌, ◌≡◌, refl, ◌↔◌, ◌⊎◌, inl, inr,
  arith, if◌then◌else◌, Bool-cases, Option-cases, ◌&&◌, subst,
}
use tri_mc.Prelude.Text.{Text, text, text_eq, text_eq-cases, decimal}
use tri_mc.Json.{Json, null, bool, num, str, arr, obj, Items, nil, cons, Fields, end, field}
use tri_mc.ConfigSync.{is_str, ItemIn, FieldIn, or_else, or_else-none}

-- `SECRET_FIELD_NAMES.includes(key)`
unfoldable pub is_secret_name : Text → Bool
is_secret_name k =
    text_eq k (text "api_key")
    || text_eq k (text "apiKey")
    || text_eq k (text "secret")
    || text_eq k (text "token")

-- A field of one of those names, with a text that is not empty.
unfoldable pub holds_secret : Text → Json → Bool
unfolding is_secret_name is_str
holds_secret k v = is_secret_name k && is_str (some v)

-- The path of the first hit. A path that is reported is not empty, so `if (hit)` asks whether there
-- is one.
unfoldable mutual
  pub find_secret_field : Json → Text → Option Text
  find_secret_field (arr xs) path = find_in_items xs path 0
  find_secret_field (obj fs) path = find_in_fields fs path
  find_secret_field _ path = none

  pub find_in_items : Items → Text → ℕ → Option Text
  find_in_items nil path i = none
  find_in_items (cons x xs) path i =
      or_else (find_secret_field x (path ++ (text "[" ++ (decimal i ++ text "]"))))
        (find_in_items xs path (i + 1))

  pub find_in_fields : Fields → Text → Option Text
  find_in_fields end path = none
  find_in_fields (field k v fs) path =
      or_else (if holds_secret k v then some (path ++ (text "." ++ k)) else none)
        (or_else (find_secret_field v (path ++ (text "." ++ k))) (find_in_fields fs path))

-- The names of secrets.
abbrev pub SecretName : Text → Type 0
SecretName k = (k ≡ text "api_key") ⊎ (k ≡ text "apiKey") ⊎ (k ≡ text "secret") ⊎ (k ≡ text "token")

-- A text that is not empty stands somewhere in the value under the name of a secret.
pub data Secret : Json → Type 0 where
  here :
      (k : Text) (c : ℕ) (s : Text) {fs : Fields}
      → SecretName k
      → FieldIn k (str (c ∷ s)) fs
      → Secret (obj fs)
  in_field : (k : Text) (v : Json) {fs : Fields} → FieldIn k v fs → Secret v → Secret (obj fs)
  in_item : (x : Json) {xs : Items} → ItemIn x xs → Secret x → Secret (arr xs)

is_secret_name_iff : (k : Text) → (is_secret_name k ≡ true) ↔ SecretName k
unfolding is_secret_name
is_secret_name_iff k = (
  λ e. elim (text_eq-cases k (text "api_key")) [
    | inl (t, q) ↦ inl q
    | inr (t1, n1) ↦ elim (text_eq-cases k (text "apiKey")) [
      | inl (t, q) ↦ inr (inl q)
      | inr (t2, n2) ↦ elim (text_eq-cases k (text "secret")) [
        | inl (t, q) ↦ inr (inr (inl q))
        | inr (t3, n3) ↦ elim (text_eq-cases k (text "token")) [
          | inl (t, q) ↦ inr (inr (inr q))
          | inr (t4, n4) ↦ (let bad : false ≡ true = rw (t1, t2, t3, t4) at e in cc bad)
        ]
      ]
    ]
  ],
  λ n. elim n [
    | inl q ↦ rw q (unfold text in unfold text_eq in refl)
    | inr (inl q) ↦ rw q (unfold text in unfold text_eq in refl)
    | inr (inr (inl q)) ↦ rw q (unfold text in unfold text_eq in refl)
    | inr (inr (inr q)) ↦ rw q (unfold text in unfold text_eq in refl)
  ],
)

holds_secret_of : (k : Text) (c : ℕ) (s : Text) → SecretName k → holds_secret k (str (c ∷ s)) ≡ true
unfolding holds_secret is_str
holds_secret_of k c s n = rw ((is_secret_name_iff k).1 n) refl

found_here :
    (k : Text) (v : Json) (fs : Fields) → FieldIn k v fs → holds_secret k v ≡ true → Secret (obj fs)
unfolding holds_secret is_str
found_here k (str (c ∷ s)) fs i h = here k c s ((is_secret_name_iff k).0 (ground arith)) i
found_here k (str []) fs i h = absurd (ground arith)
found_here k null fs i h = absurd (ground arith)
found_here k (bool b) fs i h = absurd (ground arith)
found_here k (num n) fs i h = absurd (ground arith)
found_here k (arr xs) fs i h = absurd (ground arith)
found_here k (obj gs) fs i h = absurd (ground arith)

guarded-none : (b : Bool) (t : Text) → (if b then some t else none) ≡ none → b ≡ false
guarded-none b t e = ground arith

mutual
  unfolding find_secret_field

  -- Nothing is missed.
  missed_none : (j : Json) (path : Text) → find_secret_field j path ≡ none → ¬ Secret j
  missed_none null path e s = elim s [ ]
  missed_none (bool b) path e s = elim s [ ]
  missed_none (num n) path e s = elim s [ ]
  missed_none (str t) path e s = elim s [ ]
  missed_none (arr xs) path e (in_item x i s) = items_none xs path 0 e x i s
  missed_none (obj fs) path e (here k c s n i) =
      fields_none_here fs path e k (str (c ∷ s)) i (holds_secret_of k c s n)
  missed_none (obj fs) path e (in_field k v i s) = fields_none fs path e k v i s

  items_none :
      (xs : Items) (path : Text) (i : ℕ)
      → find_in_items xs path i ≡ none
      → (x : Json) → ItemIn x xs
      → ¬ Secret x
  items_none nil path i e x p s = elim p [ ]
  items_none (cons y xs) path i e x (inl q) s =
      missed_none y _ ((or_else-none _ _).0 e).0 (subst (λ z. Secret z) q s)
  items_none (cons y xs) path i e x (inr p) s =
      items_none xs path (i + 1) ((or_else-none _ _).0 e).1 x p s

  fields_none_here :
      (fs : Fields) (path : Text)
      → find_in_fields fs path ≡ none
      → (k : Text) (v : Json) → FieldIn k v fs
      → ¬ (holds_secret k v ≡ true)
  fields_none_here end path e k v p h = elim p [ ]
  fields_none_here (field j w fs) path e k v (inl q) h =
      let none_here = guarded-none (holds_secret j w) _ ((or_else-none _ _).0 e).0 in
      cc (none_here, h, q.0, q.1)
  fields_none_here (field j w fs) path e k v (inr p) h =
      fields_none_here fs path ((or_else-none _ _).0 ((or_else-none _ _).0 e).1).1 k v p h

  fields_none :
      (fs : Fields) (path : Text)
      → find_in_fields fs path ≡ none
      → (k : Text) (v : Json) → FieldIn k v fs
      → ¬ Secret v
  fields_none end path e k v p s = elim p [ ]
  fields_none (field j w fs) path e k v (inl q) s =
      missed_none w _ ((or_else-none _ _).0 ((or_else-none _ _).0 e).1).0
        (subst (λ z. Secret z) q.1 s)
  fields_none (field j w fs) path e k v (inr p) s =
      fields_none fs path ((or_else-none _ _).0 ((or_else-none _ _).0 e).1).1 k v p s

into_fields : (j : Text) (w : Json) (fs : Fields) → Secret (obj fs) → Secret (obj (field j w fs))
into_fields j w fs (here k c s n i) = here k c s n (inr i)
into_fields j w fs (in_field k v i s) = in_field k v (inr i) s

into_items : (y : Json) (xs : Items) → Secret (arr xs) → Secret (arr (cons y xs))
into_items y xs (in_item x i s) = in_item x (inr i) s

mutual
  unfolding find_secret_field

  -- Nothing is reported that is not there.
  hit_sound : (j : Json) (path hit : Text) → find_secret_field j path ≡ some hit → Secret j
  hit_sound (arr xs) path hit e = hit_items xs path 0 hit e
  hit_sound (obj fs) path hit e = hit_fields fs path hit e
  hit_sound null path hit e = cc
  hit_sound (bool b) path hit e = cc
  hit_sound (num n) path hit e = cc
  hit_sound (str s) path hit e = cc

  hit_items :
      (xs : Items) (path : Text) (i : ℕ) (hit : Text)
      → find_in_items xs path i ≡ some hit
      → Secret (arr xs)
  hit_items nil path i hit e = cc
  hit_items (cons x xs) path i hit e =
      let path' = path ++ (text "[" ++ (decimal i ++ text "]")) in
      elim (Option-cases (find_secret_field x path')) [
        | inl miss ↦ into_items x xs (hit_items xs path (i + 1) hit (rw miss at e))
        | inr (h, found) ↦ in_item x (inl refl) (hit_sound x path' h found)
      ]

  hit_fields : (fs : Fields) (path hit : Text) → find_in_fields fs path ≡ some hit → Secret (obj fs)
  hit_fields end path hit e = cc
  hit_fields (field k v fs) path hit e =
      let path' = path ++ (text "." ++ k) in
      elim (Bool-cases (holds_secret k v)) [
        | inl named ↦ found_here k v (field k v fs) (inl (refl, refl)) named
        | inr clean ↦ elim (Option-cases (find_secret_field v path')) [
          | inl miss ↦ into_fields k v fs (hit_fields fs path hit (rw (clean, miss) at e))
          | inr (h, found) ↦ in_field k v (inl (refl, refl)) (hit_sound v path' h found)
        ]
      ]

-- What the search reports is there.
pub find_secret_field-Secret :
    (j : Json) (path hit : Text) → find_secret_field j path ≡ some hit → Secret j
find_secret_field-Secret = hit_sound

-- The search finds a secret exactly when there is one at some depth.
pub find_secret_field-none :
    (j : Json) (path : Text) → (find_secret_field j path ≡ none) ↔ ¬ Secret j
find_secret_field-none j path = (
  missed_none j path,
  λ clean. elim (Option-cases (find_secret_field j path)) [
    | inl miss ↦ miss
    | inr (hit, found) ↦ absurd (clean (hit_sound j path hit found))
  ],
)
