-- ===== src/ConfigSync/Canonical/Hash.antt =====
-- The canonical text of a value does not see the order in which its fields stand, at any depth, and
-- the hash of a bundle sees five dimensions of it only, each but for the order of fields.
use tri_mc.Prelude.{◌≡◌, ◌≢◌, refl, sym, ap, ◌∙◌, inl, inr, true, Bool-cases, ◌++◌}
use tri_mc.Prelude.Text.{Text, text, text_eq, text_eq_refl, join}
use tri_mc.Json.{Json, arr, obj, Items, nil, cons, Fields, end, field, quote}
use tri_mc.ConfigSync.{DimKey, company, model, keys, employees, project, dim_name}
use tri_mc.ConfigSync.Canonical.{
  sort_entries, insert_entry, text_lt, without_dev_head, canonicalize, canonical_items,
  canonical_fields, project_dim_for_hash, dim_of, hashed_content, compute_content_hash,
}
use tri_mc.ConfigSync.Canonical.Line.{line, between, line_part, all_parts}
use tri_mc.ConfigSync.Canonical.Sorting.{insert_entry-swap}

-- The same value but for the order of fields, at any depth.
mutual
  pub data Same : Json → Json → Type 0 where
    same : (j : Json) → Same j j
    in_array : {xs ys : Items} → SameItems xs ys → Same (arr xs) (arr ys)
    in_object : {fs gs : Fields} → SameFields fs gs → Same (obj fs) (obj gs)

  pub data SameItems : Items → Items → Type 0 where
    no_items : SameItems nil nil
    items :
        {x y : Json} {xs ys : Items}
        → Same x y
        → SameItems xs ys
        → SameItems (cons x xs) (cons y ys)

  pub data SameFields : Fields → Fields → Type 0 where
    no_fields : SameFields end end
    fields :
        (k : Text) {v w : Json} {fs gs : Fields}
        → Same v w
        → SameFields fs gs
        → SameFields (field k v fs) (field k w gs)
    swapped :
        (j k : Text) (v w : Json) (fs : Fields)
        → j ≢ k
        → SameFields (field j v (field k w fs)) (field k w (field j v fs))
    chained : {fs gs hs : Fields} → SameFields fs gs → SameFields gs hs → SameFields fs hs

mutual
  unfolding canonicalize sort_entries

  canonicalize-Same : (a b : Json) → Same a b → canonicalize a ≡ canonicalize b
  canonicalize-Same a b (same j) = refl
  canonicalize-Same a b (in_array s) = rw (items_same _ _ s) refl
  canonicalize-Same a b (in_object s) = rw (fields_same _ _ s) refl

  items_same : (xs ys : Items) → SameItems xs ys → canonical_items xs ≡ canonical_items ys
  items_same xs ys no_items = refl
  items_same xs ys (items s t) = rw (canonicalize-Same _ _ s, items_same _ _ t) refl

  fields_same :
      (fs gs : Fields)
      → SameFields fs gs
      → sort_entries (canonical_fields fs) ≡ sort_entries (canonical_fields gs)
  fields_same fs gs no_fields = refl
  fields_same fs gs (fields k s t) = rw (canonicalize-Same _ _ s, fields_same _ _ t) refl
  fields_same fs gs (swapped j k v w hs n) = insert_entry-swap _ _ _ n
  fields_same fs gs (chained s t) = fields_same _ _ s ∙ fields_same _ _ t

-- The same fields but for their order and for a `devHead`, which may be another or be missing.
pub data SameButHead : Fields → Fields → Type 0 where
  both_have :
      (v w : Json) {fs gs hs : Fields}
      → SameFields fs (field (text "devHead") v hs)
      → SameFields gs (field (text "devHead") w hs)
      → SameButHead fs gs
  first_has :
      (v : Json) {fs gs : Fields} → SameFields fs (field (text "devHead") v gs) → SameButHead fs gs
  second_has :
      (v : Json) {fs gs : Fields} → SameFields gs (field (text "devHead") v fs) → SameButHead fs gs

-- The same dimension, as the hash is to see it.
pub data SameDim : DimKey → Json → Json → Type 0 where
  same_value : (dim : DimKey) {v w : Json} → Same v w → SameDim dim v w
  head_moved : {fs gs : Fields} → SameButHead fs gs → SameDim project (obj fs) (obj gs)

same_fields : (fs : Fields) → SameFields fs fs
same_fields end = no_fields
same_fields (field k v fs) = fields k (same v) (same_fields fs)

without_dev_head-swap :
    (j k : Text) (v w : Json) (fs : Fields)
    → j ≢ k
    → SameFields
        (without_dev_head (field j v (field k w fs)))
        (without_dev_head (field k w (field j v fs)))
unfolding without_dev_head
without_dev_head-swap j k v w fs n = elim (Bool-cases (text_eq j (text "devHead"))) [
  | inl a ↦ rw a (same_fields _)
  | inr a ↦ elim (Bool-cases (text_eq k (text "devHead"))) [
    | inl b ↦ rw (a, b) (same_fields _)
    | inr b ↦ rw (a, b) (swapped j k v w (without_dev_head fs) n)
  ]
]

without_dev_head-Same :
    (fs gs : Fields) → SameFields fs gs → SameFields (without_dev_head fs) (without_dev_head gs)
unfolding without_dev_head
without_dev_head-Same fs gs no_fields = no_fields
without_dev_head-Same fs gs (fields k s t) = elim (Bool-cases (text_eq k (text "devHead"))) [
  | inl a ↦ rw a (without_dev_head-Same _ _ t)
  | inr a ↦ rw a (fields k s (without_dev_head-Same _ _ t))
]
without_dev_head-Same fs gs (swapped j k v w hs n) = without_dev_head-swap j k v w hs n
without_dev_head-Same fs gs (chained s t) =
    chained (without_dev_head-Same _ _ s) (without_dev_head-Same _ _ t)

without_dev_head-head :
    (v : Json) (hs : Fields)
    → text_eq (text "devHead") (text "devHead") ≡ true
    → without_dev_head (field (text "devHead") v hs) ≡ without_dev_head hs
unfolding without_dev_head
without_dev_head-head v hs e = rw e refl

headless :
    (v : Json) (fs hs : Fields)
    → SameFields fs (field (text "devHead") v hs)
    → canonicalize (obj (without_dev_head fs)) ≡ canonicalize (obj (without_dev_head hs))
headless v fs hs s =
    canonicalize-Same _ _ (in_object (without_dev_head-Same _ _ s))
    ∙ ap (λ x. canonicalize (obj x)) (without_dev_head-head v hs (text_eq_refl (text "devHead")))

project_text-Same :
    (v w : Json)
    → SameDim project v w
    → canonicalize (project_dim_for_hash v) ≡ canonicalize (project_dim_for_hash w)
project_text-Same v w (same_value _ (same j)) = refl
project_text-Same v w (same_value _ (in_array s)) = canonicalize-Same _ _ (in_array s)
project_text-Same v w (same_value _ (in_object s)) =
    canonicalize-Same _ _ (in_object (without_dev_head-Same _ _ s))
project_text-Same v w (head_moved (both_have x y {fs = fs} {gs = gs} {hs = hs} s t)) =
    headless x fs hs s ∙ sym (headless y gs hs t)
project_text-Same v w (head_moved (first_has x {fs = fs} {gs = gs} s)) = headless x fs gs s
project_text-Same v w (head_moved (second_has x {fs = fs} {gs = gs} s)) = sym (headless x gs fs s)

-- The canonical text of a dimension, as it goes into the hash.
abbrev pub dim_text : Fields → DimKey → Text
dim_text bundle project = canonicalize (project_dim_for_hash (dim_of bundle (text "project")))
dim_text bundle dim = canonicalize (dim_of bundle (dim_name dim))

dim_text-Same :
    (b c : Fields) (dim : DimKey)
    → SameDim dim (dim_of b (dim_name dim)) (dim_of c (dim_name dim))
    → dim_text b dim ≡ dim_text c dim
dim_text-Same b c company (same_value _ s) = canonicalize-Same _ _ s
dim_text-Same b c model (same_value _ s) = canonicalize-Same _ _ s
dim_text-Same b c keys (same_value _ s) = canonicalize-Same _ _ s
dim_text-Same b c employees (same_value _ s) = canonicalize-Same _ _ s
dim_text-Same b c project s = project_text-Same _ _ s

content_line :
    (b : Fields) → canonicalize (hashed_content b) ≡ text "{\"" ++ (line (dim_text b) ++ text "}")
unfolding canonicalize sort_entries insert_entry text_lt text quote join
content_line b = refl

-- Two bundles have the same content hash when their dimensions are the same but for the order of
-- fields, at any depth, and but for the `devHead` of the project, which may be another or be missing
-- in one of them: the identifier, the date, the author and every other field of a bundle have no
-- influence on it. If the hash function gives different texts different hashes, two bundles with the
-- same content hash of which four dimensions are the same in this sense have the same canonical text
-- in the fifth, without the project's `devHead`.
pub compute_content_hash-Same :
    (sha256 : Text → Text) (b c : Fields)
    → (((dim : DimKey) → SameDim dim (dim_of b (dim_name dim)) (dim_of c (dim_name dim)))
        → compute_content_hash sha256 b ≡ compute_content_hash sha256 c)
      × (((x y : Text) → sha256 x ≡ sha256 y → x ≡ y)
          → (dim : DimKey)
          → ((other : DimKey)
              → other ≢ dim
              → SameDim other (dim_of b (dim_name other)) (dim_of c (dim_name other)))
          → compute_content_hash sha256 b ≡ compute_content_hash sha256 c
          → dim_text b dim ≡ dim_text c dim)
unfolding compute_content_hash
compute_content_hash-Same sha256 b c = (
  λ s. ap sha256 (
      content_line b
      ∙ ap (λ x. text "{\"" ++ (x ++ text "}"))
          (all_parts (dim_text b) (dim_text c) (λ dim. dim_text-Same b c dim (s dim)))
      ∙ sym (content_line c)),
  λ inj dim s e.
      let whole = sym (content_line b) ∙ inj _ _ e ∙ content_line c in
      line_part (dim_text b) (dim_text c) dim (λ other n. dim_text-Same b c other (s other n))
        (between (text "{\"") (line (dim_text b)) (line (dim_text c)) (text "}") (text "}") refl
          whole),
)
