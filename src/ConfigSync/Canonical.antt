-- ===== src/ConfigSync/Canonical.antt =====
-- The text of a JSON value with its keys in order, and the hash of a bundle's content
-- (src/config-sync/types.ts, canonicalize to computeKeyFingerprint). SHA-256 is a parameter, from
-- texts to texts.
mod Sorting
mod Line
pub mod Hash
use tri_mc.Prelude.{
  ℕ, Bool, true, false, ◌&&◌, ◌||◌, Option, none, some, List, [], ◌∷◌, ◌++◌, if◌then◌else◌, ltb,
  ◌==◌, map, take, get_or,
}
use tri_mc.Prelude.Text.{Text, text, text_eq, join}
use tri_mc.Json.{
  Json, null, bool, num, str, arr, obj, Items, nil, cons, Fields, end, field, member, stringify,
  quote,
}

-- The order of `sort()`: by code units.
unfoldable pub text_lt : Text → Text → Bool
text_lt [] [] = false
text_lt [] (b ∷ t) = true
text_lt (a ∷ s) [] = false
text_lt (a ∷ s) (b ∷ t) = ltb a b || (a == b && text_lt s t)

-- A field's key, with the text of its value.
abbrev pub Entry : Type 0
Entry = Text × Text

unfoldable pub insert_entry : Entry → List Entry → List Entry
insert_entry e [] = e ∷ []
insert_entry e (f ∷ fs) =
    let rest = insert_entry e fs in if text_lt f.0 e.0 then f ∷ rest else e ∷ f ∷ fs

unfoldable pub sort_entries : List Entry → List Entry
unfolding insert_entry text_lt
sort_entries [] = []
sort_entries (e ∷ es) = insert_entry e (sort_entries es)

abbrev pub entry_text : Entry → Text
entry_text e = quote e.0 ++ (text ":" ++ e.1)

-- The keys of an object are distinct, so that the text of a field is found with its key.
unfoldable mutual
  unfolding sort_entries

  pub canonicalize : Json → Text
  canonicalize (arr xs) = text "[" ++ (join (text ",") (canonical_items xs) ++ text "]")
  canonicalize (obj fs) =
      text "{"
      ++ (join (text ",") (map entry_text (sort_entries (canonical_fields fs))) ++ text "}")
  canonicalize null = stringify null
  canonicalize (bool b) = stringify (bool b)
  canonicalize (num n) = stringify (num n)
  canonicalize (str s) = stringify (str s)

  pub canonical_items : Items → List Text
  canonical_items nil = []
  canonical_items (cons x xs) = canonicalize x ∷ canonical_items xs

  pub canonical_fields : Fields → List Entry
  canonical_fields end = []
  canonical_fields (field k v fs) = (k, canonicalize v) ∷ canonical_fields fs

unfoldable pub without_dev_head : Fields → Fields
without_dev_head end = end
without_dev_head (field k v fs) =
    let rest = without_dev_head fs in if text_eq k (text "devHead") then rest else field k v rest

abbrev pub project_dim_for_hash : Json → Json
project_dim_for_hash (obj fs) = obj (without_dev_head fs)
project_dim_for_hash project = project

-- `bundle.k`, for a field that every bundle has which was let through.
abbrev pub dim_of : Fields → Text → Json
dim_of bundle k = get_or (member bundle k) null

-- The object that is hashed: the five dimensions, no identifier, no date and no author.
abbrev pub hashed_content : Fields → Json
hashed_content bundle = obj (
    field (text "company") (dim_of bundle (text "company")) (
      field (text "model") (dim_of bundle (text "model")) (
        field (text "keys") (dim_of bundle (text "keys")) (
          field (text "employees") (dim_of bundle (text "employees"))
            (field (text "project") (project_dim_for_hash (dim_of bundle (text "project"))) end)))))

module _ (sha256 : Text → Text) where
  unfoldable pub compute_content_hash : Fields → Text
  unfolding canonicalize without_dev_head
  compute_content_hash bundle = sha256 (canonicalize (hashed_content bundle))

  pub compute_key_fingerprint : Text → Text
  compute_key_fingerprint material = take 8 (sha256 material)
