-- ===== src/ConfigSync.antt =====
-- The configuration that one instance hands to another (src/config-sync/): the shape of a bundle,
-- its dimensions, and the readings of a JSON value that its parts share.
pub mod Secrets
pub mod Checks
pub mod Validate
pub mod Canonical
pub mod Store
pub mod Models
pub mod Apply
pub mod Status
mod Samples
use tri_mc.Prelude.{◌≡◌, refl, ◌⊎◌, ◌↔◌, Bool, true, false, Option, none, some, List, [], ◌∷◌, ◌&&◌}
use tri_mc.Prelude.Text.{Text, text, text_eq}
use tri_mc.Json.{Json, null, bool, num, str, arr, obj, Items, Fields, member, nil, cons, end, field}

pub data DimKey : Type 0 where
  company model keys employees project : DimKey

abbrev pub dim_keys : List DimKey
dim_keys = company ∷ model ∷ keys ∷ employees ∷ project ∷ []

abbrev pub dim_name : DimKey → Text
dim_name company = text "company"
dim_name model = text "model"
dim_name keys = text "keys"
dim_name employees = text "employees"
dim_name project = text "project"

-- What a reading gives when a value is no object: `undefined` for every field.
abbrev pub fields_of : Option Json → Option Fields
fields_of (some (obj fs)) = some fs
fields_of _ = none

abbrev pub is_array : Option Json → Bool
is_array (some (arr xs)) = true
is_array _ = false

-- The elements of an array.
abbrev pub items_of : Option Json → Items
items_of (some (arr xs)) = xs
items_of _ = nil

abbrev pub ItemIn : Json → Items → Type 0
ItemIn x nil = ⊥
ItemIn x (cons y xs) = (x ≡ y) ⊎ ItemIn x xs

abbrev pub FieldIn : Text → Json → Fields → Type 0
FieldIn k v end = ⊥
FieldIn k v (field j w fs) = ((k ≡ j) × (v ≡ w)) ⊎ FieldIn k v fs

-- `if (hit) return hit;`, then the rest.
abbrev pub or_else : Option Text → Option Text → Option Text
or_else (some hit) rest = some hit
or_else none rest = rest

pub or_else-none : (a b : Option Text) → (or_else a b ≡ none) ↔ (a ≡ none) × (b ≡ none)
or_else-none none b = (λ e. (refl, e), λ p. p.1)
or_else-none (some h) b = (λ e. cc, λ p. cc)

-- `typeof v === 'string' && v.length > 0`
unfoldable pub is_str : Option Json → Bool
is_str (some (str (c ∷ s))) = true
is_str _ = false

-- `typeof v === 'string'`
abbrev pub is_string : Option Json → Bool
is_string (some (str s)) = true
is_string _ = false

abbrev is_text : Text → Option Json → Bool
is_text t (some (str s)) = text_eq s t
is_text t _ = false

abbrev unavailable_fields : Fields → Bool
unavailable_fields fs =
    is_text (text "unavailable") (member fs (text "status"))
    && is_string (member fs (text "reason"))

unfoldable pub is_dim_unavailable : Option Json → Bool
is_dim_unavailable (some (obj fs)) = unavailable_fields fs
is_dim_unavailable _ = false
