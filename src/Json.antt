-- ===== src/Json.antt =====
-- JSON values, as `JSON.parse` builds them, and their text by `JSON.stringify`. A number stands by
-- the text that it prints as. The fields of an object stand in the order of `Object.entries`.
use tri_mc.Prelude.{
  ℕ, ◌+◌, ◌/◌, ◌%◌, Bool, false, not, ◌&&◌, ◌||◌, Option, none, some, [], ◌∷◌, ◌++◌, ltb, leb, ◌==◌,
  if◌then◌else◌, ◌≡◌, refl,
}
use tri_mc.Prelude.Text.{Text, text, text_eq}

mutual
  pub data Json : Type 0 where
    null : Json
    bool : Bool → Json
    num : Text → Json
    str : Text → Json
    arr : Items → Json
    obj : Fields → Json

  pub data Items : Type 0 where
    nil : Items
    cons : Json → Items → Items

  pub data Fields : Type 0 where
    end : Fields
    field : Text → Json → Fields → Fields

-- `o.k`, `undefined` where the object has no such field.
unfoldable pub member : Fields → Text → Option Json
member end k = none
member (field j v fs) k = if text_eq j k then some v else member fs k

-- `typeof v === 'string' ? v : undefined`
abbrev pub as_string : Option Json → Option Text
as_string (some (str s)) = some s
as_string _ = none

abbrev is_high : ℕ → Bool
is_high c = leb 0xd800 c && leb c 0xdbff

abbrev is_low : ℕ → Bool
is_low c = leb 0xdc00 c && leb c 0xdfff

starts_low : Text → Bool
starts_low [] = false
starts_low (c ∷ s) = is_low c

abbrev hex_digit : ℕ → ℕ
hex_digit n = if ltb n 10 then n + 48 else n + 87

-- `\u` and four hexadecimal digits.
abbrev hex_escape : ℕ → Text
hex_escape c =
    b'\\'
    ∷ b'u'
    ∷ hex_digit (c / 4096 % 16)
    ∷ hex_digit (c / 256 % 16)
    ∷ hex_digit (c / 16 % 16)
    ∷ hex_digit (c % 16)
    ∷ []

abbrev two : ℕ → ℕ → Text
two a b = a ∷ b ∷ []

-- One unit inside quotes; `paired` says that a low surrogate follows.
escape_unit : ℕ → Bool → Text
escape_unit c paired =
    if c == 34
    then two 92 34
    else if c == 92
    then two 92 92
    else if c == 8
    then two 92 98
    else if c == 9
    then two 92 116
    else if c == 10
    then two 92 110
    else if c == 12
    then two 92 102
    else if c == 13
    then two 92 114
    else if ltb c 32 || (is_high c && not paired || is_low c)
    then hex_escape c
    else c ∷ []

-- `second` says that the next unit is the low half of a pair, whose high half is out already.
escape_from : Bool → Text → Text
escape_from second [] = []
escape_from second (c ∷ s) =
    (if second then c ∷ [] else escape_unit c (starts_low s))
    ++ escape_from (not second && is_high c && starts_low s) s

unfoldable pub quote : Text → Text
unfolding escape_from escape_unit starts_low
quote s = 34 ∷ (escape_from false s ++ 34 ∷ [])

abbrev more_items : Items → Text
more_items nil = []
more_items (cons _ _) = text ","

abbrev more_fields : Fields → Text
more_fields end = []
more_fields (field _ _ _) = text ","

unfoldable mutual
  unfolding quote

  pub stringify : Json → Text
  stringify null = text "null"
  stringify (bool b) = if b then text "true" else text "false"
  stringify (num n) = n
  stringify (str s) = quote s
  stringify (arr xs) = text "[" ++ (stringify_items xs ++ text "]")
  stringify (obj fs) = text "{" ++ (stringify_fields fs ++ text "}")

  pub stringify_items : Items → Text
  stringify_items nil = []
  stringify_items (cons x xs) = stringify x ++ (more_items xs ++ stringify_items xs)

  pub stringify_fields : Fields → Text
  stringify_fields end = []
  stringify_fields (field k v fs) =
      quote k ++ (text ":" ++ (stringify v ++ (more_fields fs ++ stringify_fields fs)))

sample_text :
    stringify (
      obj (
        field
          (text "a\"b")
          (arr (cons (num (text "1")) (cons null nil)))
          (field (text "c") (str (text "x\\")) end)))
    ≡ text "{\"a\\\"b\":[1,null],\"c\":\"x\\\\\"}"
unfolding stringify text
sample_text = refl
