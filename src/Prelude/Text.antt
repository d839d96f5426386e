-- ===== src/Prelude/Text.antt =====
-- Strings as lists of UTF-16 code units, with the string methods that the program calls.
-- Case mapping is that of the ASCII letters.
mod Equality
mod Decimal
mod Methods
pub use Equality.{Text, text_eq_refl, text_eq_iff, text_eq-cases, text-ne}
pub use Decimal.{decimal-injective}
pub use Methods.{includes-append}
unfoldable pub use Equality.{text_eq}
unfoldable pub use Decimal.{decimal}
unfoldable pub use Methods.{
  starts_with, includes, ends_with, lower, is_space, trim, replace_unit, join,
}
use Prim.Native.Char.{code}
use Prim.Native.Nat.{ℕ}
use Prim.Native.String.{String}
use mathlib.Core.List.{List, [], ◌∷◌}

-- A literal.
unfoldable pub text : String → List ℕ
text String.[] = []
text (String.◌∷◌ c s) = code c ∷ text s
