-- ===== src/Prelude/Text/Methods.antt =====
-- `includes`, `startsWith`, `endsWith`, `toLowerCase`, `trim`, `replace` of one unit, and `join`.
use Prim.Native.Nat.{ℕ, ◌+◌}
use mathlib.Core.Path.{◌≡◌, refl}
use mathlib.Core.Bool.{Bool, true, false, ◌&&◌, ◌||◌}
use mathlib.Core.List.{List, [], ◌∷◌, ◌++◌, map, reverse}
use native.Mathlib.Omega.{arith}
use tri_mc.Prelude.Tests.{leb, ◌==◌, if◌then◌else◌}
use tri_mc.Prelude.Text.Equality.{Text}

-- `s.startsWith(p)`
unfoldable pub starts_with : Text → Text → Bool
starts_with s [] = true
starts_with [] (a ∷ p) = false
starts_with (b ∷ s) (a ∷ p) = b == a && starts_with s p

-- `s.includes(p)`
unfoldable pub includes : Text → Text → Bool
unfolding starts_with
includes [] p = starts_with [] p
includes (b ∷ s) p = starts_with (b ∷ s) p || includes s p

-- `s.endsWith(p)`
unfoldable pub ends_with : Text → Text → Bool
unfolding starts_with
ends_with s p = starts_with (reverse s) (reverse p)

lower_unit : ℕ → ℕ
lower_unit c = if leb 65 c && leb c 90 then c + 32 else c

-- `s.toLowerCase()`
unfoldable pub lower : Text → Text
unfolding lower_unit
lower = map lower_unit

-- White space and line terminators of ECMAScript, which `trim` and `\s` share.
unfoldable pub is_space : ℕ → Bool
is_space c =
    leb 9 c && leb c 13
    || c == 32
    || c == 160
    || c == 0x1680
    || leb 0x2000 c && leb c 0x200a
    || c == 0x2028
    || c == 0x2029
    || c == 0x202f
    || c == 0x205f
    || c == 0x3000
    || c == 0xfeff

drop_spaces : Text → Text
drop_spaces [] = []
drop_spaces (c ∷ s) = if is_space c then drop_spaces s else c ∷ s

-- `s.trim()`
unfoldable pub trim : Text → Text
unfolding drop_spaces is_space
trim s = reverse (drop_spaces (reverse (drop_spaces s)))

-- `s.replace(/a/g, b)`, for one unit each
unfoldable pub replace_unit : ℕ → ℕ → Text → Text
replace_unit a b = map (λ c. if c == a then b else c)

-- `xs.join(sep)`
unfoldable pub join : Text → List Text → Text
join sep [] = []
join sep (x ∷ []) = x
join sep (x ∷ y ∷ xs) = x ++ (sep ++ join sep (y ∷ xs))

starts_with-append : (p s : Text) → starts_with (p ++ s) p ≡ true
unfolding starts_with
starts_with-append [] [] = refl
starts_with-append [] (c ∷ s) = refl
starts_with-append (a ∷ p) s = ground (arith, starts_with-append p s)

-- What holds a text as a part includes it.
pub includes-append : (s p t : Text) → includes (s ++ (p ++ t)) p ≡ true
unfolding includes
includes-append [] [] [] = unfold starts_with in refl
includes-append [] [] (c ∷ t) = unfold starts_with in refl
includes-append [] (a ∷ p) t = ground (arith, starts_with-append (a ∷ p) t)
includes-append (c ∷ s) p t = ground (arith, includes-append s p t)
