-- ===== src/Prelude/Text/Decimal.antt =====
-- The decimal form of a number, as a template literal or `String(n)` prints it.
use Prim.Native.Nat.{ℕ, zero, suc, ◌+◌, ◌-◌, ◌*◌, ◌/◌, ◌%◌, ◌<◌}
use mathlib.Core.Path.{◌≡◌, ap, sym, ◌∙◌}
use mathlib.Core.Logic.{inl, inr}
use mathlib.Core.List.{[], ◌∷◌}
use native.Mathlib.Omega.{arith}
use tri_mc.Prelude.Tests.{ltb, if◌then◌else◌, Bool-cases}
use tri_mc.Prelude.Text.Equality.{Text}

-- The digits of `n` before those of `acc`; one unit of fuel a digit.
digits_before : ℕ → ℕ → Text → Text
digits_before zero n acc = acc
digits_before (suc f) n acc =
    let rest = digits_before f (n / 10) ((n % 10 + 48) ∷ acc) in
    if ltb n 10 then (n + 48) ∷ acc else rest

unfoldable pub decimal : ℕ → Text
unfolding digits_before
decimal n = digits_before (suc n) n []

-- The number that digits stand for.
read_from : ℕ → Text → ℕ
read_from acc [] = acc
read_from acc (d ∷ ds) = read_from (acc * 10 + (d - 48)) ds

read_from-digits_before :
    (f n : ℕ) (acc : Text) → n < f → read_from 0 (digits_before f n acc) ≡ read_from n acc
unfolding digits_before read_from
read_from-digits_before zero n acc h = elim h [ ]
read_from-digits_before (suc f) n acc h = elim (Bool-cases (ltb n 10)) [
  | inl small ↦ rw small (ap (λ k. read_from k acc) (omega arith))
  | inr large ↦ rw large (
      read_from-digits_before f (n / 10) ((n % 10 + 48) ∷ acc) (ground arith)
      ∙ ap (λ k. read_from k acc) (omega arith))
]

read_from-decimal : (n : ℕ) → read_from 0 (decimal n) ≡ n
unfolding decimal read_from
read_from-decimal n = read_from-digits_before (suc n) n [] (omega arith)

-- Different numbers print differently.
pub decimal-injective : (m n : ℕ) → decimal m ≡ decimal n → m ≡ n
decimal-injective m n e = sym (read_from-decimal m) ∙ ap (read_from 0) e ∙ read_from-decimal n
