-- ===== src/Permissions/Rules/Escapes.antt =====
-- Content with its parentheses and backslashes escaped, and that `unescapeContent` undoes it.
use tri_mc.Prelude.{
  ℕ, ◌≡◌, refl, ap, ◌∙◌, ◌≢◌, ◌⊎◌, inl, inr, [], ◌∷◌, ◌++◌, ◌==◌, if◌then◌else◌, arith, Bool-cases,
}
use tri_mc.Prelude.Text.{Text}
use tri_mc.Permissions.Rules.{unescape_content, replace_pair}

-- The escape of one unit, and the forms that are left after the first and the second replacement.
escape : ℕ → Text
escape u =
    if u == b'\\'
    then b'\\' ∷ b'\\' ∷ []
    else if u == b'('
    then b'\\' ∷ b'(' ∷ []
    else if u == b')'
    then b'\\' ∷ b')' ∷ []
    else u ∷ []

escape' : ℕ → Text
escape' u =
    if u == b'\\' then b'\\' ∷ b'\\' ∷ [] else if u == b')' then b'\\' ∷ b')' ∷ [] else u ∷ []

escape'' : ℕ → Text
escape'' u = if u == b'\\' then b'\\' ∷ b'\\' ∷ [] else u ∷ []

each : (ℕ → Text) → Text → Text
each f [] = []
each f (u ∷ s) = f u ++ each f s

pub escape_content : Text → Text
unfolding each escape
escape_content = each escape

-- A unit is a backslash, one of the parentheses, or plain.
abbrev Kind : ℕ → Type 0
Kind u = (u ≡ b'\\') ⊎ ((u ≡ b'(') ⊎ ((u ≡ b')') ⊎ (u ≢ b'\\') × (u ≢ b'(') × (u ≢ b')')))

kind : (u : ℕ) → Kind u
kind u = ground arith

abbrev HeadNe : ℕ → Text → Type 0
HeadNe b [] = Unit
HeadNe b (y ∷ t) = y ≢ b

module _ (a b c : ℕ) where
  replace_met : (t : Text) → replace_pair a b c (a ∷ b ∷ t) ≡ c ∷ replace_pair a b c t
  unfolding replace_pair
  replace_met t = ground arith

  replace_other : (x : ℕ) (t : Text) → x ≢ a → replace_pair a b c (x ∷ t) ≡ x ∷ replace_pair a b c t
  unfolding replace_pair
  replace_other x [] h = refl
  replace_other x (y ∷ t) h = ground arith

  replace_before :
      (x : ℕ) (t : Text) → HeadNe b t → replace_pair a b c (x ∷ t) ≡ x ∷ replace_pair a b c t
  unfolding replace_pair
  replace_before x [] h = refl
  replace_before x (y ∷ t) h = ground arith

module _ (u : ℕ) (slash : u ≢ b'\\') where
  escape_plain : u ≢ b'(' → u ≢ b')' → escape u ≡ u ∷ []
  unfolding escape
  escape_plain q r = ground arith

  escape'_plain : u ≢ b')' → escape' u ≡ u ∷ []
  unfolding escape'
  escape'_plain r = ground arith

  escape''_plain : escape'' u ≡ u ∷ []
  unfolding escape''
  escape''_plain = ground arith

HeadNe-escape : (s : Text) → HeadNe b'(' (each escape s)
unfolding each escape
HeadNe-escape [] = tt
HeadNe-escape (u ∷ s) = elim (kind u) [
  | inl e ↦ rw e (omega arith)
  | inr (inl e) ↦ rw e (omega arith)
  | inr (inr (inl e)) ↦ rw e (omega arith)
  | inr (inr (inr (p, q, r))) ↦ ground arith
]

HeadNe-escape' : (s : Text) → HeadNe b')' (each escape' s)
unfolding each escape'
HeadNe-escape' [] = tt
HeadNe-escape' (u ∷ s) = elim (kind u) [
  | inl e ↦ rw e (omega arith)
  | inr (inl e) ↦ rw e (omega arith)
  | inr (inr (inl e)) ↦ rw e (omega arith)
  | inr (inr (inr (p, q, r))) ↦ ground arith
]

abbrev plain_tail : (u : ℕ) (s t : Text) → s ≡ t → u ∷ s ≡ u ∷ t
plain_tail u s t e = ap (λ z. u ∷ z) e

first_pass : (s : Text) → replace_pair b'\\' b'(' b'(' (each escape s) ≡ each escape' s
unfolding each escape escape'
first_pass [] = unfold replace_pair in refl
first_pass (u ∷ s) = elim (kind u) [
  | inl e ↦ rw e (
      replace_before b'\\' b'(' b'(' b'\\' (b'\\' ∷ each escape s) (omega arith)
      ∙ plain_tail b'\\' _ _ (
          replace_before b'\\' b'(' b'(' b'\\' (each escape s) (HeadNe-escape s)
          ∙ plain_tail b'\\' _ _ (first_pass s)))
  | inr (inl e) ↦
      rw e (replace_met b'\\' b'(' b'(' (each escape s) ∙ plain_tail b'(' _ _ (first_pass s))
  | inr (inr (inl e)) ↦ rw e (
      replace_before b'\\' b'(' b'(' b'\\' (b')' ∷ each escape s) (omega arith)
      ∙ plain_tail b'\\' _ _ (
          replace_other b'\\' b'(' b'(' b')' (each escape s) (omega arith)
          ∙ plain_tail b')' _ _ (first_pass s)))
  | inr (inr (inr (p, q, r))) ↦
      rw (escape_plain u p q r, escape'_plain u p r)
        (replace_other b'\\' b'(' b'(' u (each escape s) p ∙ plain_tail u _ _ (first_pass s))
]

second_pass : (s : Text) → replace_pair b'\\' b')' b')' (each escape' s) ≡ each escape'' s
unfolding each escape' escape''
second_pass [] = unfold replace_pair in refl
second_pass (u ∷ s) = elim (kind u) [
  | inl e ↦ rw e (
      replace_before b'\\' b')' b')' b'\\' (b'\\' ∷ each escape' s) (omega arith)
      ∙ plain_tail b'\\' _ _ (
          replace_before b'\\' b')' b')' b'\\' (each escape' s) (HeadNe-escape' s)
          ∙ plain_tail b'\\' _ _ (second_pass s)))
  | inr (inl e) ↦ rw e (
      replace_other b'\\' b')' b')' b'(' (each escape' s) (omega arith)
      ∙ plain_tail b'(' _ _ (second_pass s))
  | inr (inr (inl e)) ↦
      rw e (replace_met b'\\' b')' b')' (each escape' s) ∙ plain_tail b')' _ _ (second_pass s))
  | inr (inr (inr (p, q, r))) ↦
      rw (escape'_plain u p r, escape''_plain u p)
        (replace_other b'\\' b')' b')' u (each escape' s) p ∙ plain_tail u _ _ (second_pass s))
]

third_pass : (s : Text) → replace_pair b'\\' b'\\' b'\\' (each escape'' s) ≡ s
unfolding each escape''
third_pass [] = unfold replace_pair in refl
third_pass (u ∷ s) = elim (Bool-cases (u == b'\\')) [
  | inl e ↦
      let q : u ≡ b'\\' = ground arith in
      rw q (replace_met b'\\' b'\\' b'\\' (each escape'' s) ∙ plain_tail b'\\' _ _ (third_pass s))
  | inr e ↦
      let p : u ≢ b'\\' = ground arith in
      rw (escape''_plain u p)
        (replace_other b'\\' b'\\' b'\\' u (each escape'' s) p ∙ plain_tail u _ _ (third_pass s))
]

pub unescape-escape : (s : Text) → unescape_content (escape_content s) ≡ s
unfolding unescape_content escape_content
unescape-escape s = rw (first_pass s, second_pass s) (third_pass s)
