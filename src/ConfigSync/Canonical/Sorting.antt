-- ===== src/ConfigSync/Canonical/Sorting.antt =====
-- The order of the entries of an object, and that insertions of two of them commute.
use tri_mc.Prelude.{
  ◌≡◌, ◌≢◌, refl, sym, ap, inl, inr, true, false, List, [], ◌∷◌, arith, Bool-cases,
}
use tri_mc.Prelude.Text.{Text}
use tri_mc.ConfigSync.Canonical.{text_lt, Entry, insert_entry}

text_lt_trans : (s t u : Text) → text_lt s t ≡ true → text_lt t u ≡ true → text_lt s u ≡ true
unfolding text_lt
text_lt_trans [] [] u a b = cc
text_lt_trans [] (y ∷ t) [] a b = cc
text_lt_trans [] (y ∷ t) (z ∷ u) a b = refl
text_lt_trans (x ∷ s) [] u a b = cc
text_lt_trans (x ∷ s) (y ∷ t) [] a b = cc
text_lt_trans (x ∷ s) (y ∷ t) (z ∷ u) a b = ground (arith, text_lt_trans s t u)

text_lt_irrefl : (s : Text) → text_lt s s ≡ false
unfolding text_lt
text_lt_irrefl [] = refl
text_lt_irrefl (x ∷ s) = ground (arith, text_lt_irrefl s)

-- Of two texts one comes first, or they are the same.
text_lt_total : (s t : Text) → text_lt s t ≡ false → text_lt t s ≡ false → s ≡ t
unfolding text_lt
text_lt_total [] [] a b = refl
text_lt_total [] (y ∷ t) a b = cc
text_lt_total (x ∷ s) [] a b = cc
text_lt_total (x ∷ s) (y ∷ t) a b = ground (arith, text_lt_total s t)

text_lt_asym : (s t : Text) → text_lt s t ≡ true → text_lt t s ≡ false
text_lt_asym s t a = ground (arith, text_lt_trans s t s, text_lt_irrefl s)

insert_entry-after :
    (e f : Entry) (fs : List Entry)
    → text_lt f.0 e.0 ≡ true
    → insert_entry e (f ∷ fs) ≡ f ∷ insert_entry e fs
unfolding insert_entry
insert_entry-after e f fs a = rw a refl

insert_entry-before :
    (e f : Entry) (fs : List Entry) → text_lt f.0 e.0 ≡ false → insert_entry e (f ∷ fs) ≡ e ∷ f ∷ fs
unfolding insert_entry
insert_entry-before e f fs a = rw a refl

-- The one of two entries that comes first may be inserted first or last.
insert_entry-ordered :
    (d e : Entry) (es : List Entry)
    → text_lt d.0 e.0 ≡ true
    → insert_entry d (insert_entry e es) ≡ insert_entry e (insert_entry d es)
insert_entry-ordered d e [] a = unfold insert_entry in rw (a, text_lt_asym d.0 e.0 a) refl
insert_entry-ordered d e (f ∷ fs) a = elim (Bool-cases (text_lt f.0 d.0)) [
  | inl b ↦
      let c = text_lt_trans f.0 d.0 e.0 b a in
      rw
        (
          insert_entry-after e f fs c,
          insert_entry-after d f _ b,
          insert_entry-after d f fs b,
          insert_entry-after e f _ c,
        )
        (ap (λ es. f ∷ es) (insert_entry-ordered d e fs a))
  | inr b ↦ elim (Bool-cases (text_lt f.0 e.0)) [
    | inl c ↦
        rw
          (
            insert_entry-after e f fs c,
            insert_entry-before d f _ b,
            insert_entry-before d f fs b,
            insert_entry-after e d _ a,
            insert_entry-after e f fs c,
          )
          refl
    | inr c ↦
        rw
          (
            insert_entry-before e f fs c,
            insert_entry-before d f _ b,
            insert_entry-after e d _ a,
            insert_entry-before e f fs c,
            insert_entry-before d e _ (text_lt_asym d.0 e.0 a),
          )
          refl
  ]
]

-- Insertions of two entries with different keys commute.
pub insert_entry-swap :
    (d e : Entry) (es : List Entry)
    → d.0 ≢ e.0
    → insert_entry d (insert_entry e es) ≡ insert_entry e (insert_entry d es)
insert_entry-swap d e es n = elim (Bool-cases (text_lt d.0 e.0)) [
  | inl a ↦ insert_entry-ordered d e es a
  | inr a ↦ elim (Bool-cases (text_lt e.0 d.0)) [
    | inl b ↦ sym (insert_entry-ordered e d es b)
    | inr b ↦ absurd (n (text_lt_total d.0 e.0 a b))
  ]
]
