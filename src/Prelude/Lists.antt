-- ===== src/Prelude/Lists.antt =====
-- Lists measured by native numbers, filters by Boolean tests, and predicates by recursion.
use Prim.Native.Nat.{ℕ, zero, suc, ◌+◌, ◌≤◌, min}
use mathlib.Core.Path.{◌≡◌, refl, sym, ap, ◌∙◌}
use mathlib.Core.Logic.{◌⊎◌, ◌↔◌, inl, inr}
use mathlib.Core.Bool.{Bool, true, false, ◌&&◌, ◌||◌}
use mathlib.Core.Option.{Option, none, some}
use mathlib.Core.List.{List, [], ◌∷◌, ◌++◌, map}
use native.Mathlib.Omega.{arith}
use tri_mc.Prelude.Tests.{if◌then◌else◌, Bool-cases, is_some}

module _ {ℓ} {A : Type ℓ} where
  abbrev pub length : List A → ℕ
  length [] = 0
  length (x ∷ xs) = suc (length xs)

  abbrev pub take : ℕ → List A → List A
  take zero xs = []
  take (suc n) [] = []
  take (suc n) (x ∷ xs) = x ∷ take n xs

  abbrev pub drop : ℕ → List A → List A
  drop zero xs = xs
  drop (suc n) [] = []
  drop (suc n) (x ∷ xs) = drop n xs

  abbrev pub head? : List A → Option A
  head? [] = none
  head? (x ∷ xs) = some x

  -- `xs.some(p)`, `xs.every(p)`
  abbrev pub any : (A → Bool) → List A → Bool
  any p [] = false
  any p (x ∷ xs) = p x || any p xs

  abbrev pub all : (A → Bool) → List A → Bool
  all p [] = true
  all p (x ∷ xs) = p x && all p xs

  -- `xs.find(p)`
  abbrev pub find : (A → Bool) → List A → Option A
  find p [] = none
  find p (x ∷ xs) = if p x then some x else find p xs

  -- `xs.filter(p)`
  abbrev pub keep_if : (A → Bool) → List A → List A
  keep_if p [] = []
  keep_if p (x ∷ xs) = let rest = keep_if p xs in if p x then x ∷ rest else rest

  pub length-append : (xs ys : List A) → length (xs ++ ys) ≡ length xs + length ys
  length-append [] ys = omega arith
  length-append (x ∷ xs) ys = omega (arith, length-append xs ys)

  pub length-take : (n : ℕ) (xs : List A) → length (take n xs) ≡ min n (length xs)
  length-take zero xs = omega arith
  length-take (suc n) [] = omega arith
  length-take (suc n) (x ∷ xs) = omega (arith, length-take n xs)

  pub length-keep_if : (p : A → Bool) (xs : List A) → length (keep_if p xs) ≤ length xs
  length-keep_if p [] = omega arith
  length-keep_if p (x ∷ xs) = ground (arith, length-keep_if p xs)

-- Cutting an appended list where its parts meet.
module _ {ℓ} {A : Type ℓ} where
  pub take-append : (xs ys : List A) → take (length xs) (xs ++ ys) ≡ xs
  take-append [] ys = refl
  take-append (x ∷ xs) ys = ap (λ zs. x ∷ zs) (take-append xs ys)

  pub drop-append : (xs ys : List A) → drop (length xs) (xs ++ ys) ≡ ys
  drop-append [] ys = refl
  drop-append (x ∷ xs) ys = drop-append xs ys

-- Membership with its position kept, and predicates over all elements.
module _ {A : Type 0} where
  abbrev pub In : A → List A → Type 0
  In a [] = ⊥
  In a (x ∷ xs) = (a ≡ x) ⊎ In a xs

  pub In-append_left : (a : A) (xs ys : List A) → In a xs → In a (xs ++ ys)
  In-append_left a [] ys m = elim m [ ]
  In-append_left a (x ∷ xs) ys (inl e) = inl e
  In-append_left a (x ∷ xs) ys (inr m) = inr (In-append_left a xs ys m)

  pub In-append_right : (a : A) (xs ys : List A) → In a ys → In a (xs ++ ys)
  In-append_right a [] ys m = m
  In-append_right a (x ∷ xs) ys m = inr (In-append_right a xs ys m)

  pub In-append : (a : A) (xs ys : List A) → In a (xs ++ ys) → In a xs ⊎ In a ys
  In-append a [] ys m = inr m
  In-append a (x ∷ xs) ys (inl e) = inl (inl e)
  In-append a (x ∷ xs) ys (inr m) = elim (In-append a xs ys m) [
    | inl k ↦ inl (inr k)
    | inr k ↦ inr k
  ]

  In-keep_if_head :
      (p : A → Bool) (a x : A) (xs : List A)
      → p x ≡ true
      → (In a (keep_if p xs) → In a xs × (p a ≡ true))
      → (a ≡ x) ⊎ In a (keep_if p xs)
      → ((a ≡ x) ⊎ In a xs) × (p a ≡ true)
  In-keep_if_head p a x xs e ih (inl q) = (inl q, rw q e)
  In-keep_if_head p a x xs e ih (inr m) = let r = ih m in (inr r.0, r.1)

  -- What a filter keeps is what passes its test.
  pub In-keep_if :
      (p : A → Bool) (a : A) (xs : List A) → In a (keep_if p xs) → In a xs × (p a ≡ true)
  In-keep_if p a [] m = elim m [ ]
  In-keep_if p a (x ∷ xs) m = elim (Bool-cases (p x)) [
    | inl e ↦ In-keep_if_head p a x xs e (In-keep_if p a xs) (rw e at m)
    | inr e ↦ let r = In-keep_if p a xs (rw e at m) in (inr r.0, r.1)
  ]

  pub In-keep_if_of :
      (p : A → Bool) (a : A) (xs : List A) → In a xs → p a ≡ true → In a (keep_if p xs)
  In-keep_if_of p a [] m e = elim m [ ]
  In-keep_if_of p a (x ∷ xs) (inl q) e = let h : p x ≡ true = rw (← q) e in rw h (inl q)
  In-keep_if_of p a (x ∷ xs) (inr m) e = elim (Bool-cases (p x)) [
    | inl h ↦ rw h (inr (In-keep_if_of p a xs m e))
    | inr h ↦ rw h (In-keep_if_of p a xs m e)
  ]

module _ {ℓ κ} {A : Type ℓ} (P : A → Type κ) where
  abbrev pub All : List A → Type κ
  All [] = Unit
  All (x ∷ xs) = P x × All xs

  pub All-append : (xs ys : List A) → All xs → All ys → All (xs ++ ys)
  All-append [] ys h k = k
  All-append (x ∷ xs) ys (p, h) k = (p, All-append xs ys h k)

  pub All-keep_if : (p : A → Bool) (xs : List A) → All xs → All (keep_if p xs)
  All-keep_if p [] h = tt
  All-keep_if p (x ∷ xs) (q, h) = elim (Bool-cases (p x)) [
    | inl e ↦ rw e (q, All-keep_if p xs h)
    | inr e ↦ rw e (All-keep_if p xs h)
  ]

module _ {κ} {A : Type 0} (P : A → Type κ) where
  pub All-In : (xs : List A) (a : A) → All P xs → In a xs → P a
  All-In [] a h m = elim m [ ]
  All-In (x ∷ xs) a (p, h) (inl e) = rw e p
  All-In (x ∷ xs) a (p, h) (inr m) = All-In xs a h m

  pub All-of_In : (xs : List A) → ((a : A) → In a xs → P a) → All P xs
  All-of_In [] h = tt
  All-of_In (x ∷ xs) h = (h x (inl refl), All-of_In xs (λ a m. h a (inr m)))

-- `some` and `find` look for a member that passes.
module _ {A : Type 0} (p : A → Bool) where
  any_sound : (xs : List A) → any p xs ≡ true → (a : A) × In a xs × (p a ≡ true)
  any_sound [] h = cc
  any_sound (x ∷ xs) h = elim (Bool-cases (p x)) [
    | inl e ↦ (x, inl refl, e)
    | inr e ↦ let (a, m, q) = any_sound xs (rw e at h) in (a, inr m, q)
  ]

  any_complete : (xs : List A) (a : A) → In a xs → p a ≡ true → any p xs ≡ true
  any_complete [] a m e = elim m [ ]
  any_complete (x ∷ xs) a (inl q) e = rw (← q, e)
  any_complete (x ∷ xs) a (inr m) e = ground (arith, any_complete xs a m e)

  pub any_iff : (xs : List A) → (any p xs ≡ true) ↔ ((a : A) × In a xs × (p a ≡ true))
  any_iff xs = (any_sound xs, λ (a, m, e). any_complete xs a m e)

  pub find-none : (xs : List A) → (find p xs ≡ none) ↔ (any p xs ≡ false)
  find-none [] = (λ e. refl, λ e. refl)
  find-none (x ∷ xs) =
      let ih = find-none xs in (λ e. ground (arith, ih.0), λ e. ground (arith, ih.1))

  pub find-some : (xs : List A) (a : A) → find p xs ≡ some a → In a xs × (p a ≡ true)
  find-some [] a h = cc
  find-some (x ∷ xs) a h = elim (Bool-cases (p x)) [
    | inl e ↦ let q : x ≡ a = ground arith in (inl (sym q), rw (← q) e)
    | inr e ↦ let r = find-some xs a (rw e at h) in (inr r.0, r.1)
  ]

  pub is_some-find : (xs : List A) → is_some (find p xs) ≡ any p xs
  is_some-find [] = refl
  is_some-find (x ∷ xs) = ground (arith, is_some-find xs)

-- What a mapped list holds is what the list's members go to.
module _ {A B : Type 0} (f : A → B) where
  pub length-map : (xs : List A) → length (map f xs) ≡ length xs
  length-map [] = refl
  length-map (x ∷ xs) = ap suc (length-map xs)

  pub In-map : (b : B) (xs : List A) → In b (map f xs) ↔ ((a : A) × In a xs × (b ≡ f a))
  In-map b [] = (λ m. elim m [ ], λ (a, m, e). elim m [ ])
  In-map b (x ∷ xs) = (
    λ m. elim m [
      | inl e ↦ (x, inl refl, e)
      | inr k ↦ let (a, j, e) = (In-map b xs).0 k in (a, inr j, e)
    ],
    λ (a, m, e). elim m [ inl q ↦ inl (e ∙ ap f q) | inr j ↦ inr ((In-map b xs).1 (a, j, e)) ],
  )

pub List-cases : {A : Type 0} (xs : List A) → (xs ≡ []) ⊎ ((x : A) × (ys : List A) × (xs ≡ x ∷ ys))
List-cases [] = inl refl
List-cases (x ∷ xs) = inr (x, xs, refl)
