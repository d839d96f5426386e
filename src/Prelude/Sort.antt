-- ===== src/Prelude/Sort.antt =====
-- `xs.sort((a, b) => key(b) - key(a))`: stable, the greatest key first.
use Prim.Native.Nat.{ℕ, ◌≤◌}
use mathlib.Core.Path.{◌≡◌, refl}
use mathlib.Core.Logic.{◌⊎◌, ◌↔◌, inl, inr}
use mathlib.Core.Bool.{Bool}
use mathlib.Core.List.{List, [], ◌∷◌}
use native.Mathlib.Omega.{arith}
use tri_mc.Prelude.Tests.{leb, if◌then◌else◌, Bool-cases}
use tri_mc.Prelude.Lists.{keep_if, All-keep_if, In, All}

module _ {ℓ} {A : Type ℓ} (key : A → ℕ) where
  -- Before the first item whose key is not greater, so that equal keys keep their order.
  unfoldable pub insert_desc : A → List A → List A
  insert_desc x [] = x ∷ []
  insert_desc x (y ∷ ys) = if leb (key y) (key x) then x ∷ y ∷ ys else y ∷ insert_desc x ys

  unfoldable pub sort_desc : List A → List A
  unfolding insert_desc
  sort_desc [] = []
  sort_desc (x ∷ xs) = insert_desc x (sort_desc xs)

  -- The head has the greatest key, and so on down.
  abbrev pub IsDesc : List A → Type 0
  IsDesc [] = Unit
  IsDesc (x ∷ xs) = All (λ y. key y ≤ key x) xs × IsDesc xs

  All-insert_desc {κ} :
      (P : A → Type κ) (x : A) (ys : List A) → P x → All P ys → All P (insert_desc x ys)
  unfolding insert_desc
  All-insert_desc P x [] p h = (p, tt)
  All-insert_desc P x (y ∷ ys) p (q, h) = elim (Bool-cases (leb (key y) (key x))) [
    | inl e ↦ rw e (p, (q, h))
    | inr e ↦ rw e (q, All-insert_desc P x ys p h)
  ]

  All-sort_desc {κ} : (P : A → Type κ) (xs : List A) → All P xs → All P (sort_desc xs)
  unfolding sort_desc
  All-sort_desc P [] h = tt
  All-sort_desc P (x ∷ xs) (p, h) = All-insert_desc P x (sort_desc xs) p (All-sort_desc P xs h)

  All-le_trans : (m n : ℕ) (ys : List A) → m ≤ n → All (λ y. key y ≤ m) ys → All (λ y. key y ≤ n) ys
  All-le_trans m n [] h k = tt
  All-le_trans m n (y ∷ ys) h (p, k) = (omega arith, All-le_trans m n ys h k)

  insert_desc-IsDesc : (x : A) (ys : List A) → IsDesc ys → IsDesc (insert_desc x ys)
  unfolding insert_desc
  insert_desc-IsDesc x [] h = (tt, tt)
  insert_desc-IsDesc x (y ∷ ys) (p, h) = elim (Bool-cases (leb (key y) (key x))) [
    | inl e ↦
        let le : key y ≤ key x = ground arith in
        rw e ((le, All-le_trans (key y) (key x) ys le p), (p, h))
    | inr e ↦
        rw e (All-insert_desc (λ z. key z ≤ key y) x ys (ground arith) p, insert_desc-IsDesc x ys h)
  ]

  pub sort_desc-IsDesc : (xs : List A) → IsDesc (sort_desc xs)
  unfolding sort_desc
  sort_desc-IsDesc [] = tt
  sort_desc-IsDesc (x ∷ xs) = insert_desc-IsDesc x (sort_desc xs) (sort_desc-IsDesc xs)

  -- A list that is in order already is left as it is.
  insert_desc_head : (x : A) (ys : List A) → All (λ y. key y ≤ key x) ys → insert_desc x ys ≡ x ∷ ys
  unfolding insert_desc
  insert_desc_head x [] h = refl
  insert_desc_head x (y ∷ ys) (p, h) = ground arith

  pub sort_desc_of_IsDesc : (xs : List A) → IsDesc xs → sort_desc xs ≡ xs
  unfolding sort_desc
  sort_desc_of_IsDesc [] h = refl
  sort_desc_of_IsDesc (x ∷ xs) (p, h) = rw (sort_desc_of_IsDesc xs h) (insert_desc_head x xs p)

  -- A filter keeps the order.
  pub IsDesc-keep_if : (p : A → Bool) (xs : List A) → IsDesc xs → IsDesc (keep_if p xs)
  IsDesc-keep_if p [] h = tt
  IsDesc-keep_if p (x ∷ xs) (q, h) = elim (Bool-cases (p x)) [
    | inl e ↦ rw e (All-keep_if (λ y. key y ≤ key x) p xs q, IsDesc-keep_if p xs h)
    | inr e ↦ rw e (IsDesc-keep_if p xs h)
  ]

module _ {A : Type 0} {Q : Type 0} where
  In-insert_desc_tail :
      (a x y : A) (ys : List A) → (Q → (a ≡ x) ⊎ In a ys) → (a ≡ y) ⊎ Q → (a ≡ x) ⊎ In a (y ∷ ys)
  In-insert_desc_tail a x y ys ih (inl e) = inr (inl e)
  In-insert_desc_tail a x y ys ih (inr q) = elim (ih q) [ inl e ↦ inl e | inr m ↦ inr (inr m) ]

  In-insert_desc_back :
      (a x y : A) (ys : List A) → ((a ≡ x) ⊎ In a ys → Q) → (a ≡ x) ⊎ In a (y ∷ ys) → (a ≡ y) ⊎ Q
  In-insert_desc_back a x y ys ih (inl e) = inr (ih (inl e))
  In-insert_desc_back a x y ys ih (inr (inl e)) = inl e
  In-insert_desc_back a x y ys ih (inr (inr m)) = inr (ih (inr m))

module _ {A : Type 0} (key : A → ℕ) where
  In-insert_desc : (a x : A) (ys : List A) → In a (insert_desc key x ys) → (a ≡ x) ⊎ In a ys
  unfolding insert_desc
  In-insert_desc a x [] m = m
  In-insert_desc a x (y ∷ ys) m = elim (Bool-cases (leb (key y) (key x))) [
    | inl e ↦ rw e at m
    | inr e ↦ In-insert_desc_tail a x y ys (In-insert_desc a x ys) (rw e at m)
  ]

  In-insert_desc_self : (a x : A) (ys : List A) → (a ≡ x) ⊎ In a ys → In a (insert_desc key x ys)
  unfolding insert_desc
  In-insert_desc_self a x [] m = m
  In-insert_desc_self a x (y ∷ ys) m = elim (Bool-cases (leb (key y) (key x))) [
    | inl e ↦ rw e m
    | inr e ↦ rw e (In-insert_desc_back a x y ys (In-insert_desc_self a x ys) m)
  ]

  pub In-sort_desc : (a : A) (xs : List A) → In a (sort_desc key xs) ↔ In a xs
  unfolding sort_desc
  In-sort_desc a [] = (λ m. m, λ m. m)
  In-sort_desc a (x ∷ xs) =
      let ih = In-sort_desc a xs in
      (
        λ m. elim (In-insert_desc a x (sort_desc key xs) m) [
          | inl e ↦ inl e
          | inr k ↦ inr (ih.0 k)
        ],
        λ m.
            In-insert_desc_self a x (sort_desc key xs)
              (elim m [ inl e ↦ inl e | inr k ↦ inr (ih.1 k) ]),
      )
