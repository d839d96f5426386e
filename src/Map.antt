-- ===== src/Map.antt =====
-- The language's `Map<string, V>` and `Record<string, V>`: the entries in insertion order, and how
-- each operation acts on a look-up.
use tri_mc.Prelude.{
  ◌+◌, ◌≡◌, refl, sym, ◌∙◌, ◌≢◌, inl, inr, Option, none, some, List, [], ◌∷◌, arith, if◌then◌else◌,
  length, In, Bool-cases,
}
use tri_mc.Prelude.Text.{Text, text_eq, text_eq_iff, text_eq_refl, text_eq-cases}

abbrev pub Map {ℓ} : Type ℓ → Type ℓ
Map V = List (Text × V)

module _ {ℓ} {V : Type ℓ} where
  -- `m.get(k)`
  unfoldable pub get : Map V → Text → Option V
  get [] k = none
  get ((j, v) ∷ m) k = if text_eq j k then some v else get m k

  -- `m.set(k, v)`: an old key keeps its place.
  unfoldable pub put : Map V → Text → V → Map V
  put [] k v = (k, v) ∷ []
  put ((j, w) ∷ m) k v = if text_eq j k then (j, v) ∷ m else (j, w) ∷ put m k v

  -- `m.delete(k)`
  unfoldable pub remove : Map V → Text → Map V
  remove [] k = []
  remove ((j, w) ∷ m) k = let rest = remove m k in if text_eq j k then rest else (j, w) ∷ rest

  abbrev pub keys : Map V → List Text
  keys [] = []
  keys ((k, v) ∷ m) = k ∷ keys m

  abbrev pub values : Map V → List V
  values [] = []
  values ((k, v) ∷ m) = v ∷ values m

  pub get-put :
      (m : Map V) (k j : Text) (v : V)
      → get (put m k v) j ≡ (if text_eq k j then some v else get m j)
  unfolding get put
  get-put [] k j v = refl
  get-put ((i, w) ∷ m) k j v =
      ground (arith, text_eq_iff k j, text_eq_iff i k, text_eq_iff i j, get-put m k j v)

  pub get-remove :
      (m : Map V) (k j : Text) → get (remove m k) j ≡ (if text_eq k j then none else get m j)
  unfolding get remove
  get-remove [] k j = ground arith
  get-remove ((i, w) ∷ m) k j =
      ground (arith, text_eq_iff k j, text_eq_iff i k, text_eq_iff i j, get-remove m k j)

  pub get-put_self : (m : Map V) (k : Text) (v : V) → get (put m k v) k ≡ some v
  get-put_self m k v = simp (get-put, text_eq_refl)

  pub get-put_ne : (m : Map V) (k j : Text) (v : V) → k ≢ j → get (put m k v) j ≡ get m j
  get-put_ne m k j v h = ground (arith, get-put m k j v, text_eq_iff k j)

-- No key twice: what a map of the language has at all times.
abbrev pub Absent {ℓ} : {V : Type ℓ} → Text → Map V → Type 0
Absent k [] = Unit
Absent k ((j, v) ∷ m) = (j ≢ k) × Absent k m

abbrev pub IsDistinct {ℓ} : {V : Type ℓ} → Map V → Type 0
IsDistinct [] = Unit
IsDistinct ((k, v) ∷ m) = Absent k m × IsDistinct m

module _ {ℓ} {V : Type ℓ} where
  Absent-put : (m : Map V) (k j : Text) (v : V) → k ≢ j → Absent j m → Absent j (put m k v)
  unfolding put
  Absent-put [] k j v h a = (h, tt)
  Absent-put ((i, w) ∷ m) k j v h (n, a) = elim (Bool-cases (text_eq i k)) [
    | inl e ↦ rw e (n, a)
    | inr e ↦ rw e (n, Absent-put m k j v h a)
  ]

  pub put-IsDistinct : (m : Map V) (k : Text) (v : V) → IsDistinct m → IsDistinct (put m k v)
  unfolding put
  put-IsDistinct [] k v h = (tt, tt)
  put-IsDistinct ((i, w) ∷ m) k v (a, h) = elim (text_eq-cases i k) [
    | inl (e, p) ↦ rw e (a, h)
    | inr (e, n) ↦ rw e (Absent-put m k i v (λ q. n (sym q)) a, put-IsDistinct m k v h)
  ]

  Absent-remove : (m : Map V) (k j : Text) → Absent j m → Absent j (remove m k)
  unfolding remove
  Absent-remove [] k j a = tt
  Absent-remove ((i, w) ∷ m) k j (n, a) = elim (Bool-cases (text_eq i k)) [
    | inl e ↦ rw e (Absent-remove m k j a)
    | inr e ↦ rw e (n, Absent-remove m k j a)
  ]

  pub remove-IsDistinct : (m : Map V) (k : Text) → IsDistinct m → IsDistinct (remove m k)
  unfolding remove
  remove-IsDistinct [] k h = tt
  remove-IsDistinct ((i, w) ∷ m) k (a, h) = elim (Bool-cases (text_eq i k)) [
    | inl e ↦ rw e (remove-IsDistinct m k h)
    | inr e ↦ rw e (Absent-remove m k i a, remove-IsDistinct m k h)
  ]

  pub length-put_new :
      (m : Map V) (k : Text) (v : V) → get m k ≡ none → length (put m k v) ≡ length m + 1
  unfolding get put
  length-put_new [] k v h = omega arith
  length-put_new ((i, w) ∷ m) k v h = ground (arith, length-put_new m k v)

-- A value is listed exactly when some key has it.
module _ {V : Type 0} where
  pub Absent-get : (m : Map V) (k j : Text) (v : V) → Absent k m → get m j ≡ some v → k ≢ j
  unfolding get
  Absent-get [] k j v a h = cc
  Absent-get ((i, w) ∷ m) k j v (n, a) h = elim (text_eq-cases i j) [
    | inl (e, p) ↦ λ q. n (p ∙ sym q)
    | inr (e, p) ↦ Absent-get m k j v a (rw e at h)
  ]

  pub In-values_of_get : (m : Map V) (k : Text) (v : V) → get m k ≡ some v → In v (values m)
  unfolding get
  In-values_of_get [] k v h = cc
  In-values_of_get ((i, w) ∷ m) k v h = elim (Bool-cases (text_eq i k)) [
    | inl e ↦ inl (ground arith)
    | inr e ↦ inr (In-values_of_get m k v (rw e at h))
  ]

  pub get_of_In-values :
      (m : Map V) (v : V) → IsDistinct m → In v (values m) → (k : Text) × (get m k ≡ some v)
  unfolding get
  get_of_In-values [] v d h = elim h [ ]
  get_of_In-values ((i, w) ∷ m) v (a, d) (inl e) = (i, simp (text_eq_refl, e))
  get_of_In-values ((i, w) ∷ m) v (a, d) (inr h) =
      let (k, e) = get_of_In-values m v d h in
      let ne = Absent-get m i k v a e in (k, ground (arith, text_eq_iff i k))

pub ruleset map_laws = (get-put, get-remove)
