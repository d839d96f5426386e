-- ===== src/ConfigSync/Apply/Resolved.antt =====
-- When the dimensions of the keys and of the employees count as applied.
use tri_mc.Prelude.{
  ◌≡◌, ◌≢◌, refl, sym, ◌↔◌, inl, inr, true, false, List, [], ◌∷◌, arith, Bool-cases, get_or,
  List-cases, ◌==◌,
}
use tri_mc.Prelude.Text.{Text, text, text_eq-cases, trim}
use tri_mc.Map.{Map}
use tri_mc.Json.{Json, Fields, Items, nil, cons, member, as_string}
use tri_mc.ConfigSync.{keys, employees, ItemIn, items_of, is_dim_unavailable}
use tri_mc.ConfigSync.Store.{applied, unavailable, join_path}
use tri_mc.ConfigSync.Apply.{
  is_covered, provider_of, uncovered_in, field_of, resolve_keys_dim, GitExecResult,
}
use tri_mc.ConfigSync.Apply.Landing.{head_of, pull_and_recheck, resolve_employees_dim}

uncovered_in-none :
    (env : Map Text) (ps : Items)
    → (uncovered_in env ps ≡ [])
      ↔ ((p : Json) → ItemIn p ps → is_covered env (provider_of p) ≡ true)
unfolding uncovered_in
uncovered_in-none env nil = (λ e p i. elim i [ ], λ h. refl)
uncovered_in-none env (cons p ps) = elim (Bool-cases (is_covered env (provider_of p))) [
  | inl c ↦ rw c (
    λ e q i. elim i [ inl same ↦ rw same c | inr i' ↦ (uncovered_in-none env ps).0 e q i' ],
    λ h. (uncovered_in-none env ps).1 (λ q i. h q (inr i)),
  )
  | inr c ↦ rw c (λ e. cc e, λ h. (let t = h p (inl refl) in cc (t, c)))
]

-- The keys of a bundle count as applied exactly when they are not marked as unavailable and the
-- environment has a material that is not blank for every provider that they list; they count as
-- unavailable exactly when they are marked so, and else there is a warning.
pub resolve_keys_dim_iff :
    (bundle : Fields) (env : Map Text)
    → let s = (resolve_keys_dim bundle env).status in
      let away = is_dim_unavailable (member bundle (text "keys")) in
      let listed = items_of (field_of bundle keys (text "providers")) in
      ((s ≡ unavailable) ↔ (away ≡ true))
      × ((s ≡ applied)
          ↔ (away ≡ false) × ((p : Json) → ItemIn p listed → is_covered env (provider_of p) ≡ true))
unfolding resolve_keys_dim
resolve_keys_dim_iff bundle env =
    let listed = items_of (field_of bundle keys (text "providers")) in
    let (to, from) = uncovered_in-none env listed in
    elim (Bool-cases (is_dim_unavailable (member bundle (text "keys")))) [
      | inl a ↦ rw a ((λ e. refl, λ e. refl), (λ e. cc e, λ h. cc (h.0)))
      | inr a ↦ elim (List-cases (uncovered_in env listed)) [
        | inl e ↦ rw (a, e) ((λ q. cc q, λ q. cc q), (λ q. (refl, to e), λ h. refl))
        | inr (p, ps, e) ↦
            rw (a, e)
              (
                (λ q. cc q, λ q. cc q),
                (λ q. cc q, λ h. (let none_left = from h.1 in cc (none_left, e))),
              )
      ]
    ]

module _ {G : Type 0} (git : G → List Text → GitExecResult × G) (bundle : Fields)
    (fleet_root : Text) where
  abbrev pub rev_parse : List Text
  rev_parse =
      text "-C" ∷ join_path fleet_root (text "TriCompany") ∷ text "rev-parse" ∷ text "HEAD" ∷ []

  -- The last thing asked was the head of the repository, which is the commit.
  pub AtCommit : Text → G → Type 0
  AtCommit commit after =
      (before : G) × ((git before rev_parse).0.code ≡ 0)
      × (trim (git before rev_parse).0.stdout ≡ commit)
      × ((git before rev_parse).1 ≡ after)

  read_head :
      (before : G) (commit old : Text)
      → commit ≢ old
      → head_of (git before rev_parse).0 old ≡ commit
      → AtCommit commit (git before rev_parse).1
  unfolding AtCommit
  read_head before commit old n e = elim (Bool-cases ((git before rev_parse).0.code == 0)) [
    | inl c ↦ (before, ground arith, rw c at e, refl)
    | inr c ↦ (let q : old ≡ commit = rw c at e in absurd (n (sym q)))
  ]

  rechecked :
      (commit old : Text) (g : G)
      → commit ≢ old
      → let r = pull_and_recheck git (join_path fleet_root (text "TriCompany")) commit old g in
        r.0.status ≡ applied → AtCommit commit r.1
  unfolding pull_and_recheck
  rechecked commit old g n =
      let path = join_path fleet_root (text "TriCompany") in
      let g1 = (git g (text "-C" ∷ path ∷ text "pull" ∷ text "--ff-only" ∷ [])).1 in
      elim (text_eq-cases (head_of (git g1 rev_parse).0 old) commit) [
        | inl (t, q) ↦ (rw t (λ e. read_head g1 commit old n q))
        | inr (t, m) ↦ (rw t (λ e. cc e))
      ]

  -- The employees of a bundle count as applied only when they are not marked as unavailable and the
  -- last call of git was one that succeeded and printed the bundle's commit as the head of the
  -- repository, before or after a pull.
  pub resolve_employees_dim-AtCommit :
      let commit = get_or (as_string (field_of bundle employees (text "sourceCommit"))) [] in
      commit ≢ []
      → (g : G) → (resolve_employees_dim git bundle fleet_root g).0.status ≡ applied
      → (is_dim_unavailable (member bundle (text "employees")) ≡ false)
        × AtCommit commit (resolve_employees_dim git bundle fleet_root g).1
  unfolding resolve_employees_dim pull_and_recheck
  resolve_employees_dim-AtCommit ne g =
      let commit = get_or (as_string (field_of bundle employees (text "sourceCommit"))) [] in
      elim (Bool-cases (is_dim_unavailable (member bundle (text "employees")))) [
        | inl a ↦ rw a (λ e. cc e)
        | inr a ↦ elim (text_eq-cases (head_of (git g rev_parse).0 []) commit) [
          | inl (t, q) ↦ rw (a, t) (λ e. (refl, read_head g commit [] ne q))
          | inr (t, m) ↦ rw (a, t) (λ e. (refl, rechecked commit _ _ (λ same. m (sym same)) e))
        ]
      ]
